-- ===== src/Std/Pack.antt =====
-- `coalesceMessages` of bind_std.go: the buffers of a message are appended to the memory of its
-- first one, and each message carries the endpoint's source.
use batchudp.Prelude.{
  ℕ, ◌+◌, ◌-◌, ◌^◌, ◌≤◌, ◌<◌, ◌≡◌, refl, sym, ap, ◌∙◌, false, List, [], ◌∷◌, ◌++◌, Option, some,
  length, set, All, leb, ltb, if◌then◌else◌, arith, append-nil, length-append, length-drop, flat,
  map, inl, inr, Bool-cases,
}
use batchudp.Slice.{Slice, len, cap_of, append, Msg, UdpAddr, is6}
use batchudp.Unix.{Unix, UnixLaws}
use batchudp.Gso.{GsoResult, size, parse_error, starved, scan, set_gso_size}
use batchudp.Gso.Scan.{Cmsg, IsOther, control, scan-others, scan-nil}
use batchudp.Gso.Control.{set_gso_size-Sets}
use batchudp.Sticky.{Endpoint, set_src_control, src_bytes}
use batchudp.Coalesce.{Packer, coalesce, max_ipv4_payload_len, max_ipv6_payload_len}
use batchudp.Coalesce.Laws.{Lawful}
use batchudp.Coalesce.Roundtrip.{Packs, contents, IsNonempty, coalesce-Packs}

-- `Buffers[0]` of a message that has a buffer, as the one at `base` has since it was begun, and those
-- of `HasRoom` have.
abbrev pub first : List Slice → Slice
first [] = record { bytes = []; spare = [] }
first (s ∷ ss) = s

unfoldable pub packer : UdpAddr → List ℕ → Packer
packer addr src = record {
  base_len = λ m. len (first m.buffers);
  has_room = λ m buf. leb (len buf) (cap_of (first m.buffers) - len (first m.buffers));
  join = λ m buf. record m { buffers = set m.buffers 0 (append (first m.buffers) buf.bytes) };
  begin = λ m buf. record m {
    oob = set_src_control m.oob src;
    buffers = set m.buffers 0 buf;
    addr = some addr;
  };
}

abbrev pub max_payload_len : Endpoint → ℕ
max_payload_len ep = if is6 ep.dst.addr then max_ipv6_payload_len else max_ipv4_payload_len

unfoldable pub coalesce_messages :
    UdpAddr → Endpoint → List Slice → List Msg → (Slice → ℕ → Slice) → Option (ℕ × List Msg)
coalesce_messages addr ep bufs msgs set_gso =
    coalesce (packer addr (src_bytes ep)) set_gso (max_payload_len ep) bufs msgs

-- The segment size that the kernel finds in the control data of a message, 0 if none.
abbrev pub value : GsoResult → ℕ
value (size n) = n
value parse_error = 0
value starved = 0

abbrev pub kernel_gso : Unix → Slice → ℕ
kernel_gso u c = value (scan u u.udp_segment c.bytes)

-- A message of the pool, with room for the source and a segment size.
abbrev pub IsBlank : Unix → List ℕ → Msg → Type 0
IsBlank u src m = (b : Slice) × (m.buffers ≡ b ∷ []) × (length src + u.cmsg_space 2 ≤ cap_of m.oob)

-- One buffer, and the source as its control data.
abbrev pub IsReady : Unix → List ℕ → Msg → Type 0
IsReady u src m =
    (b : Slice) × (m.buffers ≡ b ∷ []) × (m.oob.bytes ≡ src) × (u.cmsg_space 2 ≤ length m.oob.spare)

pub set_src_control-room :
    (c : Slice) (src : List ℕ) (n : ℕ)
    → length src + n ≤ cap_of c
    → ((set_src_control c src).bytes ≡ src) × (n ≤ length (set_src_control c src).spare)
unfolding set_src_control
set_src_control-room c src n room =
    let fits : ltb (cap_of c) (length src) ≡ false = ground arith in
    (
      rw fits refl,
      rw fits (
          omega
            (arith, length-drop (length src) (c.bytes ++ c.spare), length-append c.bytes c.spare)),
    )

abbrev bytes_of : List Slice → List ℕ
bytes_of bs = flat (map (λ (s : Slice). s.bytes) bs)

-- A message of one buffer.
module _ (bs : List Slice) (t b : Slice) (one : bs ≡ t ∷ []) where
  pub set_one : set bs 0 b ≡ b ∷ []
  set_one = ap (λ l. set l 0 b) one

  pub bytes_of-set : bytes_of (set bs 0 b) ≡ b.bytes
  bytes_of-set = ap bytes_of set_one ∙ append-nil b.bytes

  len-first : len (first bs) ≡ length (bytes_of bs)
  len-first =
      ap (λ l. len (first l)) one
      ∙ ap length (sym (append-nil t.bytes))
      ∙ ap (λ l. length (bytes_of l)) (sym one)

  join_one : set bs 0 (append (first bs) b.bytes) ≡ append t b.bytes ∷ []
  join_one = ap (λ l. set l 0 (append (first l) b.bytes)) one

  bytes_of-join : bytes_of (set bs 0 (append (first bs) b.bytes)) ≡ bytes_of bs ++ b.bytes
  bytes_of-join =
      ap bytes_of join_one
      ∙ append-nil (t.bytes ++ b.bytes)
      ∙ ap (λ x. x ++ b.bytes) (sym (append-nil t.bytes))
      ∙ ap (λ l. bytes_of l ++ b.bytes) (sym one)

module _ (u : Unix) (laws : UnixLaws u) (addr : UdpAddr) (src : List ℕ) (cs : List Cmsg)
    (is_src : src ≡ control u cs) (others : All (IsOther u u.udp_segment) cs) where
  pub kernel_gso-ready : (m : Msg) → IsReady u src m → kernel_gso u m.oob ≡ 0
  kernel_gso-ready m (b, one, has, room) = ap value (
      ap (scan u u.udp_segment) (has ∙ is_src ∙ sym (append-nil (control u cs)))
      ∙ scan-others u laws u.udp_segment cs [] others
      ∙ scan-nil u laws u.udp_segment)

  kernel_gso-tag :
      (m : Msg) (k : ℕ) → IsReady u src m → k < 2 ^ 16 → kernel_gso u (set_gso_size u m.oob k) ≡ k
  kernel_gso-tag m k (b, one, has, room) small =
      ap value ((set_gso_size-Sets u laws m.oob k).reads room small cs (has ∙ is_src) others)

  packer-Lawful : Lawful (packer addr src) (set_gso_size u) (kernel_gso u) addr
  unfolding packer
  packer-Lawful = record {
    IsBlank = IsBlank u src;
    IsReady = IsReady u src;
    has_buffer = λ m blank. omega (arith, ap length blank.1);
    begin-IsReady = λ m b blank. (
      b,
      set_one m.buffers blank.0 b blank.1,
      (set_src_control-room m.oob src (u.cmsg_space 2) blank.2).0,
      (set_src_control-room m.oob src (u.cmsg_space 2) blank.2).1,
    );
    payload-begin = λ m b blank. bytes_of-set m.buffers blank.0 b blank.1;
    addr-begin = λ m b. refl;
    gso_of-ready = kernel_gso-ready;
    gso_of-tag = kernel_gso-tag;
    base_len_lem = λ m ready. len-first m.buffers ready.0 ready.0 ready.1;
    join-IsReady = λ m b ready room.
        (append ready.0 b.bytes, join_one m.buffers ready.0 b ready.1, ready.2, ready.3);
    payload-join = λ m b ready room. bytes_of-join m.buffers ready.0 b ready.1;
    addr-join = λ m b. refl;
  }

  -- With a source that holds no segment size, and at least as many pooled messages as datagrams,
  -- `coalesceMessages` stays in range, and what the kernel sends of its messages are exactly the
  -- caller's datagrams (of at least one byte each), in order, to the given address.
  pub coalesce_messages-Packs :
      (ep : Endpoint) (bufs : List Slice) (msgs : List Msg)
      → src_bytes ep ≡ src
      → All (IsBlank u src) msgs
      → length bufs ≤ length msgs
      → IsNonempty bufs
      → Packs
          (kernel_gso u)
          addr
          (max_payload_len ep)
          []
          (contents bufs)
          (coalesce_messages addr ep bufs msgs (set_gso_size u))
  unfolding coalesce_messages
  coalesce_messages-Packs ep bufs msgs has blank room pos = rw has (
      coalesce-Packs (packer addr src) (set_gso_size u) (kernel_gso u) addr packer-Lawful
        (max_payload_len ep) bufs msgs
        (elim (Bool-cases (is6 ep.dst.addr)) [
          | inl six ↦ rw six (omega arith)
          | inr four ↦ rw four (omega arith)
        ])
        (unfold packer-Lawful in blank) room pos)
