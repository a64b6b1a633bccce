-- ===== src/Batching/Pack.antt =====
-- `coalesceMessages` of batching_conn_linux.go: the buffers of a message are gathered, not copied,
-- and a message carries no source.
use batchudp.Prelude.{
  ℕ, ◌+◌, ◌^◌, ◌≤◌, ◌<◌, ◌≡◌, refl, ap, ◌∙◌, Bool, true, ◌&&◌, ◌||◌, List, [], ◌∷◌, ◌++◌, Option,
  some, length, set, All, ◌==◌, if◌then◌else◌, arith, append-nil, length-append, flat, map, drop,
  inl, inr, Bool-cases, map-append,
}
use batchudp.Prelude.Chunks.{flat-snoc}
use batchudp.Slice.{starts_with, Slice, len, cap_of, reslice, Msg, UdpAddr}
use batchudp.Unix.{Unix, UnixLaws}
use batchudp.Gso.{scan, set_gso_size}
use batchudp.Gso.Scan.{scan-nil}
use batchudp.Gso.Control.{set_gso_size-Sets}
use batchudp.Coalesce.{Packer, coalesce, max_ipv4_payload_len, max_ipv6_payload_len}
use batchudp.Coalesce.Laws.{Lawful}
use batchudp.Coalesce.Roundtrip.{Packs, contents, IsNonempty, coalesce-Packs}
use batchudp.Std.Pack.{kernel_gso, value}

-- `for _, chunk := range msgs[base].Buffers { baseLenBefore += len(chunk) }`
unfoldable pub chunks_len : List Slice → ℕ
chunks_len [] = 0
chunks_len (s ∷ ss) = len s + chunks_len ss

unfoldable pub packer : UdpAddr → Packer
packer addr = record {
  base_len = λ m. chunks_len m.buffers;
  has_room = λ m buf. true;
  join = λ m buf. record m { buffers = m.buffers ++ (buf ∷ []) };
  begin =
      λ m buf. record m { oob = reslice m.oob 0; buffers = set m.buffers 0 buf; addr = some addr };
}

-- `ip.To4() != nil`: four bytes, or an IPv4-mapped address of sixteen.
unfoldable pub has_to4 : List ℕ → Bool
has_to4 ip =
    length ip == 4 || (length ip == 16 && (starts_with 10 0 ip && starts_with 2 0xff (drop 10 ip)))

unfoldable pub max_payload_len : UdpAddr → ℕ
max_payload_len addr = if has_to4 addr.ip then max_ipv4_payload_len else max_ipv6_payload_len

unfoldable pub coalesce_messages : Unix → UdpAddr → List Slice → List Msg → Option (ℕ × List Msg)
coalesce_messages u addr bufs msgs =
    coalesce (packer addr) (set_gso_size u) (max_payload_len addr) bufs msgs

-- A message of the pool: one buffer, and room for a segment size.
abbrev pub IsBlank : Unix → Msg → Type 0
IsBlank u m = (b : Slice) × (m.buffers ≡ b ∷ []) × (u.cmsg_space 2 ≤ cap_of m.oob)

abbrev IsReady : Unix → Msg → Type 0
IsReady u m = (m.oob.bytes ≡ []) × (u.cmsg_space 2 ≤ length m.oob.spare)

abbrev bytes_of : List Slice → List ℕ
bytes_of bs = flat (map (λ (s : Slice). s.bytes) bs)

bytes_of-snoc : (bs : List Slice) (b : Slice) → bytes_of (bs ++ (b ∷ [])) ≡ bytes_of bs ++ b.bytes
bytes_of-snoc bs b =
    ap flat (map-append (λ (s : Slice). s.bytes) bs (b ∷ []))
    ∙ flat-snoc (map (λ (s : Slice). s.bytes) bs) b.bytes

chunks_len_lem : (bs : List Slice) → chunks_len bs ≡ length (bytes_of bs)
unfolding chunks_len
chunks_len_lem [] = refl
chunks_len_lem (s ∷ ss) = omega (arith, chunks_len_lem ss, length-append s.bytes (bytes_of ss))

module _ (u : Unix) (laws : UnixLaws u) (addr : UdpAddr) where
  packer-Lawful : Lawful (packer addr) (set_gso_size u) (kernel_gso u) addr
  unfolding packer
  packer-Lawful = record {
    IsBlank = IsBlank u;
    IsReady = IsReady u;
    has_buffer = λ m blank. omega (arith, ap length blank.1);
    begin-IsReady =
        λ m b blank. (refl, omega (arith, length-append m.oob.bytes m.oob.spare, blank.2));
    payload-begin = λ m b blank. ap (λ l. bytes_of (set l 0 b)) blank.1 ∙ append-nil b.bytes;
    addr-begin = λ m b. refl;
    gso_of-ready = λ m ready.
        ap (λ xs. value (scan u u.udp_segment xs)) ready.0
        ∙ ap value (scan-nil u laws u.udp_segment);
    gso_of-tag = λ m k ready small.
        ap value ((set_gso_size-Sets u laws m.oob k).reads ready.1 small [] ready.0 tt);
    base_len_lem = λ m ready. chunks_len_lem m.buffers;
    join-IsReady = λ m b ready room. ready;
    payload-join = λ m b ready room. bytes_of-snoc m.buffers b;
    addr-join = λ m b. refl;
  }

  max_payload_len-lt : max_payload_len addr < 2 ^ 16
  unfolding max_payload_len
  max_payload_len-lt = elim (Bool-cases (has_to4 addr.ip)) [
    | inl four ↦ rw four (omega arith)
    | inr six ↦ rw six (omega arith)
  ]

  -- The gathering `coalesceMessages` stays in range too, and the kernel sends exactly the caller's
  -- datagrams (of at least one byte each), in order, to the given address.
  pub batching-Packs :
      (bufs : List Slice) (msgs : List Msg)
      → All (IsBlank u) msgs
      → length bufs ≤ length msgs
      → IsNonempty bufs
      → Packs
          (kernel_gso u)
          addr
          (max_payload_len addr)
          []
          (contents bufs)
          (coalesce_messages u addr bufs msgs)
  unfolding coalesce_messages
  batching-Packs bufs msgs blank room pos =
      coalesce-Packs (packer addr) (set_gso_size u) (kernel_gso u) addr packer-Lawful
        (max_payload_len addr) bufs msgs max_payload_len-lt (unfold packer-Lawful in blank) room pos
