-- ===== src/Std/Send/Plain.antt =====
-- The attempt of `Send` without offload: as the first one, and as the one behind a refused offload.
use batchudp.Prelude.{
  ℕ, suc, ◌^◌, ◌%◌, ◌≤◌, ◌≡◌, refl, ap, ap₂, Option, some, List, [], ◌∷◌, ◌++◌, length, map, flat,
  set, ltb, All, arith, inl, inr, Bool-cases, length-append, length-drop,
}
use batchudp.Slice.{set_first-set, Slice, Msg, UdpAddr, cap_of}
use batchudp.Unix.{Unix, UnixLaws}
use batchudp.Gso.{set_gso_size}
use batchudp.Gso.Scan.{Cmsg, control, IsOther}
use batchudp.Gso.Control.{set_gso_size-Sets}
use batchudp.Sticky.{Endpoint, src_bytes, set_src_control}
use batchudp.Coalesce.{tag}
use batchudp.Coalesce.Keep.{coalesce-Kept}
use batchudp.Coalesce.Laws.{datagrams, IsSendable}
use batchudp.Coalesce.Roundtrip.{contents}
use batchudp.Std.Pack.{
  coalesce_messages, kernel_gso, max_payload_len, IsBlank, packer, set_src_control-room,
  kernel_gso-ready, set_one, bytes_of-set,
}
use batchudp.Std.Send.{prepare}

-- `prepare` makes a message for each datagram, one that the kernel sends as it is.
pub record Prepared (u : Unix) (addr : UdpAddr) (max_payload : ℕ) (bufs : List Slice)
    (r : Option (List Msg)) : Type 0 where
  pub used : List Msg
  pub left : List Msg
  pub result : r ≡ some (used ++ left)
  pub count : length used ≡ length bufs
  pub same : flat (map (datagrams (kernel_gso u)) used) ≡ contents bufs
  pub fine : All (IsSendable (kernel_gso u) addr max_payload) used

module _ (u : Unix) (laws : UnixLaws u) (addr : UdpAddr) (src : List ℕ) (cs : List Cmsg)
    (is_src : src ≡ control u cs) (others : All (IsOther u u.udp_segment) cs)
    (max_payload : ℕ) where
  abbrev filled : Slice → Msg → Msg
  filled b m = record m {
    addr = some addr;
    buffers = set m.buffers 0 b;
    oob = set_src_control m.oob src;
  }

  filled-gso : (b : Slice) (m : Msg) → IsBlank u src m → kernel_gso u (filled b m).oob ≡ 0
  filled-gso b m (t, one, room) = kernel_gso-ready u laws addr src cs is_src others (filled b m) (
    b,
    set_one m.buffers t b one,
    (set_src_control-room m.oob src (u.cmsg_space 2) room).0,
    (set_src_control-room m.oob src (u.cmsg_space 2) room).1,
  )

  filled-datagrams :
      (b : Slice) (m : Msg) → IsBlank u src m → datagrams (kernel_gso u) (filled b m) ≡ b.bytes ∷ []
  filled-datagrams b m blank =
      rw (filled-gso b m blank) (ap (λ x. x ∷ []) (bytes_of-set m.buffers blank.0 b blank.1))

  filled-IsSendable :
      (b : Slice) (m : Msg)
      → IsBlank u src m
      → IsSendable (kernel_gso u) addr max_payload (filled b m)
  filled-IsSendable b m blank = record {
    goes_to = refl;
    few = omega (arith, ap length (filled-datagrams b m blank));
    small = λ many. absurd (omega (arith, ap length (filled-datagrams b m blank)));
  }

  pub prepare-Prepared :
      (bufs : List Slice) (msgs : List Msg)
      → All (IsBlank u src) msgs
      → length bufs ≤ length msgs
      → Prepared u addr max_payload bufs (prepare addr src bufs msgs)
  unfolding prepare
  prepare-Prepared [] msgs blank room = record {
    used = [];
    left = msgs;
    result = refl;
    count = refl;
    same = refl;
    fine = tt;
  }
  prepare-Prepared (b ∷ bs) [] blank room = absurd (omega arith)
  prepare-Prepared (b ∷ bs) (m ∷ ms) blank room =
      let p : Prepared u addr max_payload bs (prepare addr src bs ms) =
        prepare-Prepared bs ms blank.1 (omega arith) in
      record {
        used = filled b m ∷ p.used;
        left = p.left;
        result =
            rw (set_first-set m.buffers b (omega (arith, ap length blank.0.1)), p.result, prepare)
              refl;
        count = ap suc p.count;
        same = ap₂ ◌++◌ (filled-datagrams b m blank.0) p.same;
        fine = (filled-IsSendable b m blank.0, p.fine);
      }

-- A message of the pool stays one through the loop of `coalesceMessages`.
module _ (u : Unix) (laws : UnixLaws u) (addr : UdpAddr) (src : List ℕ) where
  cap_of-set_src_control : (c : Slice) (xs : List ℕ) → cap_of (set_src_control c xs) ≡ cap_of c
  unfolding set_src_control
  cap_of-set_src_control c xs = elim (Bool-cases (ltb (cap_of c) (length xs))) [
    | inl small ↦ rw small refl
    | inr fits ↦
        let le : length xs ≤ cap_of c = ground arith in
        rw fits (
          omega
            (arith, length-drop (length xs) (c.bytes ++ c.spare), length-append c.bytes c.spare))
  ]

  IsBlank-begin :
      (m : Msg) (b : Slice) → IsBlank u src m → IsBlank u src ((packer addr src).begin m b)
  unfolding packer
  IsBlank-begin m b (t, one, room) =
      (b, set_one m.buffers t b one, omega (arith, cap_of-set_src_control m.oob src))

  IsBlank-join :
      (m : Msg) (b : Slice) → IsBlank u src m → IsBlank u src ((packer addr src).join m b)
  unfolding packer
  IsBlank-join m b (t, one, room) = (_, set_one m.buffers t _ one, room)

  IsBlank-tag : (m : Msg) (k : ℕ) → IsBlank u src m → IsBlank u src (tag (set_gso_size u) k m)
  IsBlank-tag m k (t, one, room) =
      (t, one, omega (arith, (set_gso_size-Sets u laws m.oob (k % 2 ^ 16)).keeps_cap))

  pub coalesce_messages-IsBlank :
      (ep : Endpoint) (bufs : List Slice) (msgs : List Msg) (n : ℕ) (ms : List Msg)
      → src_bytes ep ≡ src
      → All (IsBlank u src) msgs
      → coalesce_messages addr ep bufs msgs (set_gso_size u) ≡ some (n, ms)
      → All (IsBlank u src) ms × (length ms ≡ length msgs)
  unfolding coalesce_messages
  coalesce_messages-IsBlank ep bufs msgs n ms has blank e =
      coalesce-Kept (packer addr src) (set_gso_size u) (max_payload_len ep) (IsBlank u src)
        IsBlank-begin IsBlank-join IsBlank-tag bufs msgs n ms blank (rw has at e)
