-- ===== src/Wire/Arrival.antt =====
-- The datagrams arrive.
use batchudp.Prelude.{
  ℕ, suc, ◌+◌, ◌*◌, ◌≤◌, ◌<◌, ◌≡◌, refl, sym, ap, ap₂, subst, ◌∙◌, true, false, Option, some, none,
  List, [], ◌∷◌, ◌++◌, length, take, map, flat, All, ltb, ◌==◌, arith, inl, inr, Bool-cases,
  map-append, length-take, take-append_add, append-nil,
}
use batchudp.Prelude.Chunks.{chunks, chunks-one}
use batchudp.Slice.{Slice, Msg, UdpAddr, payload}
use batchudp.Unix.{Unix, UnixLaws}
use batchudp.Gso.{get_gso_size, set_gso_size}
use batchudp.Gso.Scan.{Cmsg, control, IsOther}
use batchudp.Sticky.{Endpoint, src_bytes}
use batchudp.Coalesce.Laws.{datagrams, IsSendable}
use batchudp.Coalesce.Roundtrip.{Packs, contents, IsNonempty}
use batchudp.Std.Pack.{
  first, kernel_gso, coalesce_messages, coalesce_messages-Packs, max_payload_len, IsBlank,
}
use batchudp.Split.{SplitResult, split, split_coalesced_messages, gro_read_batch_size}
use batchudp.Split.Segments.{View, view, HasRoom}
use batchudp.Split.Outer.{segments, views_of, received, received-read, received-unread, Splits}
use batchudp.Split.Window.{IsRead, not_filled, filled, gro_window-Splits}
use batchudp.Wire.{Carries, Carried, all_read, one_read}

some_inj : {A : Type 0} {a b : A} → some a ≡ some b → a ≡ b
some_inj {A} {a} {b} e = ap (λ (o : Option A). elim o [ some x ↦ x | none ↦ a ]) e

module _ (u : Unix) (from : UdpAddr) (g : ℕ) where
  -- the receiver's cut of a message is the sender's
  segments-Carries :
      (m r : Msg) (c : Carries u from g m r)
      → segments r (kernel_gso u m.oob) ≡ datagrams (kernel_gso u) m
  segments-Carries m r c = elim (Bool-cases (ltb 0 (kernel_gso u m.oob))) [
    | inl cut ↦
        let no_zero : (kernel_gso u m.oob == 0) ≡ false = ground arith in
        rw (cut, no_zero) (ap (chunks (kernel_gso u m.oob)) c.same_bytes)
    | inr whole ↦
        let is_zero : (kernel_gso u m.oob == 0) ≡ true = ground arith in
        rw (whole, is_zero)
          (ap (chunks r.n) c.same_bytes
            ∙ chunks-one r.n (payload m) (omega (arith, c.filled, c.has_bytes))
                (omega (arith, c.filled)))
  ]

  abbrev pub from_sender : List ℕ → View
  from_sender d = (d, some from)

  received-quiet :
      (rs : List Msg) → All (λ (r : Msg). r.n ≡ 0) rs → received (get_gso_size u) rs ≡ []
  unfolding received
  received-quiet [] q = refl
  received-quiet (r ∷ rs) q = received-unread (get_gso_size u) g r rs q.0

  quiet-IsRead :
      (rs : List Msg) → All (λ (r : Msg). r.n ≡ 0) rs → All (IsRead (get_gso_size u) g) rs
  quiet-IsRead [] q = tt
  quiet-IsRead (r ∷ rs) q = (not_filled q.0, quiet-IsRead rs q.1)

  received-Carried :
      (ms rs : List Msg)
      → Carried u from g ms rs
      → received (get_gso_size u) rs ≡ map from_sender (flat (map (datagrams (kernel_gso u)) ms))
  received-Carried _ _ (all_read rs quiet) = received-quiet rs quiet
  received-Carried _ _ (one_read m r ms rs c more) =
      received-read (get_gso_size u) g r rs (kernel_gso u m.oob) c.has_bytes c.same_size
      ∙ ap₂ ◌++◌
          (ap (views_of r) (segments-Carries m r c)
            ∙ ap (λ a. map (λ xs. (xs, a)) (datagrams (kernel_gso u) m)) c.sender)
          (received-Carried ms rs more)
      ∙ sym (
          map-append from_sender (datagrams (kernel_gso u) m)
            (flat (map (datagrams (kernel_gso u)) ms)))

  IsRead-Carries :
      (m r : Msg)
      → Carries u from g m r
      → length (datagrams (kernel_gso u) m) ≤ 64
      → IsRead (get_gso_size u) g r
  IsRead-Carries m r c few =
      filled (kernel_gso u m.oob) c.held c.same_size c.has_bytes c.size_le
        (omega (arith, ap length c.same_bytes, c.filled, length-take r.n (first r.buffers).bytes))
        c.small (omega (arith, ap length (segments-Carries m r c)))

  reads-IsRead :
      (dest : UdpAddr) (max_payload : ℕ) (ms rs : List Msg)
      → Carried u from g ms rs
      → All (IsSendable (kernel_gso u) dest max_payload) ms
      → All (IsRead (get_gso_size u) g) rs
  reads-IsRead dest mp _ _ (all_read rs quiet) fine = quiet-IsRead rs quiet
  reads-IsRead dest mp _ _ (one_read m r ms rs c more) fine =
      (IsRead-Carries m r c fine.0.few, reads-IsRead dest mp ms rs more fine.1)

-- What the receiver of the datagrams `bufs` has in its first slots, each with its sender.
pub record Arrives (from : UdpAddr) (bufs : List Slice) (r : SplitResult) : Type 0 where
  pub after : List Msg
  pub count : r ≡ split (length bufs) after
  pub same : map view (take (length bufs) after) ≡ map (λ (b : Slice). (b.bytes, some from)) bufs

module _ (u : Unix) (laws : UnixLaws u) (from : UdpAddr) (g : ℕ) where
  length-from_sender :
      (bufs : List Slice) → length (map (from_sender u from g) (contents bufs)) ≡ length bufs
  length-from_sender [] = refl
  length-from_sender (b ∷ bs) = ap suc (length-from_sender bs)

  from_sender_lem :
      (bufs : List Slice)
      → map (from_sender u from g) (contents bufs) ≡ map (λ (b : Slice). (b.bytes, some from)) bufs
  from_sender_lem [] = refl
  from_sender_lem (b ∷ bs) = ap (◌∷◌ (b.bytes, some from)) (from_sender_lem bs)

  Arrives-Splits :
      (head reads : List Msg) (bufs : List Slice) (r : SplitResult)
      → received (get_gso_size u) reads ≡ map (from_sender u from g) (contents bufs)
      → Splits (get_gso_size u) g 0 head (received (get_gso_size u) reads) r
      → Arrives from bufs r
  Arrives-Splits head reads bufs r all s =
      let size : 0 + length (received (get_gso_size u) reads) ≡ length bufs =
        omega (arith, ap length all, length-from_sender bufs) in
      record {
        after = s.after;
        count = s.result ∙ ap (λ k. split k s.after) size;
        same =
            ap (λ k. map view (take k s.after)) (sym size) ∙ s.views ∙ all ∙ from_sender_lem bufs;
      }

  -- What one side packs, the other side's split gives back: where the network carries every message
  -- of `coalesceMessages` over, in order, into the read window of a batch size that is a multiple
  -- of 64, the receiver's first slots hold exactly the sender's datagrams, in order, each with the
  -- sender's address.
  pub split-coalesce :
      (src : List ℕ) (cs : List Cmsg) (dest : UdpAddr) (ep : Endpoint) (bufs : List Slice)
      (msgs : List Msg) (n : ℕ) (all : List Msg) (q : ℕ) (head reads : List Msg)
      → src ≡ control u cs
      → All (IsOther u u.udp_segment) cs
      → src_bytes ep ≡ src
      → All (IsBlank u src) msgs
      → length bufs ≤ length msgs
      → IsNonempty bufs
      → coalesce_messages dest ep bufs msgs (set_gso_size u) ≡ some (n, all)
      → Carried u from g (take n all) reads
      → 0 < q
      → length head + length reads ≡ 64 * q
      → length reads ≡ gro_read_batch_size (64 * q)
      → All (HasRoom g) head
      → All (HasRoom g) reads
      → Arrives from bufs (split_coalesced_messages (get_gso_size u) (head ++ reads) (length head))
  split-coalesce src cs dest ep bufs msgs n all q head reads is_src others has blank room pos packed
        carried some_window whole window rooms more =
      let p : Packs (kernel_gso u) dest (max_payload_len ep) [] (contents bufs)
          (coalesce_messages dest ep bufs msgs (set_gso_size u)) =
        coalesce_messages-Packs u laws dest src cs is_src others ep bufs msgs has blank room pos in
      let same_pair : ◌≡◌ {A = ℕ × List Msg} (0 + length p.sent, p.sent ++ p.left) (n, all) =
        some_inj (sym p.result ∙ packed) in
      let exact : take (0 + length p.sent) (p.sent ++ p.left) ≡ p.sent =
        take-append_add p.sent p.left 0 (0 + length p.sent) (omega arith) ∙ append-nil p.sent in
      let sent : take n all ≡ p.sent =
        ap (λ (x : ℕ × List Msg). take x.0 x.1) (sym same_pair) ∙ exact in
      let over : Carried u from g p.sent reads =
        subst (λ ms. Carried u from g ms reads) sent carried in
      Arrives-Splits head reads bufs _
        (received-Carried u from g p.sent reads over ∙ ap (map (from_sender u from g)) p.same)
        (gro_window-Splits (get_gso_size u) g q head reads some_window whole window
          (reads-IsRead u from g dest (max_payload_len ep) p.sent reads over p.fine) rooms more)
