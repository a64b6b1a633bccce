-- ===== src/Coalesce/Roundtrip.antt =====
-- The whole of the coalescing loop: no index is out of range, and the kernel sends the caller's
-- datagrams.
use batchudp.Prelude.{
  ℕ, suc, ◌+◌, ◌^◌, ◌≤◌, ◌<◌, ◌≡◌, refl, sym, ap, ap₂, subst, ◌∙◌, Bool, true, false, List, [], ◌∷◌,
  ◌++◌, length, Option, some, ◌==◌, if◌then◌else◌, map, inl, inr, append_assoc, append-nil, arith,
  Bool-cases, ltb, length-append, ne→==, eq→==, lt→ltb, flat, All,
}
use batchudp.Slice.{Slice, len, Msg, UdpAddr}
use batchudp.Coalesce.{Packer, Coal, tag, fits, step, start, finish, place, loop, coalesce}
use batchudp.Coalesce.Laws.{Lawful, datagrams, IsSendable}
use batchudp.Coalesce.Loop.{at, close, step-join, step-start}
use batchudp.Coalesce.Progress.{
  Holds, begin-Holds, fits-Fits, join-Holds, closed-datagrams, closed-IsSendable,
}

-- A run of the loop has sent messages that make up `want`, behind the messages `closed`.
pub record Packs (gso_of : Slice → ℕ) (dest : UdpAddr) (max_payload : ℕ) (closed : List Msg)
    (want : List (List ℕ)) (r : Option (ℕ × List Msg)) : Type 0 where
  pub sent : List Msg
  pub left : List Msg
  pub result : r ≡ some (length closed + length sent, closed ++ (sent ++ left))
  pub same : flat (map (datagrams gso_of) sent) ≡ want
  pub fine : All (IsSendable gso_of dest max_payload) sent

abbrev pub contents : List Slice → List (List ℕ)
contents = map (λ (s : Slice). s.bytes)

-- UDP datagrams that carry at least one byte.
abbrev pub IsNonempty : List Slice → Type 0
IsNonempty = All (λ (s : Slice). 0 < len s)

module _ (p : Packer) (set_gso : Slice → ℕ → Slice) (gso_of : Slice → ℕ) (dest : UdpAddr)
    (laws : Lawful p set_gso gso_of dest) (max_payload total : ℕ)
    (limit : max_payload < 2 ^ 16) where
  open laws use {IsBlank}

  abbrev Holding : Msg → List (List ℕ) → ℕ → ℕ → Bool → Type 0
  Holding = Holds p set_gso gso_of dest laws max_payload total limit

  abbrev Packing : List Msg → List (List ℕ) → Option (ℕ × List Msg) → Type 0
  Packing = Packs gso_of dest max_payload

  abbrev run : ℕ → List Slice → Coal → Option (ℕ × List Msg)
  run = loop p set_gso max_payload total

  -- one message more in front
  push :
      (closed : List Msg) (x : Msg) (seen want : List (List ℕ)) (r : Option (ℕ × List Msg))
      → datagrams gso_of x ≡ seen
      → IsSendable gso_of dest max_payload x
      → Packing (closed ++ (x ∷ [])) want r
      → Packing closed (seen ++ want) r
  push closed x seen want r same fine k = record {
    sent = x ∷ k.sent;
    left = k.left;
    result =
        k.result
        ∙ ap₂ (λ n ms. some (n, ms)) (omega (arith, length-append closed (x ∷ [])))
            (append_assoc closed (x ∷ []) (k.sent ++ k.left));
    same = ap₂ ◌++◌ same k.same;
    fine = (fine, k.fine);
  }

  done :
      (closed : List Msg) (m : Msg) (rest : List Msg) (seen : List (List ℕ))
      (r : Option (ℕ × List Msg))
      → datagrams gso_of m ≡ seen
      → IsSendable gso_of dest max_payload m
      → r ≡ some (length closed + 1, closed ++ (m ∷ rest))
      → Packing closed seen r
  done closed m rest seen r same fine e = record {
    sent = m ∷ [];
    left = rest;
    result = e;
    same = append-nil (datagrams gso_of m) ∙ same;
    fine = (fine, tt);
  }

  run-cons :
      (i : ℕ) (b : Slice) (bs : List Slice) (s s' : Coal)
      → step p set_gso max_payload total i b s ≡ some s'
      → run i (b ∷ bs) s ≡ run (i + 1) bs s'
  unfolding loop
  run-cons i b bs s s' e = rw (e, loop)

  begun : List Msg → Coal
  begun msgs = record { count = 0; gso_size = 0; dgram_cnt = 0; end_batch = false; msgs = msgs }

  step-first :
      (b : Slice) (m : Msg) (ms : List Msg)
      → 0 < length m.buffers
      → step p set_gso max_payload total 0 b (begun (m ∷ ms))
        ≡ some (at [] (p.begin m b) ms (len b) 1 false)
  unfolding step start finish place begun
  step-first b m ms has =
      rw (ne→== (length m.buffers) 0 (omega (arith, has)), step, start, finish, place) refl

  -- the first iteration
  first-Packing :
      (b : Slice) (bs : List Slice) (m : Msg) (ms : List Msg) (want : List (List ℕ))
      → 0 < length m.buffers
      → Packing [] want (run 1 bs (at [] (p.begin m b) ms (len b) 1 false))
      → Packing [] want (run 0 (b ∷ bs) (begun (m ∷ ms)))
  first-Packing b bs m ms want has k =
      subst (Packing [] want) (sym (run-cons 0 b bs _ _ (step-first b m ms has))) k

  run-nil :
      (i : ℕ) (closed : List Msg) (m : Msg) (rest : List Msg) (k d : ℕ) (e : Bool)
      → run i [] (at closed m rest k d e) ≡ some (length closed + 1, closed ++ (m ∷ rest))
  unfolding loop
  run-nil i closed m rest k d e = refl

  Packing-along :
      (closed : List Msg) (want : List (List ℕ)) {r s : Option (ℕ × List Msg)}
      → r ≡ s
      → Packing closed want s
      → Packing closed want r
  Packing-along closed want q k = subst (Packing closed want) (sym q) k

  module _ (i : ℕ) (closed : List Msg) (m : Msg) (rest : List Msg) (seen : List (List ℕ)) (k d : ℕ)
      (e : Bool) (b : Slice) (hi : 0 < i) (h : Holding m seen k d e) (pos : 0 < len b) where
    joined-Holds :
        fits p set_gso max_payload total (at closed m rest k d e) m b ≡ true
        → Holding
            (p.join m b)
            (seen ++ (b.bytes ∷ []))
            k
            (d + 1)
            (if ltb (len b) k then true else e)
    joined-Holds f =
        join-Holds p set_gso gso_of dest laws max_payload total limit m seen k d e b h
          (fits-Fits p set_gso gso_of dest laws max_payload total limit closed m rest k d e b f) pos

    joined_end : Bool
    joined_end = if ltb (len b) k then true else e

    -- a join that is not the last
    join_on :
        (bs : List Slice)
        → fits p set_gso max_payload total (at closed m rest k d e) m b ≡ true
        → (i + 1 == total) ≡ false
        → Packing closed
            ((seen ++ (b.bytes ∷ [])) ++ contents bs)
            (run (i + 1) bs (at closed (p.join m b) rest k (d + 1) joined_end))
        → Packing closed (seen ++ (b.bytes ∷ contents bs)) (run i (b ∷ bs) (at closed m rest k d e))
    unfolding joined_end
    join_on bs f more kk =
        Packing-along closed (seen ++ (b.bytes ∷ contents bs))
          (run-cons i b bs before after stepped)
          (subst (λ w. Packing closed w (run (i + 1) bs after))
            (append_assoc seen (b.bytes ∷ []) (contents bs)) kk)
      where
        before : Coal
        before = at closed m rest k d e

        after : Coal
        after = at closed (p.join m b) rest k (d + 1) (if ltb (len b) k then true else e)

        stepped : step p set_gso max_payload total i b before ≡ some after
        stepped =
            step-join p set_gso max_payload total closed m rest k d e b i hi f ∙ ap some (rw more)

    -- the join of the last buffer, which writes the segment size
    join_last :
        fits p set_gso max_payload total (at closed m rest k d e) m b ≡ true
        → (i + 1 == total) ≡ true
        → Packing closed (seen ++ (b.bytes ∷ [])) (run i (b ∷ []) (at closed m rest k d e))
    join_last f last =
        done closed (close p set_gso max_payload total k (d + 1) (p.join m b)) rest _ _
          (closed-datagrams p set_gso gso_of dest laws max_payload total limit _ _ k (d + 1) _
            (joined-Holds f))
          (closed-IsSendable p set_gso gso_of dest laws max_payload total limit _ _ k (d + 1) _
            (joined-Holds f))
          (run-cons i b [] before after stepped
            ∙ run-nil (i + 1) closed (tag set_gso k (p.join m b)) rest k (d + 1)
                (if ltb (len b) k then true else e)
            ∙ ap (λ x. some (length closed + 1, closed ++ (x ∷ rest))) (sym tagged))
      where
        before : Coal
        before = at closed m rest k d e

        after : Coal
        after =
            at closed (tag set_gso k (p.join m b)) rest k (d + 1)
              (if ltb (len b) k then true else e)

        stepped : step p set_gso max_payload total i b before ≡ some after
        stepped =
            step-join p set_gso max_payload total closed m rest k d e b i hi f ∙ ap some (rw last)

        tagged :
            close p set_gso max_payload total k (d + 1) (p.join m b) ≡ tag set_gso k (p.join m b)
        tagged = rw (lt→ltb 1 (d + 1) (omega (arith, h.some_seen)))

  -- a buffer that begins the next message
  start_next :
      (i : ℕ) (closed : List Msg) (m r : Msg) (rest : List Msg) (seen : List (List ℕ)) (k d : ℕ)
      (e : Bool) (b : Slice) (bs : List Slice)
      → 0 < i
      → 0 < length r.buffers
      → Holding m seen k d e
      → fits p set_gso max_payload total (at closed m (r ∷ rest) k d e) m b ≡ false
      → Packing (closed ++ (close p set_gso max_payload total k d m ∷ [])) (b.bytes ∷ contents bs) (
          run (i + 1) bs (
            at
              (closed ++ (close p set_gso max_payload total k d m ∷ []))
              (p.begin r b)
              rest
              (len b)
              1
              false))
      → Packing closed
          (seen ++ (b.bytes ∷ contents bs))
          (run i (b ∷ bs) (at closed m (r ∷ rest) k d e))
  start_next i closed m r rest seen k d e b bs hi has h f kk =
      push closed (close p set_gso max_payload total k d m) seen (b.bytes ∷ contents bs) _
        (closed-datagrams p set_gso gso_of dest laws max_payload total limit m seen k d e h)
        (closed-IsSendable p set_gso gso_of dest laws max_payload total limit m seen k d e h)
        (Packing-along _ _
          (run-cons i b bs _ _
            (step-start p set_gso max_payload total closed m r rest k d e b has i hi f))
          kk)

  -- a message that holds one datagram when the buffers end
  end_single :
      (i : ℕ) (closed : List Msg) (m : Msg) (rest : List Msg) (t : List ℕ) (k : ℕ)
      → Holding m (t ∷ []) k 1 false
      → Packing closed (t ∷ []) (run i [] (at closed m rest k 1 false))
  end_single i closed m rest t k h =
      done closed m rest _ _
        (closed-datagrams p set_gso gso_of dest laws max_payload total limit m _ k 1 false h)
        (closed-IsSendable p set_gso gso_of dest laws max_payload total limit m _ k 1 false h)
        (run-nil i closed m rest k 1 false)

  loop-Packs :
      (i : ℕ) (closed : List Msg) (m : Msg) (rest : List Msg) (seen : List (List ℕ)) (k d : ℕ)
      (e : Bool) (b : Slice) (bs : List Slice)
      → 0 < i
      → i + suc (length bs) ≡ total
      → Holding m seen k d e
      → All IsBlank rest
      → suc (length bs) ≤ length rest
      → IsNonempty (b ∷ bs)
      → Packing closed (seen ++ (b.bytes ∷ contents bs)) (run i (b ∷ bs) (at closed m rest k d e))
  unfolding joined_end
  loop-Packs i closed m [] seen k d e b bs hi tot h blank room pos = absurd (omega arith)
  loop-Packs i closed m (r ∷ rest) seen k d e b [] hi tot h blank room pos =
      elim (Bool-cases (fits p set_gso max_payload total (at closed m (r ∷ rest) k d e) m b)) [
        | inl f ↦
            join_last i closed m (r ∷ rest) seen k d e b hi h pos.0 f (eq→== _ _ (omega arith))
        | inr f ↦ start_next i closed m r rest seen k d e b [] hi (laws.has_buffer r blank.0) h f (
            end_single _ _ _ _ _ _
              (begin-Holds p set_gso gso_of dest laws max_payload total limit r b blank.0 pos.0))
      ]
  loop-Packs i closed m (r ∷ rest) seen k d e b (c ∷ cs) hi tot h blank room pos =
      elim (Bool-cases (fits p set_gso max_payload total (at closed m (r ∷ rest) k d e) m b)) [
        | inl f ↦
            join_on i closed m (r ∷ rest) seen k d e b hi h pos.0 (c ∷ cs) f
              (ne→== _ _ (omega arith))
              (loop-Packs (i + 1) closed (p.join m b) (r ∷ rest) (seen ++ (b.bytes ∷ [])) k (d + 1)
                (if ltb (len b) k then true else e) c cs (omega arith) (omega arith)
                (joined-Holds i closed m (r ∷ rest) seen k d e b hi h pos.0 f) blank (omega arith)
                pos.1)
        | inr f ↦
            start_next i closed m r rest seen k d e b (c ∷ cs) hi (laws.has_buffer r blank.0) h f (
              loop-Packs (i + 1) (closed ++ (close p set_gso max_payload total k d m ∷ []))
                (p.begin r b) rest (b.bytes ∷ []) (len b) 1 false c cs (omega arith) (omega arith)
                (begin-Holds p set_gso gso_of dest laws max_payload total limit r b blank.0 pos.0)
                blank.1 (omega arith) pos.1)
      ]

-- For datagrams with at least one byte and enough messages, `coalesce` stays in range, and what
-- the kernel sends of its messages are the caller's datagrams, unchanged and in order.
pub coalesce-Packs :
    (p : Packer) (set_gso : Slice → ℕ → Slice) (gso_of : Slice → ℕ) (dest : UdpAddr)
    (laws : Lawful p set_gso gso_of dest) (max_payload : ℕ) (bufs : List Slice) (msgs : List Msg)
    → max_payload < 2 ^ 16
    → All laws.IsBlank msgs
    → length bufs ≤ length msgs
    → IsNonempty bufs
    → Packs gso_of dest max_payload [] (contents bufs) (coalesce p set_gso max_payload bufs msgs)
unfolding coalesce loop begun
coalesce-Packs p set_gso gso_of dest laws max_payload [] msgs limit blank room pos = record {
  sent = [];
  left = msgs;
  result = refl;
  same = refl;
  fine = tt;
}
coalesce-Packs p set_gso gso_of dest laws max_payload (b ∷ bs) [] limit blank room pos =
    absurd (omega arith)
coalesce-Packs p set_gso gso_of dest laws max_payload (b ∷ []) (m ∷ ms) limit blank room pos =
    first-Packing p set_gso gso_of dest laws max_payload 1 limit b [] m ms _
      (laws.has_buffer m blank.0)
      (end_single p set_gso gso_of dest laws max_payload 1 limit 1 [] (p.begin m b) ms b.bytes
        (len b) (begin-Holds p set_gso gso_of dest laws max_payload 1 limit m b blank.0 pos.0))
coalesce-Packs p set_gso gso_of dest laws max_payload (b ∷ c ∷ cs) (m ∷ ms) limit blank room pos =
    first-Packing p set_gso gso_of dest laws max_payload (length (b ∷ c ∷ cs)) limit b (c ∷ cs) m ms
      _ (laws.has_buffer m blank.0)
      (loop-Packs p set_gso gso_of dest laws max_payload (length (b ∷ c ∷ cs)) limit 1 []
        (p.begin m b) ms (b.bytes ∷ []) (len b) 1 false c cs (omega arith) (omega arith)
        (begin-Holds p set_gso gso_of dest laws max_payload (length (b ∷ c ∷ cs)) limit m b blank.0
          pos.0)
        blank.1 (omega arith) pos.1)
