-- ===== src/Coalesce/Loop.antt =====
-- The coalescing loop, one iteration at a time.
use batchudp.Prelude.{
  ne→==, ℕ, ◌+◌, ◌-◌, ◌<◌, ◌≡◌, sym, ap, ◌∙◌, Bool, true, false, List, [], ◌∷◌, ◌++◌, length, some,
  ◌==◌, if◌then◌else◌, inl, inr, append_assoc, arith, Bool-cases, set-append_at,
  get_elem?-append_at, ltb, length-append, set, get_elem?, lt→ltb,
}
use batchudp.Slice.{Slice, len, Msg}
use batchudp.Coalesce.{Packer, Coal, tag, fits, extend, finish, start, place, step}

-- The state in which `m` is the message at `base`, after the messages `closed`.
abbrev pub at : List Msg → Msg → List Msg → ℕ → ℕ → Bool → Coal
at closed m rest k d e = record {
  count = length closed + 1;
  gso_size = k;
  dgram_cnt = d;
  end_batch = e;
  msgs = closed ++ (m ∷ rest);
}

base_index : (n : ℕ) → n + 1 - 1 ≡ n
base_index n = omega arith

module _ (p : Packer) (set_gso : Slice → ℕ → Slice) (max_payload total : ℕ) where
  -- the message as it is left when the next one begins
  abbrev pub close : ℕ → ℕ → Msg → Msg
  close k d m = if ltb 1 d then tag set_gso k m else m

  module _ (closed : List Msg) (m : Msg) (rest : List Msg) (k d : ℕ) (e : Bool) (b : Slice) where
    get_base : get_elem? (closed ++ (m ∷ rest)) (length closed + 1 - 1) ≡ some m
    get_base =
        ap (get_elem? (closed ++ (m ∷ rest))) (base_index (length closed))
        ∙ get_elem?-append_at closed m rest

    set_base :
        (v : Msg) → set (closed ++ (m ∷ rest)) (length closed + 1 - 1) v ≡ closed ++ (v ∷ rest)
    set_base v =
        ap (λ n. set (closed ++ (m ∷ rest)) n v) (base_index (length closed))
        ∙ set-append_at closed m rest v

    finish_lem :
        finish p set_gso max_payload total (at closed m rest k d e) ≡ closed ++ (close k d m ∷ rest)
    unfolding finish
    finish_lem = elim (Bool-cases (ltb 1 d)) [
      | inl many ↦ rw (many, get_base) (set_base (tag set_gso k m))
      | inr one ↦ rw one
    ]

    pub extend_lem :
        (i : ℕ)
        → extend p set_gso max_payload total i b (at closed m rest k d e) m
          ≡ at closed
              (if i + 1 == total then tag set_gso k (p.join m b) else p.join m b)
              rest
              k
              (d + 1)
              (if ltb (len b) k then true else e)
    unfolding extend
    extend_lem i =
        ap
          (λ ms. record (at closed m rest k (d + 1) (if ltb (len b) k then true else e)) {
            msgs = ms;
          })
          (set_base (if i + 1 == total then tag set_gso k (p.join m b) else p.join m b))

    pub step-join :
        (i : ℕ)
        → 0 < i
        → fits p set_gso max_payload total (at closed m rest k d e) m b ≡ true
        → step p set_gso max_payload total i b (at closed m rest k d e)
          ≡ some (
              at closed
                (if i + 1 == total then tag set_gso k (p.join m b) else p.join m b)
                rest
                k
                (d + 1)
                (if ltb (len b) k then true else e))
    unfolding step
    step-join i hi f = rw (lt→ltb 0 i hi, get_base, f) (ap some (extend_lem i))

  module _ (closed : List Msg) (m r : Msg) (rest : List Msg) (k d : ℕ) (e : Bool) (b : Slice)
      (has : 0 < length r.buffers) where
    place_lem :
        (done : List Msg)
        → place p set_gso max_payload total (done ++ (r ∷ rest)) (length done) b
          ≡ some (at done (p.begin r b) rest (len b) 1 false)
    unfolding place
    place_lem done =
        rw (get_elem?-append_at done r rest, ne→== (length r.buffers) 0 (omega arith), place)
          (ap (λ ms. some (record (at done (p.begin r b) rest (len b) 1 false) { msgs = ms }))
            (set-append_at done r rest (p.begin r b)))

    size : length (closed ++ (close k d m ∷ [])) ≡ length closed + 1
    size = length-append closed (close k d m ∷ []) ∙ omega arith

    pub start_lem :
        start p set_gso max_payload total b (at closed m (r ∷ rest) k d e)
        ≡ some (at (closed ++ (close k d m ∷ [])) (p.begin r b) rest (len b) 1 false)
    unfolding start
    start_lem =
        ap (λ ms. place p set_gso max_payload total ms (length closed + 1) b)
          (finish_lem closed m (r ∷ rest) k d e b
            ∙ sym (append_assoc closed (close k d m ∷ []) (r ∷ rest)))
        ∙ ap
            (λ n.
              place p set_gso max_payload total ((closed ++ (close k d m ∷ [])) ++ (r ∷ rest)) n b)
            (sym size)
        ∙ place_lem (closed ++ (close k d m ∷ []))

    pub step-start :
        (i : ℕ)
        → 0 < i
        → fits p set_gso max_payload total (at closed m (r ∷ rest) k d e) m b ≡ false
        → step p set_gso max_payload total i b (at closed m (r ∷ rest) k d e)
          ≡ some (at (closed ++ (close k d m ∷ [])) (p.begin r b) rest (len b) 1 false)
    unfolding step
    step-start i hi f = rw (lt→ltb 0 i hi, get_base closed m (r ∷ rest) k d e b, f) start_lem
