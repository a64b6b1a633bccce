-- ===== src/Coalesce/Keep.antt =====
-- What the loop keeps of every message of the array, whether it has used it or not.
use batchudp.Prelude.{
  ℕ, ◌+◌, ◌-◌, ◌≡◌, refl, subst, ◌∙◌, some, List, [], ◌∷◌, length, set, get_elem?, All, All-set,
  All-get, length-set, ltb, ◌==◌, arith, inl, inr, Bool-cases, Option-cases,
}
use batchudp.Slice.{Slice, Msg}
use batchudp.Coalesce.{Packer, Coal, tag, fits, extend, finish, place, start, step, loop, coalesce}

module _ (p : Packer) (set_gso : Slice → ℕ → Slice) (max_payload total : ℕ) (P : Msg → Type 0)
    (begins : (m : Msg) (b : Slice) → P m → P (p.begin m b))
    (joins : (m : Msg) (b : Slice) → P m → P (p.join m b))
    (tags : (m : Msg) (k : ℕ) → P m → P (tag set_gso k m)) where
  -- An array of as many messages, all of them with the property.
  abbrev Kept : ℕ → List Msg → Type 0
  Kept n ms = All P ms × (length ms ≡ n)

  Kept-set : (n i : ℕ) (ms : List Msg) (m : Msg) → Kept n ms → P m → Kept n (set ms i m)
  Kept-set n i ms m k h = (All-set P ms i m k.0 h, length-set ms i m ∙ k.1)

  Kept-finish : (n : ℕ) (s : Coal) → Kept n s.msgs → Kept n (finish p set_gso max_payload total s)
  unfolding finish
  Kept-finish n s k = elim (Bool-cases (ltb 1 s.dgram_cnt)) [
    | inr one ↦ rw one k
    | inl many ↦ elim (Option-cases (get_elem? s.msgs (s.count - 1))) [
      | inl out ↦ rw (many, out) k
      | inr (m, here) ↦
          rw (many, here)
            (Kept-set n (s.count - 1) s.msgs (tag set_gso s.gso_size m) k
              (tags m s.gso_size (All-get P s.msgs (s.count - 1) m k.0 here)))
    ]
  ]

  Kept-some : (n : ℕ) (x t : Coal) → Kept n x.msgs → some x ≡ some t → Kept n t.msgs
  Kept-some n x t k e = let same : x ≡ t = cc in subst (λ (y : Coal). Kept n y.msgs) same k

  Kept-place :
      (n : ℕ) (ms : List Msg) (c : ℕ) (b : Slice) (t : Coal)
      → Kept n ms
      → place p set_gso max_payload total ms c b ≡ some t
      → Kept n t.msgs
  unfolding place
  Kept-place n ms c b t k e = elim (Option-cases (get_elem? ms c)) [
    | inl out ↦ absurd (ground arith)
    | inr (m, here) ↦ elim (Bool-cases (length m.buffers == 0)) [
      | inl bare ↦ absurd (ground arith)
      | inr held ↦
          Kept-some n _ t (Kept-set n c ms (p.begin m b) k (begins m b (All-get P ms c m k.0 here)))
            (rw (here, held, place) at e)
    ]
  ]

  Kept-start :
      (n : ℕ) (b : Slice) (s t : Coal)
      → Kept n s.msgs
      → start p set_gso max_payload total b s ≡ some t
      → Kept n t.msgs
  unfolding start
  Kept-start n b s t k e =
      Kept-place n (finish p set_gso max_payload total s) s.count b t (Kept-finish n s k) e

  Kept-extend :
      (n i : ℕ) (b : Slice) (s : Coal) (m : Msg)
      → Kept n s.msgs
      → P m
      → Kept n (extend p set_gso max_payload total i b s m).msgs
  unfolding extend
  Kept-extend n i b s m k h = elim (Bool-cases (i + 1 == total)) [
    | inl last ↦ rw last (
        Kept-set n (s.count - 1) s.msgs (tag set_gso s.gso_size (p.join m b)) k
          (tags (p.join m b) s.gso_size (joins m b h)))
    | inr more ↦ rw more (Kept-set n (s.count - 1) s.msgs (p.join m b) k (joins m b h))
  ]

  Kept-step :
      (n i : ℕ) (b : Slice) (s t : Coal)
      → Kept n s.msgs
      → step p set_gso max_payload total i b s ≡ some t
      → Kept n t.msgs
  unfolding step
  Kept-step n i b s t k e = elim (Bool-cases (ltb 0 i)) [
    | inr zeroth ↦ Kept-start n b s t k (rw (zeroth, step) at e)
    | inl later ↦ elim (Option-cases (get_elem? s.msgs (s.count - 1))) [
      | inl out ↦ absurd (ground arith)
      | inr (m, here) ↦
          let own : P m = All-get P s.msgs (s.count - 1) m k.0 here in
          elim (Bool-cases (fits p set_gso max_payload total s m b)) [
            | inl fit ↦
                Kept-some n (extend p set_gso max_payload total i b s m) t
                  (Kept-extend n i b s m k own) (rw (later, here, fit, step) at e)
            | inr not_fit ↦ Kept-start n b s t k (rw (later, here, not_fit, step) at e)
          ]
    ]
  ]

  Kept-loop :
      (n i : ℕ) (bufs : List Slice) (s : Coal) (c : ℕ) (ms : List Msg)
      → Kept n s.msgs
      → loop p set_gso max_payload total i bufs s ≡ some (c, ms)
      → Kept n ms
  unfolding loop
  Kept-loop n i [] s c ms k e = let same : s.msgs ≡ ms = cc in subst (Kept n) same k
  Kept-loop n i (b ∷ bs) s c ms k e = elim (Option-cases (step p set_gso max_payload total i b s)) [
    | inl out ↦ absurd (ground arith)
    | inr (t, is) ↦ Kept-loop n (i + 1) bs t c ms (Kept-step n i b s t k is) (rw (is, loop) at e)
  ]

-- What setting up, joining and tagging a message keep, `coalesce` keeps of all of them, and it
-- keeps their number.
pub coalesce-Kept :
    (p : Packer) (set_gso : Slice → ℕ → Slice) (max_payload : ℕ) (P : Msg → Type 0)
    (begins : (m : Msg) (b : Slice) → P m → P (p.begin m b))
    (joins : (m : Msg) (b : Slice) → P m → P (p.join m b))
    (tags : (m : Msg) (k : ℕ) → P m → P (tag set_gso k m)) (bufs : List Slice) (msgs : List Msg)
    (c : ℕ) (ms : List Msg)
    → All P msgs
    → coalesce p set_gso max_payload bufs msgs ≡ some (c, ms)
    → All P ms × (length ms ≡ length msgs)
unfolding coalesce
coalesce-Kept p set_gso max_payload P begins joins tags bufs msgs c ms all e =
    Kept-loop p set_gso max_payload (length bufs) P begins joins tags (length msgs) 0 bufs _ c ms
      (all, refl) e
