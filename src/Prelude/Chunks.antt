-- ===== src/Prelude/Chunks.antt =====
-- Cutting a list into pieces of `k` elements, the last piece possibly shorter.
use Prim.Native.Nat.{ℕ, zero, suc, ◌+◌, ◌-◌, ◌/◌, ◌≤◌, ◌<◌}
use mathlib.Core.Path.{◌≡◌, refl, sym, ap, ap₂, ◌∙◌}
use mathlib.Core.List.{List, [], ◌∷◌, ◌++◌, append-nil, append_assoc}
use native.Mathlib.Omega.{arith}
use native.Mathlib.Decide.{dec_le}
use native.Mathlib.Nat.{add-div_right, div-eq_of_lt}
use batchudp.Prelude.Lists.{
  length, take, drop, flat, length-drop, take-all, drop-all, take-length_append, drop-length_append,
}

module _ {ℓ} {A : Type ℓ} where
  unfoldable pub chunk_go : ℕ → ℕ → List A → List (List A)
  chunk_go zero k xs = []
  chunk_go (suc f) k [] = []
  chunk_go (suc f) k (x ∷ xs) = take k (x ∷ xs) ∷ chunk_go f k (drop k (x ∷ xs))

  -- The fuel is the length, and every piece takes at least one element.
  unfoldable pub chunks : ℕ → List A → List (List A)
  unfolding chunk_go
  chunks k xs = chunk_go (length xs) k xs

  chunk_go-fuel :
      (f g k : ℕ) (xs : List A)
      → 0 < k
      → length xs ≤ f
      → length xs ≤ g
      → chunk_go f k xs ≡ chunk_go g k xs
  unfolding chunk_go
  chunk_go-fuel zero zero k xs p hf hg = refl
  chunk_go-fuel zero (suc g) k [] p hf hg = refl
  chunk_go-fuel zero (suc g) k (x ∷ xs) p hf hg = absurd (omega arith)
  chunk_go-fuel (suc f) zero k [] p hf hg = refl
  chunk_go-fuel (suc f) zero k (x ∷ xs) p hf hg = absurd (omega arith)
  chunk_go-fuel (suc f) (suc g) k [] p hf hg = refl
  chunk_go-fuel (suc f) (suc g) k (x ∷ xs) p hf hg = ap (◌∷◌ (take k (x ∷ xs))) (
      chunk_go-fuel f g k (drop k (x ∷ xs)) p (omega (arith, length-drop k (x ∷ xs)))
        (omega (arith, length-drop k (x ∷ xs))))

  pub chunks-nil : (k : ℕ) → chunks k [] ≡ []
  unfolding chunks
  chunks-nil k = refl

  -- One step of cutting.
  pub chunks-cons :
      (k : ℕ) (x : A) (xs : List A)
      → 0 < k
      → chunks k (x ∷ xs) ≡ take k (x ∷ xs) ∷ chunks k (drop k (x ∷ xs))
  unfolding chunks
  chunks-cons k x xs p = ap (◌∷◌ (take k (x ∷ xs))) (
      chunk_go-fuel (length xs) (length (drop k (x ∷ xs))) k (drop k (x ∷ xs)) p
        (omega (arith, length-drop k (x ∷ xs))) (omega arith))

  pub chunks_nonempty :
      (k : ℕ) (xs : List A) → 0 < k → 0 < length xs → chunks k xs ≡ take k xs ∷ chunks k (drop k xs)
  chunks_nonempty k [] p h = absurd (omega arith)
  chunks_nonempty k (x ∷ xs) p h = chunks-cons k x xs p

  -- Where a piece is cut off, something was there.
  pub pos_of_chunks : (k : ℕ) (xs : List A) → 0 < length (chunks k xs) → 0 < length xs
  pos_of_chunks k [] h = absurd (omega (arith, ap length (chunks-nil k)))
  pos_of_chunks k (x ∷ xs) h = omega arith

  -- A whole piece in front is cut off as it is.
  pub chunks-append :
      (s rest : List A) → 0 < length s → chunks (length s) (s ++ rest) ≡ s ∷ chunks (length s) rest
  chunks-append [] rest p = absurd (omega arith)
  chunks-append (x ∷ s) rest p =
      chunks-cons (length (x ∷ s)) x (s ++ rest) p
      ∙ ap₂ (λ a b. a ∷ chunks (length (x ∷ s)) b) (take-length_append (x ∷ s) rest)
          (drop-length_append (x ∷ s) rest)

  -- What is no longer than a piece is one piece.
  pub chunks-one : (k : ℕ) (s : List A) → 0 < length s → length s ≤ k → chunks k s ≡ s ∷ []
  chunks-one k [] p h = absurd (omega arith)
  chunks-one k (x ∷ s) p h =
      chunks-cons k x s (omega arith)
      ∙ ap₂ (λ a b. a ∷ chunks k b) (take-all k (x ∷ s) h) (drop-all k (x ∷ s) h)
      ∙ ap (λ c. (x ∷ s) ∷ c) (chunks-nil k)

  chunk_go-length :
      (f k : ℕ) (xs : List A)
      → 0 < k
      → length xs ≤ f
      → length (chunk_go f k xs) ≡ (length xs + k - 1) / k
  unfolding chunk_go
  chunk_go-length zero k [] p h = grind arith
  chunk_go-length zero k (x ∷ xs) p h = absurd (omega arith)
  chunk_go-length (suc f) k [] p h = grind arith
  chunk_go-length (suc f) k (x ∷ xs) p h =
      ap suc (chunk_go-length f k (drop k (x ∷ xs)) p (omega (arith, length-drop k (x ∷ xs))))
      ∙ ap suc rest
      ∙ sym whole
    where
      l : ℕ
      l = length xs

      whole : (suc l + k - 1) / k ≡ suc (l / k)
      whole =
          let e : suc l + k - 1 ≡ l + k = omega arith in
          let f : l / k + 1 ≡ suc (l / k) = omega arith in ap (λ t. t / k) e ∙ add-div_right l p ∙ f

      rest : (length (drop k (x ∷ xs)) + k - 1) / k ≡ l / k
      rest = elim (dec_le k (suc l)) [
        | yes more ↦
            let e : length (drop k (x ∷ xs)) + k - 1 ≡ l = omega (arith, length-drop k (x ∷ xs)) in
            ap (λ t. t / k) e
        | no last ↦
            div-eq_of_lt {n = length (drop k (x ∷ xs)) + k - 1}
              (omega (arith, length-drop k (x ∷ xs)))
            ∙ sym (div-eq_of_lt {n = l} {m = k} (omega arith))
      ]

  -- The number of pieces is the length divided by the size, rounded up.
  pub length-chunks : (k : ℕ) (xs : List A) → 0 < k → length (chunks k xs) ≡ (length xs + k - 1) / k
  unfolding chunks
  length-chunks k xs p = chunk_go-length (length xs) k xs p (omega arith)

  -- Appending one segment at the end of a list of segments.
  pub flat-snoc : (ss : List (List A)) (t : List A) → flat (ss ++ (t ∷ [])) ≡ flat ss ++ t
  flat-snoc [] t = append-nil t
  flat-snoc (s ∷ ss) t = ap (◌++◌ s) (flat-snoc ss t) ∙ sym (append_assoc s (flat ss) t)

  pub flat-append : (xs ys : List (List A)) → flat (xs ++ ys) ≡ flat xs ++ flat ys
  flat-append [] ys = refl
  flat-append (x ∷ xs) ys =
      ap (◌++◌ x) (flat-append xs ys) ∙ sym (append_assoc x (flat xs) (flat ys))
