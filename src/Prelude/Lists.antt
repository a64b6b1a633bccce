-- ===== src/Prelude/Lists.antt =====
-- Lists measured and indexed by native numbers, under the library's names.
use Prim.Native.Nat.{ℕ, zero, suc, ◌+◌, ◌-◌, ◌≤◌, ◌<◌, min}
use mathlib.Core.Path.{◌≡◌, refl, sym, ap, subst, ◌∙◌}
use mathlib.Core.Logic.{◌≢◌}
use mathlib.Core.List.{List, [], ◌∷◌, ◌++◌}
use mathlib.Core.Option.{Option, none, some}
use native.Mathlib.Omega.{arith}

module _ {ℓ} {A : Type ℓ} where
  abbrev pub length : List A → ℕ
  length [] = 0
  length (x ∷ xs) = suc (length xs)

  abbrev pub get_elem? : List A → ℕ → Option A
  get_elem? [] i = none
  get_elem? (x ∷ xs) zero = some x
  get_elem? (x ∷ xs) (suc i) = get_elem? xs i

  -- A write out of bounds changes nothing.
  abbrev pub set : List A → ℕ → A → List A
  set [] i v = []
  set (x ∷ xs) zero v = v ∷ xs
  set (x ∷ xs) (suc i) v = x ∷ set xs i v

  abbrev pub take : ℕ → List A → List A
  take zero xs = []
  take (suc n) [] = []
  take (suc n) (x ∷ xs) = x ∷ take n xs

  abbrev pub drop : ℕ → List A → List A
  drop zero xs = xs
  drop (suc n) [] = []
  drop (suc n) (x ∷ xs) = drop n xs

  abbrev pub replicate : ℕ → A → List A
  replicate zero a = []
  replicate (suc n) a = a ∷ replicate n a

module _ {ℓ} {A : Type ℓ} where
  pub length-append : (xs ys : List A) → length (xs ++ ys) ≡ length xs + length ys
  length-append [] ys = omega arith
  length-append (x ∷ xs) ys = omega (arith, length-append xs ys)

  pub length-set : (xs : List A) (i : ℕ) (v : A) → length (set xs i v) ≡ length xs
  length-set [] i v = refl
  length-set (x ∷ xs) zero v = refl
  length-set (x ∷ xs) (suc i) v = ap suc (length-set xs i v)

  pub length-take : (n : ℕ) (xs : List A) → length (take n xs) ≡ min n (length xs)
  length-take zero xs = omega arith
  length-take (suc n) [] = omega arith
  length-take (suc n) (x ∷ xs) = omega (arith, length-take n xs)

  pub length-drop : (n : ℕ) (xs : List A) → length (drop n xs) ≡ length xs - n
  length-drop zero xs = omega arith
  length-drop (suc n) [] = omega arith
  length-drop (suc n) (x ∷ xs) = omega (arith, length-drop n xs)

  pub take_add : (n m : ℕ) (xs : List A) → take n xs ++ take m (drop n xs) ≡ take (n + m) xs
  take_add zero m xs = let e : m ≡ 0 + m = omega arith in ap (λ k. take k xs) e
  take_add (suc n) zero [] = let e : suc n ≡ suc n + 0 = omega arith in ap (λ k. take k []) e
  take_add (suc n) (suc m) [] =
      let e : suc (n + suc m) ≡ suc n + suc m = omega arith in ap (λ k. take k []) e
  take_add (suc n) m (x ∷ xs) =
      let e : suc (n + m) ≡ suc n + m = omega arith in
      ap (◌∷◌ x) (take_add n m xs) ∙ ap (λ k. take k (x ∷ xs)) e

  pub take-append-drop : (n : ℕ) (xs : List A) → take n xs ++ drop n xs ≡ xs
  take-append-drop zero xs = refl
  take-append-drop (suc n) [] = refl
  take-append-drop (suc n) (x ∷ xs) = ap (◌∷◌ x) (take-append-drop n xs)

  pub take-length_append : (xs ys : List A) → take (length xs) (xs ++ ys) ≡ xs
  take-length_append [] ys = refl
  take-length_append (x ∷ xs) ys = ap (◌∷◌ x) (take-length_append xs ys)

  pub drop-length_append : (xs ys : List A) → drop (length xs) (xs ++ ys) ≡ ys
  drop-length_append [] ys = refl
  drop-length_append (x ∷ xs) ys = drop-length_append xs ys

  pub take-all : (n : ℕ) (xs : List A) → length xs ≤ n → take n xs ≡ xs
  take-all zero [] h = refl
  take-all zero (x ∷ xs) h = absurd (omega arith)
  take-all (suc n) [] h = refl
  take-all (suc n) (x ∷ xs) h = ap (◌∷◌ x) (take-all n xs (omega arith))

  pub drop-all : (n : ℕ) (xs : List A) → length xs ≤ n → drop n xs ≡ []
  drop-all zero [] h = refl
  drop-all zero (x ∷ xs) h = absurd (omega arith)
  drop-all (suc n) [] h = refl
  drop-all (suc n) (x ∷ xs) h = drop-all n xs (omega arith)

  pub take-append_add :
      (xs ys : List A) (n m : ℕ) → m ≡ length xs + n → take m (xs ++ ys) ≡ xs ++ take n ys
  take-append_add [] ys n m e = let e' : m ≡ n = omega arith in ap (λ k. take k ys) e'
  take-append_add (x ∷ xs) ys n zero e = absurd (omega arith)
  take-append_add (x ∷ xs) ys n (suc m) e = ap (◌∷◌ x) (take-append_add xs ys n m (omega arith))

  pub drop-append_add :
      (xs ys : List A) (n m : ℕ) → m ≡ length xs + n → drop m (xs ++ ys) ≡ drop n ys
  drop-append_add [] ys n m e = let e' : m ≡ n = omega arith in ap (λ k. drop k ys) e'
  drop-append_add (x ∷ xs) ys n zero e = absurd (omega arith)
  drop-append_add (x ∷ xs) ys n (suc m) e = drop-append_add xs ys n m (omega arith)

  pub drop-drop : (a b : ℕ) (xs : List A) → drop b (drop a xs) ≡ drop (a + b) xs
  drop-drop zero b xs = let e : b ≡ 0 + b = omega arith in ap (λ k. drop k xs) e
  drop-drop (suc a) b [] = drop-all b [] (omega arith) ∙ sym (drop-all (suc a + b) [] (omega arith))
  drop-drop (suc a) b (x ∷ xs) =
      let e : suc (a + b) ≡ suc a + b = omega arith in
      drop-drop a b xs ∙ ap (λ k. drop k (x ∷ xs)) e

  pub length-replicate : (n : ℕ) (a : A) → length (replicate n a) ≡ n
  length-replicate zero a = refl
  length-replicate (suc n) a = ap suc (length-replicate n a)

  pub get_elem?-append_at :
      (xs : List A) (y : A) (ys : List A) → get_elem? (xs ++ (y ∷ ys)) (length xs) ≡ some y
  get_elem?-append_at [] y ys = refl
  get_elem?-append_at (x ∷ xs) y ys = get_elem?-append_at xs y ys

  pub set-append_at :
      (xs : List A) (y : A) (ys : List A) (v : A)
      → set (xs ++ (y ∷ ys)) (length xs) v ≡ xs ++ (v ∷ ys)
  set-append_at [] y ys v = refl
  set-append_at (x ∷ xs) y ys v = ap (◌∷◌ x) (set-append_at xs y ys v)

  pub get_elem?-set_self :
      (xs : List A) (i : ℕ) (v : A) → i < length xs → get_elem? (set xs i v) i ≡ some v
  get_elem?-set_self [] i v h = elim h [ ]
  get_elem?-set_self (x ∷ xs) zero v h = refl
  get_elem?-set_self (x ∷ xs) (suc i) v h = get_elem?-set_self xs i v (omega arith)

  pub get_elem?-set_ne :
      (xs : List A) {i j : ℕ} (v : A) → i ≢ j → get_elem? (set xs i v) j ≡ get_elem? xs j
  get_elem?-set_ne [] v h = refl
  get_elem?-set_ne (x ∷ xs) {i = zero} {j = zero} v h = absurd (h refl)
  get_elem?-set_ne (x ∷ xs) {i = zero} {j = suc j} v h = refl
  get_elem?-set_ne (x ∷ xs) {i = suc i} {j = zero} v h = refl
  get_elem?-set_ne (x ∷ xs) {i = suc i} {j = suc j} v h = get_elem?-set_ne xs v (λ e. h (ap suc e))

module _ {ℓ} {A : Type ℓ} where
  pub get_elem?-lt : (xs : List A) (n : ℕ) → n < length xs → (x : A) × (get_elem? xs n ≡ some x)
  get_elem?-lt [] n h = elim h [ ]
  get_elem?-lt (x ∷ xs) zero h = (x, refl)
  get_elem?-lt (x ∷ xs) (suc n) h = get_elem?-lt xs n (omega arith)

  pub get_elem?-append_lt :
      (xs ys : List A) (n : ℕ) → n < length xs → get_elem? (xs ++ ys) n ≡ get_elem? xs n
  get_elem?-append_lt [] ys n h = elim h [ ]
  get_elem?-append_lt (x ∷ xs) ys zero h = refl
  get_elem?-append_lt (x ∷ xs) ys (suc n) h = get_elem?-append_lt xs ys n (omega arith)

  pub set-append_lt :
      (xs ys : List A) (n : ℕ) (v : A) → n < length xs → set (xs ++ ys) n v ≡ set xs n v ++ ys
  set-append_lt [] ys n v h = elim h [ ]
  set-append_lt (x ∷ xs) ys zero v h = refl
  set-append_lt (x ∷ xs) ys (suc n) v h = ap (◌∷◌ x) (set-append_lt xs ys n v (omega arith))

  pub take-set_self :
      (xs : List A) (n : ℕ) (v : A)
      → n < length xs
      → take (suc n) (set xs n v) ≡ take n xs ++ (v ∷ [])
  take-set_self [] n v h = elim h [ ]
  take-set_self (x ∷ xs) zero v h = refl
  take-set_self (x ∷ xs) (suc n) v h = ap (◌∷◌ x) (take-set_self xs n v (omega arith))

  pub take-set_ge : (xs : List A) (n i : ℕ) (v : A) → n ≤ i → take n (set xs i v) ≡ take n xs
  take-set_ge xs zero i v h = refl
  take-set_ge [] (suc n) i v h = refl
  take-set_ge (x ∷ xs) (suc n) zero v h = absurd (omega arith)
  take-set_ge (x ∷ xs) (suc n) (suc i) v h = ap (◌∷◌ x) (take-set_ge xs n i v (omega arith))

  pub take-append_le : (xs ys : List A) (n : ℕ) → n ≤ length xs → take n (xs ++ ys) ≡ take n xs
  take-append_le xs ys zero h = refl
  take-append_le [] ys (suc n) h = elim h [ ]
  take-append_le (x ∷ xs) ys (suc n) h = ap (◌∷◌ x) (take-append_le xs ys n (omega arith))

  pub take-take_le : (xs : List A) (n m : ℕ) → n ≤ m → take n (take m xs) ≡ take n xs
  take-take_le xs zero m h = refl
  take-take_le xs (suc n) zero h = elim h [ ]
  take-take_le [] (suc n) (suc m) h = refl
  take-take_le (x ∷ xs) (suc n) (suc m) h = ap (◌∷◌ x) (take-take_le xs n m (omega arith))

  -- A range read inside a prefix.
  pub take-drop_prefix :
      (xs : List A) (s n m : ℕ) → s + n ≤ m → take n (drop s (take m xs)) ≡ take n (drop s xs)
  take-drop_prefix xs zero n m h = take-take_le xs n m (omega arith)
  take-drop_prefix [] (suc s) n zero h = refl
  take-drop_prefix [] (suc s) n (suc m) h = refl
  take-drop_prefix (x ∷ xs) (suc s) n zero h = absurd (omega arith)
  take-drop_prefix (x ∷ xs) (suc s) n (suc m) h = take-drop_prefix xs s n m (omega arith)

-- A predicate on every element, by recursion, so that it computes to tuples.
abbrev pub All {ℓ κ} : {A : Type ℓ} → (A → Type κ) → List A → Type κ
All P [] = Unit
All P (x ∷ xs) = P x × All P xs

pub All-append {ℓ κ} :
    {A : Type ℓ} (P : A → Type κ) (xs ys : List A) → All P xs → All P ys → All P (xs ++ ys)
All-append P [] ys hx hy = hy
All-append P (x ∷ xs) ys hx hy = (hx.0, All-append P xs ys hx.1 hy)

abbrev pub flat {ℓ} : {A : Type ℓ} → List (List A) → List A
flat [] = []
flat (x ∷ xs) = x ++ flat xs

module _ {ℓ κ} {A : Type ℓ} (P : A → Type κ) where
  pub All-set : (xs : List A) (n : ℕ) (v : A) → All P xs → P v → All P (set xs n v)
  All-set [] n v h p = h
  All-set (x ∷ xs) zero v h p = (p, h.1)
  All-set (x ∷ xs) (suc n) v h p = (h.0, All-set xs n v h.1 p)

  pub All-get : (xs : List A) (n : ℕ) (x : A) → All P xs → get_elem? xs n ≡ some x → P x
  All-get [] n x h e = cc
  All-get (y ∷ xs) zero x h e = subst P (cc) h.0
  All-get (y ∷ xs) (suc n) x h e = All-get xs n x h.1 e
