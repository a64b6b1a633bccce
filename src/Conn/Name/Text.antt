-- ===== src/Conn/Name/Text.antt =====
-- Suffixes, last bytes and last occurrences in a name.
use batchudp.Prelude.{
  ℕ, ◌-◌, ◌≡◌, ◌≢◌, refl, sym, ap, ◌∙◌, Bool, true, false, ◌||◌, Option, none, some, List, [], ◌∷◌,
  ◌++◌, length, ◌==◌, arith, inl, inr, Bool-cases, eq→==, append-nil, length-append,
  take-append_add, same_text, same_text-eq, same_text_self,
}
use batchudp.Conn.Name.{has_suffix, drop_end, contains, after_last}

or_assoc : (a b c : Bool) → (a || (b || c)) ≡ ((a || b) || c)
or_assoc true b c = refl
or_assoc false b c = refl

neither : (a b : Bool) → (a || b) ≡ false → (a ≡ false) × (b ≡ false)
neither a b h = (ground arith, ground arith)

or_true : (a : Bool) → (a || true) ≡ true
or_true true = refl
or_true false = refl

or_false : (a : Bool) → (a || false) ≡ a
or_false true = refl
or_false false = refl

pub has_suffix-append : (y s : List ℕ) → has_suffix (y ++ s) s ≡ true
unfolding has_suffix
has_suffix-append [] [] = refl
has_suffix-append [] (x ∷ xs) = rw (eq→== x x refl, same_text_self xs, has_suffix) refl
has_suffix-append (y ∷ ys) s =
    ap (λ b. same_text (y ∷ (ys ++ s)) s || b) (has_suffix-append ys s)
    ∙ or_true (same_text (y ∷ (ys ++ s)) s)

pub drop_end-append : (y s : List ℕ) → drop_end (y ++ s) s ≡ y
drop_end-append y s =
    take-append_add y s 0 (length (y ++ s) - length s) (omega (arith, length-append y s))
    ∙ append-nil y

abbrev pub last_of : List ℕ → Option ℕ
last_of [] = none
last_of (x ∷ xs) = elim xs [ [] ↦ some x | y ∷ ys ↦ last_of xs ]

pub last_of-append : (y : List ℕ) (c : ℕ) (cs : List ℕ) → last_of (y ++ (c ∷ cs)) ≡ last_of (c ∷ cs)
last_of-append [] c cs = refl
last_of-append (x ∷ []) c cs = refl
last_of-append (x ∷ y ∷ ys) c cs = last_of-append (y ∷ ys) c cs

has_suffix-last_of :
    (s : List ℕ) (c : ℕ) (cs : List ℕ) → has_suffix s (c ∷ cs) ≡ true → last_of s ≡ last_of (c ∷ cs)
unfolding has_suffix
has_suffix-last_of [] c cs h = absurd (ground arith)
has_suffix-last_of (x ∷ []) c cs h = elim (Bool-cases (same_text (x ∷ []) (c ∷ cs))) [
  | inl same ↦ ap last_of (same_text-eq (x ∷ []) (c ∷ cs) same)
  | inr other ↦ absurd (ground (arith, rw (other, has_suffix) at h))
]
has_suffix-last_of (x ∷ y ∷ ys) c cs h = elim (Bool-cases (same_text (x ∷ y ∷ ys) (c ∷ cs))) [
  | inl same ↦ ap last_of (same_text-eq (x ∷ y ∷ ys) (c ∷ cs) same)
  | inr other ↦ has_suffix-last_of (y ∷ ys) c cs (rw (other, has_suffix) at h)
]

-- A text that ends in another byte has not the suffix.
pub no_suffix :
    (s : List ℕ) (a c b : ℕ) (cs : List ℕ)
    → last_of s ≡ some a
    → last_of (c ∷ cs) ≡ some b
    → a ≢ b
    → has_suffix s (c ∷ cs) ≡ false
no_suffix s a c b cs ends suffix_ends ne = elim (Bool-cases (has_suffix s (c ∷ cs))) [
  | inr no_such ↦ no_such
  | inl yes_it ↦
      let same : some a ≡ some b = sym ends ∙ has_suffix-last_of s c cs yes_it ∙ suffix_ends in
      absurd (ground arith)
]

pub contains-append :
    (b : ℕ) (xs ys : List ℕ) → contains b (xs ++ ys) ≡ (contains b xs || contains b ys)
unfolding contains
contains-append b [] ys = refl
contains-append b (x ∷ xs) ys =
    ap (λ c. x == b || c) (contains-append b xs ys)
    ∙ or_assoc (x == b) (contains b xs) (contains b ys)

after_last-none : (b : ℕ) (xs : List ℕ) → contains b xs ≡ false → after_last b xs ≡ xs
unfolding after_last contains
after_last-none b [] h = refl
after_last-none b (x ∷ xs) h =
    let (other, no_more) = neither (x == b) (contains b xs) h in
    rw (no_more, other, after_last) refl

contains-at : (b : ℕ) (p r : List ℕ) → contains b (p ++ (b ∷ r)) ≡ true
unfolding contains
contains-at b [] r = rw (eq→== b b refl, contains) refl
contains-at b (x ∷ xs) r = ap (λ c. x == b || c) (contains-at b xs r) ∙ or_true (x == b)

pub after_last-at : (b : ℕ) (p r : List ℕ) → contains b r ≡ false → after_last b (p ++ (b ∷ r)) ≡ r
unfolding after_last
after_last-at b [] r h = rw (h, eq→== b b refl, after_last) refl
after_last-at b (x ∷ xs) r h = rw (contains-at b xs r, after_last) (after_last-at b xs r h)

pub after_last-append :
    (b : ℕ) (p t : List ℕ) → contains b t ≡ false → after_last b (p ++ t) ≡ after_last b p ++ t
unfolding after_last
after_last-append b [] t h = after_last-none b t h
after_last-append b (x ∷ xs) t h =
    let all : contains b (xs ++ t) ≡ contains b xs =
      contains-append b xs t ∙ ap (λ c. contains b xs || c) h ∙ or_false (contains b xs) in
    elim (Bool-cases (contains b xs)) [
      | inl behind ↦ rw (all, behind, after_last) (after_last-append b xs t h)
      | inr not_behind ↦ elim (Bool-cases (x == b)) [
        | inl this ↦ rw (all, not_behind, this, after_last) refl
        | inr other ↦ rw (all, not_behind, other, after_last) refl
      ]
    ]
