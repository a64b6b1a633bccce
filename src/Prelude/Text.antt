-- ===== src/Prelude/Text.antt =====
-- Equality of texts, as lists of bytes.
use Prim.Native.Nat.{ℕ}
use mathlib.Core.Path.{◌≡◌, refl, ap₂}
use mathlib.Core.Bool.{Bool, true, false, ◌&&◌}
use mathlib.Core.List.{List, [], ◌∷◌}
use native.Mathlib.Omega.{arith}
use batchudp.Prelude.Tests.{◌==◌, ==→eq}

abbrev pub same_text : List ℕ → List ℕ → Bool
same_text [] [] = true
same_text (a ∷ xs) (b ∷ ys) = a == b && same_text xs ys
same_text _ _ = false

and_cases : (a b : Bool) → (a && b) ≡ true → (a ≡ true) × (b ≡ true)
and_cases a b h = (ground arith, ground arith)

pub same_text-eq : (a b : List ℕ) → same_text a b ≡ true → a ≡ b
same_text-eq [] [] h = refl
same_text-eq [] (y ∷ ys) h = absurd (ground arith)
same_text-eq (x ∷ xs) [] h = absurd (ground arith)
same_text-eq (x ∷ xs) (y ∷ ys) h =
    let (head, tail) = and_cases (x == y) (same_text xs ys) h in
    ap₂ ◌∷◌ (==→eq x y head) (same_text-eq xs ys tail)

eq_self : (x : ℕ) → (x == x) ≡ true
eq_self x = ground arith

pub same_text_self : (a : List ℕ) → same_text a a ≡ true
same_text_self [] = refl
same_text_self (x ∷ xs) = rw (eq_self x) (same_text_self xs)
