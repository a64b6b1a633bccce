-- ===== src/Linux/Version.antt =====
-- What `kernelVersion` reads of a release.
use batchudp.Prelude.{
  ◌≤◌, ◌<◌, ◌⊎◌, ℕ, ◌+◌, ◌-◌, ◌*◌, ◌%◌, ◌^◌, ◌≡◌, refl, ap, ◌∙◌, true, false, some, List, [], ◌∷◌,
  ◌++◌, All, arith,
}
use batchudp.Linux.{is_digit, version_go, kernel_version}

-- The number that the decimal digits write, behind `v`.
unfoldable pub number_from : ℕ → List ℕ → ℕ
number_from v [] = v
number_from v (d ∷ ds) = number_from (v * 10 + (d - 48)) ds

-- A byte from '0' to '9', and one that is none.
abbrev pub IsDigit : ℕ → Type 0
IsDigit c = (48 ≤ c) × (c ≤ 57)

abbrev pub IsOther : ℕ → Type 0
IsOther c = (c < 48) ⊎ (57 < c)

is_digit-on : (c : ℕ) → IsDigit c → is_digit c ≡ true
is_digit-on c h = ground arith

is_digit-off : (c : ℕ) → IsOther c → is_digit c ≡ false
is_digit-off c h = ground arith

number_mod : (v d : ℕ) → (v % 2 ^ 64 * 10 + d) % 2 ^ 64 ≡ (v * 10 + d) % 2 ^ 64
number_mod v d = omega arith

version_go-digits :
    (ds : List ℕ) (sep : ℕ) (rest : List ℕ) (v vi major minor : ℕ)
    → All IsDigit ds
    → version_go (ds ++ (sep ∷ rest)) (v % 2 ^ 64) vi major minor
      ≡ version_go (sep ∷ rest) (number_from v ds % 2 ^ 64) vi major minor
unfolding version_go number_from
version_go-digits [] sep rest v vi major minor all = refl
version_go-digits (d ∷ ds) sep rest v vi major minor all =
    rw (is_digit-on d all.0, version_go)
      (ap (λ x. version_go (ds ++ (sep ∷ rest)) x vi major minor) (number_mod v (d - 48))
        ∙ version_go-digits ds sep rest (v * 10 + (d - 48)) vi major minor all.1)

-- Of a release that begins with decimal digits, one other byte, decimal digits and one other byte,
-- `kernelVersion` gives the two numbers that the digits write, as integers of 64 bits, whatever
-- follows.
pub kernel_version-release :
    (ds : List ℕ) (sep : ℕ) (es : List ℕ) (end : ℕ) (rest : List ℕ)
    → All IsDigit ds
    → IsOther sep
    → All IsDigit es
    → IsOther end
    → kernel_version (some (ds ++ (sep ∷ (es ++ (end ∷ rest)))))
      ≡ (number_from 0 ds % 2 ^ 64, number_from 0 es % 2 ^ 64)
unfolding kernel_version version_go
kernel_version-release ds sep es end rest digits no_digit more stop =
    version_go-digits ds sep (es ++ (end ∷ rest)) 0 0 0 0 digits
    ∙ rw (is_digit-off sep no_digit, version_go)
        (version_go-digits es end rest 0 1 (number_from 0 ds % 2 ^ 64) 0 more
          ∙ rw (is_digit-off end stop, version_go) refl)
