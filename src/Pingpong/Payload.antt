-- ===== src/Pingpong/Payload.antt =====
-- What a payload of `makePayload` holds.
use batchudp.Prelude.{
  ℕ, zero, suc, ◌+◌, ◌-◌, ◌*◌, ◌/◌, ◌^◌, ◌≤◌, ◌<◌, ◌≡◌, refl, ap, ◌∙◌, false, some, List, [], ◌∷◌,
  ◌++◌, length, take, drop, All, All-append, Option, ltb, arith, length-append, take-append_add,
  drop-append_add, append-nil,
}
use batchudp.Pingpong.{little_endian, filler, make_payload}

-- `binary.LittleEndian.Uint64`, on as many bytes as there are.
unfoldable pub from_little_endian : List ℕ → ℕ
from_little_endian [] = 0
from_little_endian (b ∷ bs) = b + 256 * from_little_endian bs

from_little_endian_lem : (n v : ℕ) → v < 256 ^ n → from_little_endian (little_endian n v) ≡ v
unfolding from_little_endian little_endian
from_little_endian_lem zero v small = omega (arith, small)
from_little_endian_lem (suc n) v small =
    let low : v / 256 < 256 ^ n = omega (arith, small) in
    omega (arith, from_little_endian_lem n (v / 256) low)

length-little_endian : (n v : ℕ) → length (little_endian n v) ≡ n
unfolding little_endian
length-little_endian zero v = refl
length-little_endian (suc n) v = ap suc (length-little_endian n (v / 256))

length-filler : (s r i n : ℕ) → length (filler s r i n) ≡ n
unfolding filler
length-filler s r i zero = refl
length-filler s r i (suc n) = ap suc (length-filler s r (i + 1) n)

abbrev pub IsByte : ℕ → Type 0
IsByte b = b < 256

little_endian-IsByte : (n v : ℕ) → All IsByte (little_endian n v)
unfolding little_endian
little_endian-IsByte zero v = tt
little_endian-IsByte (suc n) v = (omega arith, little_endian-IsByte n (v / 256))

filler-IsByte : (s r i n : ℕ) → All IsByte (filler s r i n)
unfolding filler
filler-IsByte s r i zero = tt
filler-IsByte s r i (suc n) = (omega arith, filler-IsByte s r (i + 1) n)

-- A payload of the size, of bytes, from which the session and the round trip read back.
pub record Tells (size session round : ℕ) (r : Option (List ℕ)) : Type 0 where
  pub payload : List ℕ
  pub result : r ≡ some payload
  pub size_lem : length payload ≡ size
  pub of_bytes : All IsByte payload
  pub session_lem : from_little_endian (take 8 payload) ≡ session
  pub round_lem : from_little_endian (take 8 (drop 8 payload)) ≡ round

-- `makePayload` of at least 16 bytes gives so many bytes, and the session and the round trip, where
-- they are below 2 ^ 64, read back from the first 16 of them: no two exchanges have the same
-- payload.
pub make_payload-Tells :
    (size session round : ℕ)
    → 16 ≤ size
    → session < 2 ^ 64
    → round < 2 ^ 64
    → Tells size session round (make_payload size session round)
unfolding make_payload
make_payload-Tells size session round large s r =
    let enough : ltb size 16 ≡ false = ground arith in
    let a = little_endian 8 session in
    let b = little_endian 8 round in
    let c = filler session round 16 (size - 16) in
    let la : length a ≡ 8 = length-little_endian 8 session in
    let lb : length b ≡ 8 = length-little_endian 8 round in
    record {
      payload = a ++ (b ++ c);
      result = rw enough refl;
      size_lem = omega (
        arith,
        large,
        la,
        lb,
        length-append a (b ++ c),
        length-append b c,
        length-filler session round 16 (size - 16),
      );
      of_bytes = All-append IsByte a (b ++ c) (little_endian-IsByte 8 session) (
          All-append IsByte b c (little_endian-IsByte 8 round)
            (filler-IsByte session round 16 (size - 16)));
      session_lem =
          ap from_little_endian (take-append_add a (b ++ c) 0 8 (omega (arith, la)) ∙ append-nil a)
          ∙ from_little_endian_lem 8 session (omega (arith, s));
      round_lem =
          ap (λ x. from_little_endian (take 8 x))
            (drop-append_add a (b ++ c) 0 8 (omega (arith, la)))
          ∙ ap from_little_endian (take-append_add b c 0 8 (omega (arith, lb)) ∙ append-nil b)
          ∙ from_little_endian_lem 8 round (omega (arith, r));
    }
