-- ===== src/Split/Overflow.antt =====
-- A read of more segments than there are slots for.
use batchudp.Prelude.{
  ℕ, zero, suc, ◌+◌, ◌-◌, ◌≤◌, ◌<◌, ◌≡◌, ◌≢◌, ◌⊎◌, refl, sym, ◌∙◌, false, some, List, ◌∷◌, ◌++◌,
  length, get_elem?, ◌==◌, arith, length-set, length-append, Option-cases, inl, inr, ne→==,
  get_elem?-append_at,
}
use batchudp.Slice.{Msg}
use batchudp.Gso.{GsoResult, size}
use batchudp.Split.{
  SplitResult, SplitError, split, failed, panicked, move_segment, next_end, split_message,
  receive_segment, source_segment, num_to_split, first_end, split_from, split_coalesced_messages,
}
use batchudp.Split.Segments.{sub_slice-cases}
use batchudp.Split.Outer.{control_of}

move_segment-split :
    (i start end n : ℕ) (msgs : List Msg) {n' : ℕ} {ms : List Msg}
    → move_segment i start end n msgs ≡ split n' ms
    → (n' ≡ n + 1) × (n ≤ i) × (length ms ≡ length msgs)
unfolding move_segment
move_segment-split i start end n msgs h = elim (Option-cases (get_elem? msgs i)) [
  | inl e ↦ ground arith
  | inr (src, e) ↦ elim (Option-cases (source_segment src start end)) [
    | inl e' ↦ ground arith
    | inr (xs, e') ↦ elim (Option-cases (get_elem? msgs n)) [
      | inl e'' ↦ ground arith
      | inr (dst, e'') ↦ elim (Option-cases (receive_segment xs src.addr dst)) [
        | inl none_left ↦ ground arith
        | inr (dst', put) ↦ ground (arith, length-set msgs n dst')
      ]
    ]
  ]
]

Nat-cases : (n : ℕ) → (n ≡ 0) ⊎ (0 < n)
Nat-cases zero = inl refl
Nat-cases (suc n) = inr (omega arith)

abbrev Stops : SplitResult → Type 0
Stops r = (r ≡ panicked) ⊎ ((n : ℕ) × (e : SplitError) × (ms : List Msg) × (r ≡ failed n e ms))

SplitResult-cases : (r : SplitResult) → ((n : ℕ) × (ms : List Msg) × (r ≡ split n ms)) ⊎ Stops r
SplitResult-cases (split n ms) = inl (n, ms, refl)
SplitResult-cases (failed n e ms) = inr (inr (n, e, ms, refl))
SplitResult-cases panicked = inr (inl refl)

split_message-step :
    (r i k start end n : ℕ) (msgs ms : List Msg) (n' : ℕ)
    → move_segment i start end n msgs ≡ split n' ms
    → split_message (suc r) i k start end n msgs
      ≡ split_message r i k end (next_end i end k ms) n' ms
unfolding split_message
split_message-step r i k start end n msgs ms n' h = rw (h, split_message)

split_message-full :
    (r i k start end n : ℕ) (msgs : List Msg)
    → Stops (move_segment i start end n msgs)
    → Stops (split_message (suc r) i k start end n msgs)
unfolding split_message
split_message-full r i k start end n msgs (inl e) = inl (rw (e, split_message))
split_message-full r i k start end n msgs (inr (n', x, ms, e)) =
    inr (n', x, ms, rw (e, split_message))

not_Stops : (r : SplitResult) (n : ℕ) (ms : List Msg) → r ≡ split n ms → ¬ Stops r
not_Stops r n ms h (inl e) = cc
not_Stops r n ms h (inr (n', x, ms', e)) = cc

-- After a successful inner loop: `rounds` more segments, none of them behind slot `i`.
split_message-split :
    (r i k start end n : ℕ) (msgs : List Msg) {n' : ℕ} {ms : List Msg}
    → split_message r i k start end n msgs ≡ split n' ms
    → (n' ≡ n + r) × (0 < r → n' ≤ i + 1) × (length ms ≡ length msgs)
split_message-split zero i k start end n msgs h =
    unfold split_message in (ground arith, λ p. absurd (omega arith), ground arith)
split_message-split (suc r) i k start end n msgs {n'} {ms} h =
    elim (SplitResult-cases (move_segment i start end n msgs)) [
      | inl (n1, ms1, e) ↦
          let later : (n' ≡ n1 + r) × (0 < r → n' ≤ i + 1) × (length ms ≡ length ms1) =
            split_message-split r i k end (next_end i end k ms1) n1 ms1
              (sym (split_message-step r i k start end n msgs ms1 n1 e) ∙ h) in
          let one : (n1 ≡ n + 1) × (n ≤ i) × (length ms1 ≡ length msgs) =
            move_segment-split i start end n msgs e in
          (omega arith, λ p. bound later one, omega arith)
      | inr stops ↦ absurd (not_Stops _ n' ms h (split_message-full r i k start end n msgs stops))
    ]
  where
    bound :
        {n1 a b : ℕ}
        → (n' ≡ n1 + r) × (0 < r → n' ≤ i + 1) × (a ≡ b)
        → (n1 ≡ n + 1) × (n ≤ i) × (b ≡ length msgs)
        → n' ≤ i + 1
    bound {n1} later one = elim (Nat-cases r) [ inl z ↦ omega arith | inr p ↦ later.1 p ]

module _ (get_gso : List ℕ → GsoResult) where
  cut : ℕ → ℕ → ℕ → Msg → List Msg → SplitResult
  cut i n k m msgs =
      split_message (num_to_split get_gso m.n k) i k 0 (first_end get_gso m.n k) n msgs

  split_from-overflow :
      (todo i k : ℕ) (m : Msg) (msgs : List Msg) (n' : ℕ) (ms : List Msg)
      → get_elem? msgs i ≡ some m
      → 0 < m.n
      → get_gso (control_of m) ≡ size k
      → i + 1 < num_to_split get_gso m.n k
      → split_from get_gso (suc todo) i 0 msgs ≢ split n' ms
  unfolding split_from cut
  split_from-overflow todo i k m msgs n' ms here pos e many h =
      let nz : (m.n == 0) ≡ false = ne→== m.n 0 (omega arith) in
      elim (SplitResult-cases (cut i 0 k m msgs)) [
        | inl (n1, ms1, c) ↦
            let d : (n1 ≡ 0 + num_to_split get_gso m.n k)
                × (0 < num_to_split get_gso m.n k → n1 ≤ i + 1)
                × (length ms1 ≡ length msgs) =
              split_message-split (num_to_split get_gso m.n k) i k 0 (first_end get_gso m.n k) 0
                msgs c in
            absurd (omega (arith, d.1 (omega arith)))
        | inr stops ↦ elim (sub_slice-cases m.oob m.nn) [
          | inl beyond ↦ ground arith
          | inr inside ↦ elim stops [ inl c ↦ ground arith | inr (n1, x, ms1, c) ↦ ground arith ]
        ]
      ]

  -- If the first message read splits into more segments than there are slots up to its own, the
  -- split does not succeed.
  pub split_coalesced_messages-overflow :
      (head : List Msg) (m : Msg) (rest : List Msg) (k n' : ℕ) (ms : List Msg)
      → 0 < m.n
      → get_gso (control_of m) ≡ size k
      → length head + 1 < num_to_split get_gso m.n k
      → split_coalesced_messages get_gso (head ++ (m ∷ rest)) (length head) ≢ split n' ms
  unfolding split_coalesced_messages
  split_coalesced_messages-overflow head m rest k n' ms pos e many h =
      let todo : length (head ++ (m ∷ rest)) - length head ≡ suc (length rest) =
        omega (arith, length-append head (m ∷ rest)) in
      split_from-overflow (length rest) (length head) k m (head ++ (m ∷ rest)) n' ms
        (get_elem?-append_at head m rest) pos e many (rw todo at h)
