-- ===== src/Std/Send/Address.antt =====
-- The address slice of the pool.
use batchudp.Prelude.{
  ℕ, ◌+◌, ◌-◌, ◌≤◌, ◌≡◌, refl, subst, ap, ◌∙◌, List, [], ◌++◌, length, take, drop, some, arith,
  take-all, take-append_add, drop-append_add, drop-all, append-nil, length-take, length-drop,
  append_assoc,
}
use batchudp.Slice.{Slice, v4, v6, len}
use batchudp.Std.Send.{fill, fill_ip}

-- A long enough slice takes the whole address.
pub fill-whole :
    (bs : List ℕ) (ip : Slice) (n : ℕ) → length bs ≡ n → n ≤ len ip → (fill bs n ip).bytes ≡ bs
unfolding fill
fill-whole bs ip n size room =
    let all : take (length ip.bytes - 0) bs ≡ bs =
      take-all (length ip.bytes - 0) bs (omega arith) in
    rw all (
      ap (take n) (append_assoc bs (drop (0 + length bs) ip.bytes) ip.spare)
      ∙ take-append_add bs (drop (0 + length bs) ip.bytes ++ ip.spare) 0 n (omega arith)
      ∙ append-nil bs)

-- A short one only a first part; the rest is what the array held.
fill-short :
    (bs : List ℕ) (ip : Slice) (n : ℕ)
    → length bs ≡ n
    → len ip ≤ n
    → (fill bs n ip).bytes ≡ take (len ip) bs ++ take (n - len ip) ip.spare
unfolding fill
fill-short bs ip n size short =
    let cut : length (take (length ip.bytes - 0) bs) ≡ len ip =
      omega (arith, length-take (length ip.bytes - 0) bs) in
    let none_left : drop (0 + length (take (length ip.bytes - 0) bs)) ip.bytes ≡ [] =
      drop-all (0 + length (take (length ip.bytes - 0) bs)) ip.bytes (omega (arith, cut)) in
    let same : length ip.bytes - 0 ≡ len ip = omega arith in
    rw none_left (
      ap (λ xs. take n (xs ++ ip.spare)) (append-nil (take (length ip.bytes - 0) bs))
      ∙ take-append_add (take (length ip.bytes - 0) bs) ip.spare (n - len ip) n (omega (arith, cut))
      ∙ ap (λ k. take k bs ++ take (n - len ip) ip.spare) same)

fill-spare :
    (a : List ℕ) (ip : Slice) (n : ℕ)
    → length a ≡ n
    → n ≤ len ip
    → (fill a n ip).spare ≡ drop n ip.bytes ++ ip.spare
unfolding fill
fill-spare a ip n size room =
    let all : take (length ip.bytes - 0) a ≡ a = take-all (length ip.bytes - 0) a (omega arith) in
    let same : 0 + length a ≡ n = omega arith in
    rw all (
      ap (drop n) (append_assoc a (drop (0 + length a) ip.bytes) ip.spare)
      ∙ drop-append_add a (drop (0 + length a) ip.bytes ++ ip.spare) 0 n (omega arith)
      ∙ ap (λ k. drop k ip.bytes ++ ip.spare) same)

-- From the slice that a send to IPv4 gave back, a send to IPv6 gets four bytes of its address, and
-- twelve that the slice held before both.
pub fill_ip-reused :
    (a bs : List ℕ) (ip x : Slice)
    → length a ≡ 4
    → length bs ≡ 16
    → len ip ≡ 16
    → fill_ip (v4 a) ip ≡ some x
    → (y : Slice) × (fill_ip (v6 bs) x ≡ some y) × (y.bytes ≡ take 4 bs ++ drop 4 ip.bytes)
unfolding fill_ip
fill_ip-reused a bs ip x four sixteen size got =
    let is : fill a 4 ip ≡ x = ground arith in
    let short : (fill a 4 ip).bytes ≡ a = fill-whole a ip 4 four (omega arith) in
    let four_long : len (fill a 4 ip) ≡ 4 = omega (arith, ap length short) in
    let behind : (fill a 4 ip).spare ≡ drop 4 ip.bytes ++ ip.spare =
      fill-spare a ip 4 four (omega arith) in
    let twelve : length (drop 4 ip.bytes) ≡ 12 = omega (arith, length-drop 4 ip.bytes) in
    subst
      (λ (x : Slice).
        (y : Slice) × (some (fill bs 16 x) ≡ some y) × (y.bytes ≡ take 4 bs ++ drop 4 ip.bytes))
      is
      (
        fill bs 16 (fill a 4 ip),
        refl,
        fill-short bs (fill a 4 ip) 16 sixteen (omega (arith, four_long))
            ∙ ap (λ k. take k bs ++ take (16 - k) (fill a 4 ip).spare) four_long
            ∙ ap (λ xs. take 4 bs ++ take 12 xs) behind
            ∙ ap (λ xs. take 4 bs ++ xs)
                (take-append_add (drop 4 ip.bytes) ip.spare 0 12 (omega (arith, twelve))
                  ∙ append-nil (drop 4 ip.bytes)),
      )
