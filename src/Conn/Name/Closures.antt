-- ===== src/Conn/Name/Closures.antt =====
-- The names of closures: what the loop of `PrettyName` takes off.
use batchudp.Prelude.{
  ℕ, zero, suc, ◌≤◌, ◌<◌, ◌≡◌, ◌≢◌, refl, sym, ap, ap₂, subst, ◌∙◌, true, false, ◌||◌, some, List,
  [], ◌∷◌, ◌++◌, All, length, ◌==◌, arith, ne→==, append_assoc, length-append,
}
use batchudp.Conn.Name.{has_suffix, contains, digit, strip_digits, dot_func, strip_funcs}
use batchudp.Conn.Name.Text.{
  has_suffix-append, drop_end-append, last_of, last_of-append, no_suffix, contains-append,
}

abbrev pub IsDigit : ℕ → Type 0
IsDigit c = digit c ≡ true

strip_digits-nil : (ds : List ℕ) → All IsDigit ds → strip_digits ds ≡ []
unfolding strip_digits
strip_digits-nil [] h = refl
strip_digits-nil (d ∷ ds) h = rw (strip_digits-nil ds h.1, h.0, strip_digits) refl

strip_digits-append : (x ds : List ℕ) → All IsDigit ds → strip_digits (x ++ ds) ≡ strip_digits x
unfolding strip_digits
strip_digits-append [] ds h = strip_digits-nil ds h
strip_digits-append (x ∷ xs) ds h = rw (strip_digits-append xs ds h, strip_digits) refl

strip_digits-none : (s : List ℕ) (c : ℕ) → last_of s ≡ some c → digit c ≡ false → strip_digits s ≡ s
unfolding strip_digits
strip_digits-none [] c e h = refl
strip_digits-none (x ∷ []) c e h =
    let same : x ≡ c = ground arith in
    let no_digit : digit x ≡ false = subst (λ y. digit y ≡ false) (sym same) h in
    rw (no_digit, strip_digits) refl
strip_digits-none (x ∷ y ∷ ys) c e h = rw (strip_digits-none (y ∷ ys) c e h, strip_digits) refl

-- A number is at least one digit.
abbrev pub IsNumber : List ℕ → Type 0
IsNumber ds = (0 < length ds) × All IsDigit ds

-- The name with ".func" and a number for each of the list, the first one outermost.
unfoldable pub with_funcs : List ℕ → List (List ℕ) → List ℕ
with_funcs x [] = x
with_funcs x (d ∷ ds) = with_funcs x ds ++ (dot_func ++ d)

strip_funcs-round :
    (fuel : ℕ) (x ds : List ℕ)
    → IsNumber ds
    → strip_funcs (suc fuel) (x ++ (dot_func ++ ds)) ≡ strip_funcs fuel x
unfolding strip_funcs
strip_funcs-round fuel x ds (long, digits) =
    let short : strip_digits (x ++ (dot_func ++ ds)) ≡ x ++ dot_func =
      ap strip_digits (sym (append_assoc x dot_func ds))
      ∙ strip_digits-append (x ++ dot_func) ds digits
      ∙ strip_digits-none (x ++ dot_func) 99 (last_of-append x 46 (102 ∷ 117 ∷ 110 ∷ 99 ∷ []))
          refl in
    let differ : (length (x ++ dot_func) == length (x ++ (dot_func ++ ds))) ≡ false =
      ne→== _ _ (λ h. absurd (
        omega (
          arith,
          h,
          long,
          length-append x dot_func,
          length-append x (dot_func ++ ds),
          length-append dot_func ds,
        ))) in
    rw (short, differ, has_suffix-append x dot_func, strip_funcs)
      (ap (strip_funcs fuel) (drop_end-append x dot_func))

-- A name that ends in "IPv" and a digit stays.
strip_funcs-done :
    (fuel : ℕ) (q : List ℕ) (d : ℕ)
    → digit d ≡ true
    → strip_funcs fuel (q ++ (73 ∷ 80 ∷ 118 ∷ d ∷ [])) ≡ q ++ (73 ∷ 80 ∷ 118 ∷ d ∷ [])
unfolding strip_funcs
strip_funcs-done zero q d h = refl
strip_funcs-done (suc fuel) q d h =
    let ipv : List ℕ = 73 ∷ 80 ∷ 118 ∷ [] in
    let ends : last_of (q ++ ipv) ≡ some 118 = last_of-append q 73 (80 ∷ 118 ∷ []) in
    let short : strip_digits (q ++ (73 ∷ 80 ∷ 118 ∷ d ∷ [])) ≡ q ++ ipv =
      ap strip_digits (sym (append_assoc q ipv (d ∷ [])))
      ∙ strip_digits-append (q ++ ipv) (d ∷ []) (h, tt)
      ∙ strip_digits-none (q ++ ipv) 118 ends refl in
    let differ : (length (q ++ ipv) == length (q ++ (73 ∷ 80 ∷ 118 ∷ d ∷ []))) ≡ false =
      ne→== _ _ (λ e.
        absurd (omega (arith, e, length-append q ipv, length-append q (73 ∷ 80 ∷ 118 ∷ d ∷ [])))) in
    let no_func : has_suffix (q ++ ipv) dot_func ≡ false =
      no_suffix (q ++ ipv) 118 46 99 (102 ∷ 117 ∷ 110 ∷ 99 ∷ []) ends refl
        (λ e. absurd (omega (arith, e))) in
    rw (short, differ, no_func, strip_funcs) refl

pub strip_funcs-with_funcs :
    (nums : List (List ℕ)) (fuel : ℕ) (q : List ℕ) (d : ℕ)
    → digit d ≡ true
    → All IsNumber nums
    → length nums ≤ fuel
    → strip_funcs fuel (with_funcs (q ++ (73 ∷ 80 ∷ 118 ∷ d ∷ [])) nums)
      ≡ q ++ (73 ∷ 80 ∷ 118 ∷ d ∷ [])
unfolding with_funcs
strip_funcs-with_funcs [] fuel q d h all enough = strip_funcs-done fuel q d h
strip_funcs-with_funcs (n ∷ ns) zero q d h all enough = absurd (omega (arith, enough))
strip_funcs-with_funcs (n ∷ ns) (suc fuel) q d h all enough =
    strip_funcs-round fuel (with_funcs (q ++ (73 ∷ 80 ∷ 118 ∷ d ∷ [])) ns) n all.0
    ∙ strip_funcs-with_funcs ns fuel q d h all.1 (omega (arith, enough))

pub with_funcs-append :
    (p t : List ℕ) (nums : List (List ℕ)) → with_funcs (p ++ t) nums ≡ p ++ with_funcs t nums
unfolding with_funcs
with_funcs-append p t [] = refl
with_funcs-append p t (n ∷ ns) =
    ap (λ x. x ++ (dot_func ++ n)) (with_funcs-append p t ns)
    ∙ append_assoc p (with_funcs t ns) (dot_func ++ n)

digits-contains : (ds : List ℕ) → All IsDigit ds → contains 47 ds ≡ false
unfolding contains
digits-contains [] h = refl
digits-contains (d ∷ ds) h =
    let other : (d == 47) ≡ false = ne→== d 47 (λ e. absurd (slash d h.0 e)) in
    rw (other, digits-contains ds h.1, contains) refl
  where
    slash : (d : ℕ) → digit d ≡ true → d ≢ 47
    slash d h e = absurd (ground arith)

pub contains-with_funcs :
    (t : List ℕ) (nums : List (List ℕ))
    → contains 47 t ≡ false
    → All IsNumber nums
    → contains 47 (with_funcs t nums) ≡ false
unfolding with_funcs
contains-with_funcs t [] h all = h
contains-with_funcs t (n ∷ ns) h all =
    contains-append 47 (with_funcs t ns) (dot_func ++ n)
    ∙ ap₂ ◌||◌ (contains-with_funcs t ns h all.1)
        (contains-append 47 dot_func n ∙ unfold contains in digits-contains n all.0.1)

pub length-with_funcs :
    (t : List ℕ) (nums : List (List ℕ)) → length nums ≤ length (with_funcs t nums)
unfolding with_funcs
length-with_funcs t [] = omega arith
length-with_funcs t (n ∷ ns) =
    omega (arith, length-with_funcs t ns, length-append (with_funcs t ns) (dot_func ++ n))

-- The last byte is a digit.
abbrev EndsInDigit : List ℕ → Type 0
EndsInDigit s = (c : ℕ) × (last_of s ≡ some c) × (digit c ≡ true)

digits-last_of : (d : ℕ) (ds : List ℕ) → All IsDigit (d ∷ ds) → EndsInDigit (d ∷ ds)
digits-last_of d [] h = (d, refl, h.0)
digits-last_of d (e ∷ es) h = digits-last_of e es h.1

pub with_funcs-EndsInDigit :
    (q : List ℕ) (d : ℕ) (nums : List (List ℕ))
    → digit d ≡ true
    → All IsNumber nums
    → EndsInDigit (with_funcs (q ++ (73 ∷ 80 ∷ 118 ∷ d ∷ [])) nums)
unfolding with_funcs
with_funcs-EndsInDigit q d [] h all = (d, last_of-append q 73 (80 ∷ 118 ∷ d ∷ []), h)
with_funcs-EndsInDigit q d ([] ∷ ns) h all = absurd (omega (arith, all.0.0))
with_funcs-EndsInDigit q d ((n ∷ rest) ∷ ns) h all =
    let (c, e, is) = digits-last_of n rest all.0.1 in
    (
      c,
      last_of-append (with_funcs (q ++ (73 ∷ 80 ∷ 118 ∷ d ∷ [])) ns) 46
            (102 ∷ 117 ∷ 110 ∷ 99 ∷ n ∷ rest)
          ∙ last_of-append (46 ∷ 102 ∷ 117 ∷ 110 ∷ 99 ∷ []) n rest
          ∙ e,
      is,
    )
