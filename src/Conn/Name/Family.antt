-- ===== src/Conn/Name/Family.antt =====
-- The names of the receive functions come out as their families.
use batchudp.Prelude.{
  ℕ, ◌≤◌, ◌<◌, ◌≡◌, ◌≢◌, refl, sym, ap, subst, ◌∙◌, Bool, true, false, some, List, [], ◌∷◌, ◌++◌,
  All, length, ◌==◌, if◌then◌else◌, arith, ne→==, append_assoc, length-append,
}
use batchudp.Conn.Name.{
  has_suffix, trim_suffix, contains, after_last, digit, dash_fm, ipv4_name, ipv6_name, strip_funcs,
  family_name, pretty_name,
}
use batchudp.Conn.Name.Text.{
  has_suffix-append, drop_end-append, last_of-append, no_suffix, contains-append, after_last-at,
  after_last-append,
}
use batchudp.Conn.Name.Closures.{
  IsNumber, with_funcs, strip_funcs-with_funcs, with_funcs-append, contains-with_funcs,
  length-with_funcs, with_funcs-EndsInDigit,
}

-- The name of a function as the runtime has it: the path with the type, a dot, the method's name,
-- the closures within it, and "-fm" for a method value.
abbrev pub runtime_name : List ℕ → List ℕ → List (List ℕ) → Bool → List ℕ
runtime_name path method nums fm =
    let name = with_funcs (path ++ (46 ∷ method)) nums in if fm then name ++ dash_fm else name

trim_suffix-fm :
    (q : List ℕ) (d : ℕ) (nums : List (List ℕ)) (fm : Bool)
    → digit d ≡ true
    → All IsNumber nums
    → let name = with_funcs (q ++ (73 ∷ 80 ∷ 118 ∷ d ∷ [])) nums in
      trim_suffix (if fm then name ++ dash_fm else name) dash_fm ≡ name
unfolding trim_suffix
trim_suffix-fm q d nums true h all =
    let name = with_funcs (q ++ (73 ∷ 80 ∷ 118 ∷ d ∷ [])) nums in
    rw (has_suffix-append name dash_fm, trim_suffix) (drop_end-append name dash_fm)
trim_suffix-fm q d nums false h all =
    let name = with_funcs (q ++ (73 ∷ 80 ∷ 118 ∷ d ∷ [])) nums in
    let (c, e, is) = with_funcs-EndsInDigit q d nums h all in
    let no_fm : has_suffix name dash_fm ≡ false =
      no_suffix name c 45 109 (102 ∷ 109 ∷ []) e refl (λ same. absurd (letter c is same)) in
    rw (no_fm, trim_suffix) refl
  where
    letter : (c : ℕ) → digit c ≡ true → c ≢ 109
    letter c h e = absurd (ground arith)

digit_le : (d : ℕ) → digit d ≡ true → 48 ≤ d
digit_le d h = ground arith

contains-method :
    (b : ℕ) (word : List ℕ) (d : ℕ)
    → b < 48
    → digit d ≡ true
    → contains b word ≡ false
    → contains b (word ++ (73 ∷ 80 ∷ 118 ∷ d ∷ [])) ≡ false
unfolding contains
contains-method b word d small h e =
    contains-append b word (73 ∷ 80 ∷ 118 ∷ d ∷ [])
    ∙ rw
        (
          e,
          ne→== 73 b (λ x. absurd (omega (arith, x, small))),
          ne→== 80 b (λ x. absurd (omega (arith, x, small))),
          ne→== 118 b (λ x. absurd (omega (arith, x, small))),
          ne→== d b (λ x. absurd (omega (arith, x, small, digit_le d h))),
        )
        refl

-- what is left of the name before it is compared
name_left :
    (path word : List ℕ) (d : ℕ) (nums : List (List ℕ)) (fm : Bool)
    → digit d ≡ true
    → contains 47 word ≡ false
    → contains 46 word ≡ false
    → All IsNumber nums
    → let method = word ++ (73 ∷ 80 ∷ 118 ∷ d ∷ []) in
      let base = after_last 47 (trim_suffix (runtime_name path method nums fm) dash_fm) in
      after_last 46 (strip_funcs (length base) base) ≡ method
name_left path word d nums fm h no_slash no_dot all =
    let method = word ++ (73 ∷ 80 ∷ 118 ∷ d ∷ []) in
    let p = after_last 47 path in
    let q = path ++ (46 ∷ word) in
    let whole : path ++ (46 ∷ method) ≡ q ++ (73 ∷ 80 ∷ 118 ∷ d ∷ []) =
      sym (append_assoc path (46 ∷ word) (73 ∷ 80 ∷ 118 ∷ d ∷ [])) in
    let q2 = p ++ (46 ∷ word) in
    let trimmed : trim_suffix (runtime_name path method nums fm) dash_fm
        ≡ with_funcs (path ++ (46 ∷ method)) nums =
      subst
        (λ x.
          let name = with_funcs x nums in
          trim_suffix (if fm then name ++ dash_fm else name) dash_fm ≡ name)
        (sym whole) (trim_suffix-fm q d nums fm h all) in
    let no_slash_method : contains 47 (46 ∷ method) ≡ false =
      unfold contains in contains-method 47 word d (omega arith) h no_slash in
    let based : after_last 47 (trim_suffix (runtime_name path method nums fm) dash_fm)
        ≡ with_funcs (q2 ++ (73 ∷ 80 ∷ 118 ∷ d ∷ [])) nums =
      ap (after_last 47) trimmed
      ∙ ap (after_last 47) (with_funcs-append path (46 ∷ method) nums)
      ∙ after_last-append 47 path (with_funcs (46 ∷ method) nums)
          (contains-with_funcs (46 ∷ method) nums no_slash_method all)
      ∙ sym (with_funcs-append p (46 ∷ method) nums)
      ∙ ap (λ x. with_funcs x nums) (sym (append_assoc p (46 ∷ word) (73 ∷ 80 ∷ 118 ∷ d ∷ []))) in
    ap (λ b. after_last 46 (strip_funcs (length b) b)) based
    ∙ ap (after_last 46) (
        strip_funcs-with_funcs nums _ q2 d h all
          (length-with_funcs (q2 ++ (73 ∷ 80 ∷ 118 ∷ d ∷ [])) nums))
    ∙ ap (after_last 46) (append_assoc p (46 ∷ word) (73 ∷ 80 ∷ 118 ∷ d ∷ []))
    ∙ after_last-at 46 p method (contains-method 46 word d (omega arith) h no_dot)

family_name-four : (word : List ℕ) → family_name (word ++ ipv4_name) ≡ some (118 ∷ 52 ∷ [])
unfolding family_name
family_name-four word =
    let filled : (length (word ++ ipv4_name) == 0) ≡ false =
      ne→== _ 0 (λ e. absurd (omega (arith, e, length-append word ipv4_name))) in
    rw (filled, has_suffix-append word ipv4_name, family_name) refl

family_name-six : (word : List ℕ) → family_name (word ++ ipv6_name) ≡ some (118 ∷ 54 ∷ [])
unfolding family_name
family_name-six word =
    let filled : (length (word ++ ipv6_name) == 0) ≡ false =
      ne→== _ 0 (λ e. absurd (omega (arith, e, length-append word ipv6_name))) in
    let not_four : has_suffix (word ++ ipv6_name) ipv4_name ≡ false =
      no_suffix (word ++ ipv6_name) 54 73 52 (80 ∷ 118 ∷ 52 ∷ [])
        (last_of-append word 73 (80 ∷ 118 ∷ 54 ∷ [])) refl (λ e. absurd (omega (arith, e))) in
    rw (filled, not_four, has_suffix-append word ipv6_name, family_name) refl

-- `PrettyName` of a method whose name ends in "IPv4" or "IPv6", of any type on any path, or of any
-- closures within it, bound or not, is "v4" or "v6". The rest of the method's name has no slash and
-- no dot.
pub pretty_name-family :
    (path word : List ℕ) (nums : List (List ℕ)) (fm : Bool)
    → contains 47 word ≡ false
    → contains 46 word ≡ false
    → All IsNumber nums
    → (pretty_name (runtime_name path (word ++ ipv4_name) nums fm) ≡ some (118 ∷ 52 ∷ []))
      × (pretty_name (runtime_name path (word ++ ipv6_name) nums fm) ≡ some (118 ∷ 54 ∷ []))
unfolding pretty_name
pretty_name-family path word nums fm no_slash no_dot all = (
  ap family_name (name_left path word 52 nums fm refl no_slash no_dot all) ∙ family_name-four word,
  ap family_name (name_left path word 54 nums fm refl no_slash no_dot all) ∙ family_name-six word,
)
