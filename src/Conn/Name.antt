-- ===== src/Conn/Name.antt =====
-- `ReceiveFunc.PrettyName` of conn.go, from the name that the runtime gives of the function on.
--
-- A name is its bytes. `strings.TrimSuffix`, `HasSuffix` and `LastIndexByte` are written out.
mod Text
pub mod Closures
pub mod Family
use batchudp.Prelude.{
  ℕ, zero, suc, ◌-◌, Bool, true, false, not, ◌&&◌, ◌||◌, Option, none, some, List, [], ◌∷◌, length,
  take, leb, ◌==◌, if◌then◌else◌, same_text,
}

unfoldable pub has_suffix : List ℕ → List ℕ → Bool
has_suffix [] suffix = same_text [] suffix
has_suffix (x ∷ xs) suffix = let rest = has_suffix xs suffix in same_text (x ∷ xs) suffix || rest

abbrev pub drop_end : List ℕ → List ℕ → List ℕ
drop_end s suffix = take (length s - length suffix) s

unfoldable pub trim_suffix : List ℕ → List ℕ → List ℕ
trim_suffix s suffix = if has_suffix s suffix then drop_end s suffix else s

unfoldable pub contains : ℕ → List ℕ → Bool
contains b [] = false
contains b (x ∷ xs) = x == b || contains b xs

-- what stands behind the last `b`, or everything
unfoldable pub after_last : ℕ → List ℕ → List ℕ
after_last b [] = []
after_last b (x ∷ xs) =
    let rest = after_last b xs in if contains b xs then rest else if x == b then xs else x ∷ xs

abbrev pub digit : ℕ → Bool
digit c = leb 48 c && leb c 57

-- `name[:idx+1]`, behind the loop over the digits at the end
unfoldable pub strip_digits : List ℕ → List ℕ
strip_digits [] = []
strip_digits (x ∷ xs) =
    let rest = strip_digits xs in
    elim rest [ [] ↦ if digit x then [] else x ∷ [] | c ∷ cs ↦ x ∷ (c ∷ cs) ]

-- ".func", "-fm", "IPv4", "IPv6", "v4", "v6"
abbrev pub dot_func : List ℕ
dot_func = 46 ∷ 102 ∷ 117 ∷ 110 ∷ 99 ∷ []

abbrev pub dash_fm : List ℕ
dash_fm = 45 ∷ 102 ∷ 109 ∷ []

abbrev pub ipv4_name : List ℕ
ipv4_name = 73 ∷ 80 ∷ 118 ∷ 52 ∷ []

abbrev pub ipv6_name : List ℕ
ipv6_name = 73 ∷ 80 ∷ 118 ∷ 54 ∷ []

-- The loop that takes ".func" and a number off the end; every round but the last shortens the name.
unfoldable pub strip_funcs : ℕ → List ℕ → List ℕ
strip_funcs zero name = name
strip_funcs (suc fuel) name =
    let short = strip_digits name in
    let rest = strip_funcs fuel (drop_end short dot_func) in
    if length short == length name
    then name
    else if not (has_suffix short dot_func)
    then name
    else rest

-- The answer for what is left of the name; `none` is an empty one, where the address of the function
-- is printed.
unfoldable pub family_name : List ℕ → Option (List ℕ)
family_name name =
    if length name == 0
    then none
    else if has_suffix name ipv4_name
    then some (118 ∷ 52 ∷ [])
    else if has_suffix name ipv6_name
    then some (118 ∷ 54 ∷ [])
    else some name

unfoldable pub pretty_name : List ℕ → Option (List ℕ)
pretty_name full =
    let base = after_last 47 (trim_suffix full dash_fm) in
    family_name (after_last 46 (strip_funcs (length base) base))
