-- ===== src/Tests/Naming.antt =====
-- A run of `PrettyName`.
use batchudp.Prelude.{ℕ, ◌≡◌, refl, some, true, List, [], ◌∷◌, ◌++◌, arith}
use batchudp.Conn.Name.{contains, ipv4_name, ipv6_name, pretty_name}
use batchudp.Conn.Name.Family.{runtime_name, pretty_name-family}

-- "a/b.(*S)"
abbrev path : List ℕ
path = 97 ∷ 47 ∷ 98 ∷ 46 ∷ 40 ∷ 42 ∷ 83 ∷ 41 ∷ []

-- "makeReceive"
abbrev method : List ℕ
method = 109 ∷ 97 ∷ 107 ∷ 101 ∷ 82 ∷ 101 ∷ 99 ∷ 101 ∷ 105 ∷ 118 ∷ 101 ∷ []

-- "1", "20"
abbrev closures : List (List ℕ)
closures = (49 ∷ []) ∷ (50 ∷ 48 ∷ []) ∷ []

pretty_name-family_example :
    (pretty_name (runtime_name path (method ++ ipv4_name) closures true) ≡ some (118 ∷ 52 ∷ []))
    × (pretty_name (runtime_name path (method ++ ipv6_name) closures true) ≡ some (118 ∷ 54 ∷ []))
pretty_name-family_example =
    pretty_name-family path method closures true (unfold contains in refl) (unfold contains in refl)
      ((omega arith, (refl, tt)), ((omega arith, (refl, (refl, tt))), tt))
