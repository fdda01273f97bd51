-- ===== src/Connector/Values.antt =====
-- url.Values: the parameters of a query, each with its values.
use datafusion_go.Base.{
  String, str_eq, eq_iff, ◌≡◌, refl, Option, none, some, List, [], ◌∷◌, arith, if◌then◌else◌,
}

abbrev pub Values : Type 0
Values = List (String × List String)

unfoldable pub lookup : String → Values → Option (List String)
lookup key [] = none
lookup key ((k, vs) ∷ rest) = if str_eq k key then some vs else lookup key rest

-- Values.Del, and Go's `delete` of the map.
unfoldable pub delete : String → Values → Values
delete key [] = []
delete key ((k, vs) ∷ rest) =
    let kept = delete key rest in if str_eq k key then kept else (k, vs) ∷ kept

-- Values.Set.
unfoldable pub set_value : String → String → Values → Values
unfolding delete
set_value key v vs = (key, v ∷ []) ∷ delete key vs

pub lookup-delete :
    (key j : String) (vs : Values)
    → lookup key (delete j vs) ≡ (if str_eq key j then none else lookup key vs)
unfolding lookup delete
lookup-delete key j [] = ground arith
lookup-delete key j ((k, v) ∷ rest) =
    ground (arith, eq_iff k j, eq_iff k key, eq_iff key j, lookup-delete key j rest)

pub lookup-set_value :
    (key j v : String) (vs : Values)
    → lookup key (set_value j v vs) ≡ (if str_eq key j then some (v ∷ []) else lookup key vs)
unfolding lookup set_value
lookup-set_value key j v vs = ground (arith, eq_iff j key, eq_iff key j, lookup-delete key j vs)

pub delete_absent : (key : String) (vs : Values) → lookup key vs ≡ none → delete key vs ≡ vs
unfolding lookup delete
delete_absent key [] h = refl
delete_absent key ((k, v) ∷ rest) h = ground (arith, delete_absent key rest)
