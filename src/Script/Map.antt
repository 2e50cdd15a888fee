-- ===== src/Script/Map.antt =====
-- `Map` with text keys, as an association list in the order of insertion. Setting a key again
-- replaces its value in place.
pub mod Laws
use peer_hours.Prelude.{
  String, Bool, Option, none, some, List, [], ◌∷◌, map, ◌==◌, text_equality, if◌then◌else◌,
}

abbrev pub Map {ℓ} : Type ℓ → Type ℓ
Map V = List (String × V)

module _ {ℓ} {V : Type ℓ} where
  unfoldable pub get : Map V → String → Option V
  get [] k = none
  get ((j, v) ∷ m) k = if j == k then some v else get m k

  unfoldable pub set : Map V → String → V → Map V
  set [] k v = (k, v) ∷ []
  set ((j, w) ∷ m) k v = if j == k then (k, v) ∷ m else (j, w) ∷ set m k v

  abbrev pub has : Map V → String → Bool
  has m k = elim (get m k) [ none ↦ Bool.false | some _ ↦ Bool.true ]

  abbrev pub value_of : String × V → V
  value_of (k, v) = v

  abbrev pub values : Map V → List V
  values m = map value_of m
