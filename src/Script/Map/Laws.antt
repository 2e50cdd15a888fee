-- ===== src/Script/Map/Laws.antt =====
-- Lookups after a write, and the values of a map whose keys are derived from the values.
use peer_hours.Prelude.{
  String, ◌≡◌, ◌≢◌, refl, inl, inr, none, some, [], ◌∷◌, arith, ◌==◌, text_equality, if◌then◌else◌,
  Occurs, Occurs-nil, here, there, All, Bool-cases, eq_of_==,
}
use peer_hours.Script.Map.{Map, get, set, values}

module _ {ℓ} {V : Type ℓ} where
  pub get-set :
      (m : Map V) (k j : String) (v : V) → get (set m k v) j ≡ (if k == j then some v else get m j)
  unfolding get set
  get-set [] k j v = refl
  get-set ((i, w) ∷ m) k j v = ground (arith, get-set m k j v)

  -- Every entry stands under the key of its value.
  abbrev pub IsKeyed : (V → String) → Map V → Type 0
  IsKeyed key m = All (λ e. e.0 ≡ key e.1) m

  -- No key stands twice.
  abbrev pub HasNoKey : String → Map V → Type 0
  HasNoKey k m = All (λ e. e.0 ≢ k) m

  abbrev pub HasUniqueKeys : Map V → Type 0
  HasUniqueKeys [] = Unit
  HasUniqueKeys ((k, v) ∷ m) = HasNoKey k m × HasUniqueKeys m

  pub set-IsKeyed :
      (key : V → String) (m : Map V) (v : V) → IsKeyed key m → IsKeyed key (set m (key v) v)
  unfolding set
  set-IsKeyed key [] v h = (refl, tt)
  set-IsKeyed key ((j, w) ∷ m) v (e, h) = elim (Bool-cases (j == key v)) [
    | inl same ↦ rw same (refl, h)
    | inr other ↦ rw other (e, set-IsKeyed key m v h)
  ]

  pub set-HasNoKey :
      (m : Map V) (k j : String) (v : V) → HasNoKey j m → k ≢ j → HasNoKey j (set m k v)
  unfolding set
  set-HasNoKey [] k j v h n = (n, tt)
  set-HasNoKey ((i, w) ∷ m) k j v (e, h) n = elim (Bool-cases (i == k)) [
    | inl same ↦ rw same (n, h)
    | inr other ↦ rw other (e, set-HasNoKey m k j v h n)
  ]

  pub set-HasUniqueKeys :
      (m : Map V) (k : String) (v : V) → HasUniqueKeys m → HasUniqueKeys (set m k v)
  unfolding set
  set-HasUniqueKeys [] k v h = (tt, tt)
  set-HasUniqueKeys ((i, w) ∷ m) k v (n, h) = elim (Bool-cases (i == k)) [
    | inl same ↦ rw same (let e = eq_of_== i k same in rw e at n, h)
    | inr other ↦ rw other (set-HasNoKey m k i v n (λ e. ground arith), set-HasUniqueKeys m k v h)
  ]

  pub get_of_HasNoKey : (m : Map V) (k : String) → HasNoKey k m → get m k ≡ none
  unfolding get
  get_of_HasNoKey [] k h = refl
  get_of_HasNoKey ((j, w) ∷ m) k (n, h) = ground (arith, get_of_HasNoKey m k h)

module _ {ℓ} {V : Type ℓ} (key : V → String) where
  pub Occurs-values_of_get :
      (m : Map V) (k : String) (v : V) → get m k ≡ some v → Occurs v (values m)
  unfolding get
  Occurs-values_of_get [] k v h = absurd (ground arith)
  Occurs-values_of_get ((j, w) ∷ m) k v h = elim (Bool-cases (j == k)) [
    | inl same ↦ here (ground arith)
    | inr other ↦ there (Occurs-values_of_get m k v (ground arith))
  ]

  pub get_of_Occurs-values :
      (m : Map V) (v : V)
      → IsKeyed key m
      → HasUniqueKeys m
      → Occurs v (values m)
      → get m (key v) ≡ some v
  unfolding get
  get_of_Occurs-values [] v h u o = absurd (Occurs-nil o)
  get_of_Occurs-values ((j, w) ∷ m) v (e, h) (n, u) (here same) = ground arith
  get_of_Occurs-values ((j, w) ∷ m) v (e, h) (n, u) (there o) =
      let found = get_of_Occurs-values m v h u o in
      elim (Bool-cases (j == key v)) [
        | inl same ↦ absurd (ground (arith, found, get_of_HasNoKey m j n, eq_of_== j (key v) same))
        | inr other ↦ rw other found
      ]
