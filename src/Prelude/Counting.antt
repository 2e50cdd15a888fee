-- ===== src/Prelude/Counting.antt =====
-- How often an item stands in a list, against whether it does.
use Prim.Native.Nat.{◌<◌}
use mathlib.Core.Path.{◌≡◌, refl, ap}
use mathlib.Core.Logic.{◌≢◌, inl, inr}
use mathlib.Core.List.{List, [], ◌∷◌, map}
use native.Mathlib.Omega.{arith}
use peer_hours.Prelude.Equality.{◌==◌, ==_refl, eq_of_==, Bool-cases}
use peer_hours.Prelude.Lists.{Occurs, here, there, hit, count}

module _ {ℓ} {A : Type ℓ} ⦃d : Discrete A⦄ where
  pub hit_self : (a : A) → hit a a ≡ 1
  unfolding hit
  hit_self a = rw (==_refl a, hit) refl

  pub hit_ne : (a x : A) → a ≢ x → hit a x ≡ 0
  unfolding hit
  hit_ne a x n = elim (Bool-cases (a == x)) [
    | inl same ↦ absurd (n (eq_of_== a x same))
    | inr other ↦ rw (other, hit) refl
  ]

  pub count_absent : (a : A) (xs : List A) → ¬ (Occurs a xs) → count a xs ≡ 0
  count_absent a [] n = refl
  count_absent a (x ∷ xs) n =
      omega (arith, hit_ne a x (λ e. n (here e)), count_absent a xs (λ o. n (there o)))

  pub Occurs-of_count : (a : A) (xs : List A) → 0 < count a xs → Occurs a xs
  Occurs-of_count a [] h = absurd (omega arith)
  Occurs-of_count a (x ∷ xs) h = elim (Bool-cases (a == x)) [
    | inl same ↦ here (eq_of_== a x same)
    | inr other ↦ there (
        Occurs-of_count a xs
          (let none : hit a x ≡ 0 = unfold hit in rw (other, hit) refl in omega (arith, none)))
  ]

  pub count_of_Occurs : {a : A} {xs : List A} → Occurs a xs → 0 < count a xs
  count_of_Occurs {a} (here {x} {xs} e) =
      let one : hit a x ≡ 1 = rw e (hit_self x) in omega (arith, one)
  count_of_Occurs (there o) = omega (arith, count_of_Occurs o)

module _ {ℓ κ} {A : Type ℓ} {B : Type κ} (f : A → B) where
  pub Occurs-map : {a : A} {xs : List A} → Occurs a xs → Occurs (f a) (map f xs)
  Occurs-map (here e) = here (ap f e)
  Occurs-map (there o) = there (Occurs-map o)

  pub map-Occurs : (xs : List A) {b : B} → Occurs b (map f xs) → (a : A) × Occurs a xs × (b ≡ f a)
  map-Occurs (x ∷ xs) (here e) = (x, here refl, e)
  map-Occurs (x ∷ xs) (there o) = let (a, p, e) = map-Occurs xs o in (a, there p, e)
  map-Occurs [] o = elim o [ ]
