-- ===== src/Script/Collect/Distinct.antt =====
-- Collecting items that have distinct keys keeps them all, in their order.
use peer_hours.Prelude.{
  String, ◌≡◌, ◌≢◌, refl, sym, ap, ◌∙◌, List, [], ◌∷◌, ◌++◌, ◌==◌, text_equality, All,
  All-of_Occurs, Error, Result, ok, eq_of_ok, inl, inr, Bool-cases, eq_of_==, map,
}
use mathlib.Core.Path.{subst}
use peer_hours.Script.Map.{Map, set, values}
use peer_hours.Script.Map.Laws.{HasNoKey, IsKeyed, HasUniqueKeys, set-HasNoKey}
use peer_hours.Script.Collect.{collect, collect-cons}

append_assoc {ℓ} : {A : Type ℓ} (xs ys zs : List A) → (xs ++ ys) ++ zs ≡ xs ++ (ys ++ zs)
append_assoc [] ys zs = refl
append_assoc (x ∷ xs) ys zs = ap (λ l. x ∷ l) (append_assoc xs ys zs)

append_nil {ℓ} : {A : Type ℓ} (xs : List A) → xs ++ [] ≡ xs
append_nil [] = refl
append_nil (x ∷ xs) = ap (λ l. x ∷ l) (append_nil xs)

module _ {B : Type 0} where
  values-set_new :
      (m : Map B) (k : String) (v : B) → HasNoKey k m → values (set m k v) ≡ values m ++ (v ∷ [])
  unfolding set
  values-set_new [] k v h = refl
  values-set_new ((j, w) ∷ m) k v (n, h) = elim (Bool-cases (j == k)) [
    | inl same ↦ absurd (n (eq_of_== j k same))
    | inr other ↦ rw (other, values-set_new m k v h) refl
  ]

module _ {B : Type 0} (key : B → String) where
  -- No two places have items with one key.
  abbrev pub IsDistinct : List B → Type 0
  IsDistinct [] = Unit
  IsDistinct (x ∷ xs) = All (λ y. key x ≢ key y) xs × IsDistinct xs

  later_fresh :
      (m : Map B) (x : B) (xs : List B)
      → All (λ y. HasNoKey (key y) m) xs
      → All (λ y. key x ≢ key y) xs
      → All (λ y. HasNoKey (key y) (set m (key x) x)) xs
  later_fresh m x [] h k = tt
  later_fresh m x (y ∷ ys) (p, h) (n, k) =
      (set-HasNoKey m (key x) (key y) x p n, later_fresh m x ys h k)

  module _ ⦃d : Discrete B⦄ (check : B → Result B) (conflict : Error)
      (self : (x b : B) → check x ≡ ok b → b ≡ x) where
    values-collect :
        (xs : List B) (m n : Map B)
        → All (λ y. HasNoKey (key y) m) xs
        → IsDistinct xs
        → collect check key conflict m xs ≡ ok n
        → values n ≡ values m ++ xs
    unfolding collect
    values-collect [] m n new apart h =
        let e : m ≡ n = eq_of_ok m n h in rw (← e) (sym (append_nil (values m)))
    values-collect (x ∷ xs) m n (p, new) (q, apart) h =
        let (b, e, c, r) = collect-cons check key conflict m x xs h in
        let same : b ≡ x = self x b e in
        let r' : collect check key conflict (set m (key x) x) xs ≡ ok n =
          subst (λ y. collect check key conflict (set m (key y) y) xs ≡ ok n) same r in
        let later = values-collect xs (set m (key x) x) n (later_fresh m x xs new q) apart r' in
        later
        ∙ ap (λ l. l ++ xs) (values-set_new m (key x) x p)
        ∙ append_assoc (values m) (x ∷ []) xs

    pub values-collect_distinct :
        (xs : List B) (n : Map B)
        → IsDistinct xs
        → collect check key conflict [] xs ≡ ok n
        → values n ≡ xs
    values-collect_distinct xs n apart h =
        values-collect xs [] n (All-of_Occurs _ xs (λ a o. tt)) apart h

-- What is read from the values of a map, under the keys of the map, is distinct.
module _ {B C : Type 0} (key : B → String) (part : B → C) (name : C → String)
    (named : (b : B) → name (part b) ≡ key b) where
  apart_from :
      (k : String) (m : Map B)
      → IsKeyed key m
      → HasNoKey k m
      → All (λ y. k ≢ name y) (map part (values m))
  apart_from k [] w n = tt
  apart_from k ((j, v) ∷ m) (e, w) (n, h) = (λ p. n (e ∙ sym (named v) ∙ sym p), apart_from k m w h)

  pub map-IsDistinct :
      (m : Map B) → IsKeyed key m → HasUniqueKeys m → IsDistinct name (map part (values m))
  map-IsDistinct [] w u = tt
  map-IsDistinct ((j, v) ∷ m) (e, w) (n, u) = (
    subst (λ k. All (λ y. k ≢ name y) (map part (values m))) (e ∙ sym (named v))
        (apart_from j m w n),
    map-IsDistinct m w u,
  )
