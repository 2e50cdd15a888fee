-- ===== src/Prelude/Lists.antt =====
-- Lists measured by native numbers, and predicates on lists by recursion.
use Prim.Native.Nat.{ℕ, suc, ◌+◌}
use mathlib.Core.Path.{◌≡◌, refl}
use mathlib.Core.Logic.{◌⊎◌, inl, inr, ◌↔◌}
use mathlib.Core.Bool.{Bool, true, false, ◌||◌}
use mathlib.Core.List.{List, [], ◌∷◌, ◌++◌}
use native.Mathlib.Omega.{arith}
use peer_hours.Prelude.Equality.{◌==◌, ==_refl, eq_of_==, Bool-cases}

module _ {ℓ} {A : Type ℓ} where
  abbrev pub length : List A → ℕ
  length [] = 0
  length (x ∷ xs) = suc (length xs)

  pub length-append : (xs ys : List A) → length (xs ++ ys) ≡ length xs + length ys
  length-append [] ys = omega arith
  length-append (x ∷ xs) ys = omega (arith, length-append xs ys)

  -- `a` is an item of the list, with its place.
  pub data Occurs (a : A) : List A → Type ℓ where
    here : {x : A} {xs : List A} → a ≡ x → Occurs a (x ∷ xs)
    there : {x : A} {xs : List A} → Occurs a xs → Occurs a (x ∷ xs)

  pub Occurs-nil : {a : A} → ¬ (Occurs a [])
  Occurs-nil o = elim o [ ]

  pub Occurs-append_left : {a : A} {xs : List A} (ys : List A) → Occurs a xs → Occurs a (xs ++ ys)
  Occurs-append_left ys (here e) = here e
  Occurs-append_left ys (there o) = there (Occurs-append_left ys o)

  pub Occurs-append_right : {a : A} (xs : List A) {ys : List A} → Occurs a ys → Occurs a (xs ++ ys)
  Occurs-append_right [] o = o
  Occurs-append_right (x ∷ xs) o = there (Occurs-append_right xs o)

  pub append-Occurs : {a : A} (xs ys : List A) → Occurs a (xs ++ ys) → Occurs a xs ⊎ Occurs a ys
  append-Occurs [] ys o = inr o
  append-Occurs (x ∷ xs) ys (here e) = inl (here e)
  append-Occurs (x ∷ xs) ys (there o) = elim (append-Occurs xs ys o) [
    | inl left ↦ inl (there left)
    | inr right ↦ inr right
  ]

  -- Two lists have the same items, whatever their order and however often.
  abbrev pub SameSet : List A → List A → Type ℓ
  SameSet xs ys = (a : A) → Occurs a xs ↔ Occurs a ys

  pair_turns : {x a b : A} → Occurs x (a ∷ b ∷ []) → Occurs x (b ∷ a ∷ b ∷ [])
  pair_turns (here e) = there (here e)
  pair_turns (there (here e)) = here e
  pair_turns (there (there o)) = absurd (Occurs-nil o)

  pair_returns : {x a b : A} → Occurs x (b ∷ a ∷ b ∷ []) → Occurs x (a ∷ b ∷ [])
  pair_returns (here e) = there (here e)
  pair_returns (there (here e)) = here e
  pair_returns (there (there (here e))) = there (here e)
  pair_returns (there (there (there o))) = absurd (Occurs-nil o)

  -- A pair, turned and with one of the two repeated.
  pub SameSet-turned : (a b : A) → SameSet (a ∷ b ∷ []) (b ∷ a ∷ b ∷ [])
  SameSet-turned a b x = (pair_turns, pair_returns)

module _ {ℓ κ} {A : Type ℓ} (P : A → Type κ) where
  abbrev pub All : List A → Type κ
  All [] = Unit
  All (x ∷ xs) = P x × All xs

  pub All-of_Occurs : (xs : List A) → ((a : A) → Occurs a xs → P a) → All xs
  All-of_Occurs [] h = tt
  All-of_Occurs (x ∷ xs) h = (h x (here refl), All-of_Occurs xs (λ a o. h a (there o)))

  pub All-Occurs : {a : A} {xs : List A} → All xs → Occurs a xs → P a
  All-Occurs h (here e) = rw e h.0
  All-Occurs h (there o) = All-Occurs h.1 o

  pub All-append : (xs ys : List A) → All xs → All ys → All (xs ++ ys)
  All-append [] ys h k = k
  All-append (x ∷ xs) ys (p, h) k = (p, All-append xs ys h k)

module _ {ℓ} {A : Type ℓ} ⦃d : Discrete A⦄ where
  -- `new Set(xs).has(a)`
  abbrev pub contains : List A → A → Bool
  contains [] a = false
  contains (x ∷ xs) a = a == x || contains xs a

  pub Occurs-contains : (xs : List A) (a : A) → contains xs a ≡ true → Occurs a xs
  Occurs-contains [] a h = cc
  Occurs-contains (x ∷ xs) a h = elim (Bool-cases (a == x)) [
    | inl same ↦ here (eq_of_== a x same)
    | inr other ↦ there (Occurs-contains xs a (ground arith))
  ]

  pub contains-Occurs : {a : A} {xs : List A} → Occurs a xs → contains xs a ≡ true
  contains-Occurs (here {x} e) = rw (e, ==_refl x)
  contains-Occurs (there o) = ground (arith, contains-Occurs o)

  pub contains-append_left :
      (xs ys : List A) (a : A) → contains xs a ≡ true → contains (xs ++ ys) a ≡ true
  contains-append_left [] ys a h = cc
  contains-append_left (x ∷ xs) ys a h = ground (arith, contains-append_left xs ys a)

  -- How often an item stands in a list.
  unfoldable pub hit : A → A → ℕ
  hit a x = elim (a == x) [ true ↦ 1 | false ↦ 0 ]

  abbrev pub count : A → List A → ℕ
  count a [] = 0
  count a (x ∷ xs) = hit a x + count a xs

  pub count-append : (a : A) (xs ys : List A) → count a (xs ++ ys) ≡ count a xs + count a ys
  count-append a [] ys = omega arith
  count-append a (x ∷ xs) ys = omega (arith, count-append a xs ys)
