-- ===== src/Prelude/Equality.antt =====
-- Equality tests: JavaScript's `===` on texts, and on records the comparison of their JSON texts
-- (the records that the source compares so have a fixed order of keys).
use Prim.Native.Nat.{ℕ}
use Prim.Native.String.{String}
use mathlib.Core.Path.{◌≡◌, refl}
use mathlib.Core.Logic.{◌≢◌, ◌⊎◌, inl, inr}
use mathlib.Core.Bool.{Bool, true, false, not}
use mathlib.Core.Option.{Option, none, some}
use native.Mathlib.Omega.{arith}
use native.Mathlib.Decide.{ℕ_discrete}
use text.Mathlib.Text.{◌==◌ as str_eq}
use text.Mathlib.TextEquality.{eq_iff}

decision : (a b : String) (t : Bool) → str_eq a b ≡ t → Dec (a ≡ b)
decision a b true h = yes ((eq_iff a b).0 h)
decision a b false h = no (λ e. ground (arith, eq_iff a b))

unfoldable pub String-discrete : Discrete String
unfolding decision
String-discrete a b = decision a b (str_eq a b) refl

instance abbrev pub text_equality : Discrete String
text_equality = String-discrete

instance abbrev pub count_equality : Discrete ℕ
count_equality = ℕ_discrete

abbrev pub holds {ℓ} : {P : Type ℓ} → Dec P → Bool
holds (yes _) = true
holds (no _) = false

infix 50 ◌==◌ ◌!=◌
abbrev pub ◌==◌ {ℓ} : {A : Type ℓ} ⦃d : Discrete A⦄ → A → A → Bool
◌==◌ ⦃d⦄ a b = holds (d a b)

abbrev pub ◌!=◌ {ℓ} : {A : Type ℓ} ⦃d : Discrete A⦄ → A → A → Bool
a != b = not (a == b)

infix 1 if◌then◌else◌
abbrev pub if◌then◌else◌ {ℓ} : {A : Type ℓ} → Bool → A → A → A
if true then x else y = x
if false then x else y = y

-- To split on a computed value and keep the equation.
pub Bool-cases : (b : Bool) → (b ≡ true) ⊎ (b ≡ false)
Bool-cases true = inl refl
Bool-cases false = inr refl

pub Option-cases {ℓ} : {A : Type ℓ} (o : Option A) → (o ≡ none) ⊎ ((a : A) × (o ≡ some a))
Option-cases none = inl refl
Option-cases (some a) = inr (a, refl)

module _ {ℓ} {A : Type ℓ} ⦃d : Discrete A⦄ where
  pub ==_refl : (a : A) → (a == a) ≡ true
  ==_refl a = elim (d a a) as (λ t. holds t ≡ true) [ yes _ ↦ refl | no n ↦ absurd (n refl) ]

  pub eq_of_== : (a b : A) → (a == b) ≡ true → a ≡ b
  eq_of_== a b h = elim (Dec-cases (d a b)) [ inl e ↦ e | inr n ↦ ground arith ]
    where
      Dec-cases : Dec (a ≡ b) → (a ≡ b) ⊎ (a ≢ b)
      Dec-cases (yes e) = inl e
      Dec-cases (no n) = inr n
