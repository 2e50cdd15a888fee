-- ===== src/Script/Sort.antt =====
-- `Array.prototype.sort`, which is stable, as insertion from the right: `lt a b` says that the
-- comparator is negative at `a` and `b`.
pub mod Laws
use peer_hours.Prelude.{Bool, List, [], ◌∷◌, if◌then◌else◌}

module _ {ℓ} {A : Type ℓ} (lt : A → A → Bool) where
  unfoldable pub insert : A → List A → List A
  insert x [] = x ∷ []
  insert x (y ∷ ys) = if lt y x then y ∷ insert x ys else x ∷ y ∷ ys

  unfoldable pub sort : List A → List A
  unfolding insert
  sort [] = []
  sort (x ∷ xs) = insert x (sort xs)
