-- ===== src/Js/Sort.antt =====
-- `Array.prototype.sort` with a comparator: a stable sort. `before x y` says that the comparator
-- wants `x` strictly before `y`.
pub mod Laws
pub mod Members
use reachable_web_observator.Common.{Bool, List, [], ◌∷◌, if◌then◌else◌}

module _ {ℓ} {A : Type ℓ} (before : A → A → Bool) where
  -- The new element comes from further left, so it goes in front of its equals.
  unfoldable pub insert_by : A → List A → List A
  insert_by x [] = x ∷ []
  insert_by x (y ∷ ys) = if before y x then y ∷ insert_by x ys else x ∷ y ∷ ys

  unfoldable pub sort_by : List A → List A
  unfolding insert_by
  sort_by [] = []
  sort_by (x ∷ xs) = insert_by x (sort_by xs)
