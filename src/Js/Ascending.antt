-- ===== src/Js/Ascending.antt =====
-- `[...new Set(xs)].sort((a, b) => a - b)` on numbers: strictly ascending, with the same elements.
use reachable_web_observator.Common.{
  ltb, ◌==◌, Bool-cases, All, nat_eq, string_eq, ℕ, ◌<◌, ◌≡◌, refl, ◌∙◌, inl, inr, false, not, ◌&&◌,
  ◌||◌, List, [], ◌∷◌, arith,
}
use reachable_web_observator.Js.Map.{contains, unique_from, unique}
use reachable_web_observator.Js.Sort.{insert_by, sort_by}

abbrev pub ascending : List ℕ → List ℕ
ascending xs = sort_by ltb xs

abbrev pub IsAscending : List ℕ → Type 0
IsAscending [] = Unit
IsAscending (x ∷ xs) = All (λ y. x < y) xs × IsAscending xs

-- No element stands twice.
abbrev pub IsUnique : List ℕ → Type 0
IsUnique [] = Unit
IsUnique (x ∷ xs) = (contains xs x ≡ false) × IsUnique xs

pub contains-unique_from :
    (seen xs : List ℕ) (x : ℕ)
    → contains (unique_from seen xs) x ≡ (contains xs x && not (contains seen x))
unfolding contains unique_from
contains-unique_from seen [] x = refl
contains-unique_from seen (y ∷ ys) x =
    ground (arith, contains-unique_from seen ys x, contains-unique_from (y ∷ seen) ys x)

IsUnique-unique_from : (seen xs : List ℕ) → IsUnique (unique_from seen xs)
unfolding contains unique_from
IsUnique-unique_from seen [] = tt
IsUnique-unique_from seen (y ∷ ys) = ground (
  arith,
  IsUnique-unique_from seen ys,
  IsUnique-unique_from (y ∷ seen) ys,
  contains-unique_from (y ∷ seen) ys y,
)

contains-insert_by :
    (x y : ℕ) (xs : List ℕ) → contains (insert_by ltb x xs) y ≡ (x == y || contains xs y)
unfolding contains insert_by
contains-insert_by x y [] = refl
contains-insert_by x y (z ∷ zs) = ground (arith, contains-insert_by x y zs)

contains-ascending : (xs : List ℕ) (y : ℕ) → contains (ascending xs) y ≡ contains xs y
unfolding contains sort_by
contains-ascending [] y = refl
contains-ascending (x ∷ xs) y = rw (contains-insert_by x y (ascending xs), contains-ascending xs y)

below-All : (x y : ℕ) (zs : List ℕ) → x < y → All (λ z. y < z) zs → All (λ z. x < z) zs
below-All x y [] h k = tt
below-All x y (z ∷ zs) h (p, k) = (omega arith, below-All x y zs h k)

above_insert_by :
    (y x : ℕ) (zs : List ℕ) → y < x → All (λ z. y < z) zs → All (λ z. y < z) (insert_by ltb x zs)
unfolding insert_by
above_insert_by y x [] h k = (h, tt)
above_insert_by y x (z ∷ zs) h (p, k) = elim (Bool-cases (ltb z x)) [
  | inl less ↦ rw less (p, above_insert_by y x zs h k)
  | inr more ↦ rw more (h, (p, k))
]

insert_by-IsAscending :
    (x : ℕ) (xs : List ℕ)
    → contains xs x ≡ false
    → IsAscending xs
    → IsAscending (insert_by ltb x xs)
unfolding contains insert_by
insert_by-IsAscending x [] h k = (tt, tt)
insert_by-IsAscending x (y ∷ ys) h (above, k) = elim (Bool-cases (ltb y x)) [
  | inl less ↦
      rw less
        (above_insert_by y x ys (ground arith) above, insert_by-IsAscending x ys (ground arith) k)
  | inr more ↦
      let lt : x < y = ground arith in rw more ((lt, below-All x y ys lt above), (above, k))
]

ascending-IsAscending : (xs : List ℕ) → IsUnique xs → IsAscending (ascending xs)
unfolding sort_by
ascending-IsAscending [] h = tt
ascending-IsAscending (x ∷ xs) (absent, h) =
    insert_by-IsAscending x (ascending xs) (contains-ascending xs x ∙ absent)
      (ascending-IsAscending xs h)

-- The sorted set of a list: strictly ascending, with the list's elements.
pub ascending-unique :
    (xs : List ℕ)
    → IsAscending (ascending (unique xs))
      × ((x : ℕ) → contains (ascending (unique xs)) x ≡ contains xs x)
unfolding contains
ascending-unique xs = (
  ascending-IsAscending (unique xs) (IsUnique-unique_from [] xs),
  λ x. contains-ascending (unique xs) x ∙ contains-unique_from [] xs x ∙ ground arith,
)
