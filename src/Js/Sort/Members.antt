-- ===== src/Js/Sort/Members.antt =====
-- Membership in lists, and in what a sort returns.
use mathlib.Core.List.{Memᴰ}
use reachable_web_observator.Common.{All, nat_eq, string_eq, refl, sym, subst, Bool, List, [], ◌∷◌}
use reachable_web_observator.Js.Sort.{sort_by}
use reachable_web_observator.Js.Sort.Laws.{All-sort_by}

module _ {ℓ κ} {A : Type ℓ} (P : A → Type κ) where
  pub All-mem : (xs : List A) (a : A) → All P xs → Memᴰ a xs → P a
  All-mem [] a h m = elim m [ ]
  All-mem (x ∷ xs) a h (Memᴰ.head e) = subst P (sym e) h.0
  All-mem (x ∷ xs) a h (Memᴰ.tail m) = All-mem xs a h.1 m

  pub All-of_mem : (xs : List A) → ((a : A) → Memᴰ a xs → P a) → All P xs
  All-of_mem [] h = tt
  All-of_mem (x ∷ xs) h = (h x (Memᴰ.head refl), All-of_mem xs (λ a m. h a (Memᴰ.tail m)))

-- What is sorted was given.
pub mem-sort_by {ℓ} :
    {A : Type ℓ} (before : A → A → Bool) (xs : List A) → All (λ a. Memᴰ a xs) (sort_by before xs)
mem-sort_by before xs =
    All-sort_by before (λ a. Memᴰ a xs) xs (All-of_mem (λ a. Memᴰ a xs) xs (λ a m. m))
