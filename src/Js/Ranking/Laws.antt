-- ===== src/Js/Ranking/Laws.antt =====
-- A ranking has the counts in descending order, and its first rows are the largest counts.
use mathlib.Core.List.{Perm}
use reachable_web_observator.Common.{
  take, All, All-take, nat_eq, string_eq, ℕ, zero, suc, ◌≤◌, String, ◌≡◌, Bool, true, false, List,
  [], ◌∷◌, arith,
}
use reachable_web_observator.Js.Sort.Laws.{IsSorted, sort_by-IsSorted, sort_by-perm}
use reachable_web_observator.Js.Ranking.{Locale, ranks_before, ranked}

module _ {ℓ} {A : Type ℓ} (size : A → ℕ) where
  abbrev pub IsDescending : List A → Type 0
  IsDescending [] = Unit
  IsDescending (x ∷ xs) = All (λ y. size y ≤ size x) xs × IsDescending xs

  pub IsDescending-take : (n : ℕ) (xs : List A) → IsDescending xs → IsDescending (take n xs)
  IsDescending-take zero xs h = tt
  IsDescending-take (suc n) [] h = tt
  IsDescending-take (suc n) (x ∷ xs) h =
      (All-take (λ y. size y ≤ size x) n xs h.0, IsDescending-take n xs h.1)

  -- Elements that the comparator sorts by size first.
  module _ (before : A → A → Bool)
      (by_size : (x y : A) → before y x ≡ false → size y ≤ size x) where
    pub IsDescending-of_IsSorted : (xs : List A) → IsSorted before xs → IsDescending xs
    IsDescending-of_IsSorted [] h = tt
    IsDescending-of_IsSorted (x ∷ xs) h = (below x xs h.0, IsDescending-of_IsSorted xs h.1)
      where
        below :
            (x : A) (ys : List A) → All (λ y. before y x ≡ false) ys → All (λ y. size y ≤ size x) ys
        below x [] k = tt
        below x (y ∷ ys) k = (by_size x y k.0, below x ys k.1)

module _ (locale : Locale) where
  ranks_before-asym :
      (a b : String × ℕ) → ranks_before locale a b ≡ true → ranks_before locale b a ≡ false
  ranks_before-asym a b h = ground (arith, locale.lt_asym a.0 b.0)

  ranks_before_trans :
      (a b c : String × ℕ)
      → ranks_before locale b a ≡ false
      → ranks_before locale c b ≡ false
      → ranks_before locale c a ≡ false
  ranks_before_trans a b c h k = ground (arith, locale.lt_trans a.0 b.0 c.0)

  ranked-IsSorted :
      (counts : List (String × ℕ)) → IsSorted (ranks_before locale) (ranked locale counts)
  unfolding ranked
  ranked-IsSorted counts =
      sort_by-IsSorted (ranks_before locale) ranks_before-asym ranks_before_trans counts

  ranks_by_size : (x y : String × ℕ) → ranks_before locale y x ≡ false → y.1 ≤ x.1
  ranks_by_size x y h = ground arith

  -- A ranking has the same rows as the counts, the largest first.
  pub ranked-IsRanking :
      (counts : List (String × ℕ))
      → Perm (ranked locale counts) counts × IsDescending (λ r. r.1) (ranked locale counts)
  unfolding ranked
  ranked-IsRanking counts = (
    sort_by-perm (ranks_before locale) counts,
    IsDescending-of_IsSorted (λ r. r.1) (ranks_before locale) ranks_by_size (ranked locale counts)
        (ranked-IsSorted counts),
  )
