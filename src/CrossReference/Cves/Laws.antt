-- ===== src/CrossReference/Cves/Laws.antt =====
-- The groups of a host's CVE records.
use reachable_web_observator.Common.{
  if◌then◌else◌, Bool-cases, All, All-append, nat_eq, string_eq, ℕ, ◌+◌, String, ◌≡◌, refl, sym,
  ◌∙◌, subst, ◌≢◌, inl, inr, Bool, Option, none, some, List, [], ◌∷◌, ◌++◌, arith, str_eq, eq_iff,
}
use reachable_web_observator.Js.Map.{upsert}
use reachable_web_observator.Js.Map.Laws.{IsDistinct, IsFresh}
use reachable_web_observator.Js.Grouping.{group_from}
use reachable_web_observator.Js.Grouping.Laws.{group_from-IsDistinct}
use reachable_web_observator.Js.Ranking.{Locale}
use reachable_web_observator.Js.Sort.{insert_by, sort_by}
use reachable_web_observator.Js.Sort.Laws.{IsSorted, sort_by-IsSorted, All-sort_by}
use reachable_web_observator.CrossReference.Cves.Years.{IsOf, cve_year-IsOf}
use reachable_web_observator.CrossReference.Cves.{
  Groups, cve_year, append_cve, cves_by_year, later_year, cve_groups,
}

-- How often a record stands in a list, and in the groups.
unfoldable pub occurrences : String → List String → ℕ
occurrences c [] = 0
occurrences c (x ∷ xs) = let rest = occurrences c xs in if str_eq x c then rest + 1 else rest

unfoldable pub grouped : String → Groups → ℕ
unfolding occurrences
grouped c [] = 0
grouped c (g ∷ groups) = occurrences c g.1 + grouped c groups

abbrev pub IsOfYear : String × List String → Type 0
IsOfYear g = All (λ c. cve_year c ≡ g.0) g.1

-- Every record stands as often as it was given, under the year that it names, or under "Other" if it
-- names none; no year has two groups, and in the locale's order no year comes before one that is
-- later.
pub record IsGrouped (locale : Locale) (items : List String) (groups : Groups) : Type 0 where
  pub placed : All (λ g. All (λ c. IsOf c g.0) g.1) groups
  pub complete : (c : String) → grouped c groups ≡ occurrences c items
  pub distinct : IsDistinct groups
  pub ordered : IsSorted (λ g h. locale.lt h.0 g.0) groups

occurrences-append :
    (c : String) (xs ys : List String)
    → occurrences c (xs ++ ys) ≡ occurrences c xs + occurrences c ys
unfolding occurrences
occurrences-append c [] ys = omega arith
occurrences-append c (x ∷ xs) ys = ground (arith, occurrences-append c xs ys)

abbrev Before : Type 0
Before = String × List String → String × List String → Bool

abbrev extend : String → Option (List String) → List String
extend c none = c ∷ []
extend c (some g) = append_cve g c

grouped-upsert :
    (c k x : String) (groups : Groups)
    → grouped c (upsert k (extend x) groups) ≡ occurrences c (x ∷ []) + grouped c groups
unfolding grouped upsert
grouped-upsert c k x [] = omega arith
grouped-upsert c k x ((j, g) ∷ groups) =
    ground (arith, occurrences-append c g (x ∷ []), grouped-upsert c k x groups)

grouped-group_from :
    (c : String) (groups : Groups) (items : List String)
    → grouped c (group_from cve_year (λ x. x ∷ []) append_cve groups items)
      ≡ grouped c groups + occurrences c items
unfolding group_from occurrences
grouped-group_from c groups [] = omega arith
grouped-group_from c groups (x ∷ items) = ground (
  arith,
  grouped-group_from c (upsert (cve_year x) (extend x) groups) items,
  grouped-upsert c (cve_year x) x groups,
)

grouped-insert_by :
    (before : Before) (c : String) (g : String × List String) (groups : Groups)
    → grouped c (insert_by before g groups) ≡ occurrences c g.1 + grouped c groups
unfolding grouped insert_by
grouped-insert_by before c g [] = omega arith
grouped-insert_by before c g (h ∷ groups) = ground (arith, grouped-insert_by before c g groups)

grouped-sort_by :
    (before : Before) (c : String) (groups : Groups)
    → grouped c (sort_by before groups) ≡ grouped c groups
unfolding grouped sort_by
grouped-sort_by before c [] = refl
grouped-sort_by before c (g ∷ groups) =
    omega
      (arith, grouped-insert_by before c g (sort_by before groups), grouped-sort_by before c groups)

IsOfYear-upsert :
    (x : String) (groups : Groups)
    → All IsOfYear groups
    → All IsOfYear (upsert (cve_year x) (extend x) groups)
unfolding upsert
IsOfYear-upsert x [] h = ((refl, tt), tt)
IsOfYear-upsert x ((j, g) ∷ groups) (here, h) = elim (Bool-cases (str_eq j (cve_year x))) [
  | inl found ↦ rw found (
    All-append (λ c. cve_year c ≡ j) g (x ∷ []) here (sym ((eq_iff j (cve_year x)).0 found), tt),
    h,
  )
  | inr apart ↦ rw apart (here, IsOfYear-upsert x groups h)
]

IsOfYear-group_from :
    (groups : Groups) (items : List String)
    → All IsOfYear groups
    → All IsOfYear (group_from cve_year (λ x. x ∷ []) append_cve groups items)
unfolding group_from
IsOfYear-group_from groups [] h = h
IsOfYear-group_from groups (x ∷ items) h =
    IsOfYear-group_from (upsert (cve_year x) (extend x) groups) items (IsOfYear-upsert x groups h)

IsFresh-insert_by :
    (before : Before) (j : String) (g : String × List String) (groups : Groups)
    → g.0 ≢ j
    → IsFresh j groups
    → IsFresh j (insert_by before g groups)
unfolding insert_by
IsFresh-insert_by before j g [] ne h = (ne, tt)
IsFresh-insert_by before j g (k ∷ groups) ne (here, h) = elim (Bool-cases (before k g)) [
  | inl first ↦ rw first (here, IsFresh-insert_by before j g groups ne h)
  | inr later ↦ rw later (ne, (here, h))
]

IsDistinct-insert_by :
    (before : Before) (g : String × List String) (groups : Groups)
    → IsFresh g.0 groups
    → IsDistinct groups
    → IsDistinct (insert_by before g groups)
unfolding insert_by
IsDistinct-insert_by before g [] fresh h = (tt, tt)
IsDistinct-insert_by before g (k ∷ groups) (ne, fresh) (apart, h) = elim (Bool-cases (before k g)) [
  | inl first ↦ rw first (
    IsFresh-insert_by before k.0 g groups (λ e. ne (sym e)) apart,
    IsDistinct-insert_by before g groups fresh h,
  )
  | inr later ↦ rw later ((ne, fresh), (apart, h))
]

IsFresh-sort_by :
    (before : Before) (j : String) (groups : Groups)
    → IsFresh j groups
    → IsFresh j (sort_by before groups)
unfolding sort_by
IsFresh-sort_by before j [] h = tt
IsFresh-sort_by before j (g ∷ groups) (ne, h) =
    IsFresh-insert_by before j g (sort_by before groups) ne (IsFresh-sort_by before j groups h)

IsDistinct-sort_by :
    (before : Before) (groups : Groups) → IsDistinct groups → IsDistinct (sort_by before groups)
unfolding sort_by
IsDistinct-sort_by before [] h = tt
IsDistinct-sort_by before (g ∷ groups) (fresh, h) =
    IsDistinct-insert_by before g (sort_by before groups) (IsFresh-sort_by before g.0 groups fresh)
      (IsDistinct-sort_by before groups h)

IsOf-IsOfYear :
    (y : String) (cs : List String) → All (λ c. cve_year c ≡ y) cs → All (λ c. IsOf c y) cs
IsOf-IsOfYear y [] h = tt
IsOf-IsOfYear y (c ∷ cs) (e, h) = (subst (IsOf c) e (cve_year-IsOf c), IsOf-IsOfYear y cs h)

placed-IsOfYear :
    (groups : Groups) → All IsOfYear groups → All (λ g. All (λ c. IsOf c g.0) g.1) groups
placed-IsOfYear [] h = tt
placed-IsOfYear (g ∷ groups) (here, h) = (IsOf-IsOfYear g.0 g.1 here, placed-IsOfYear groups h)

-- The groups of a host's records: each record stands as often as it was given, under the four digits
-- of its year if it starts with "CVE-", in any case, these digits and a hyphen, and under "Other"
-- if it does not; no year has two groups, and the groups run from the latest year to the earliest
-- in the locale's order.
pub cve_groups-IsGrouped :
    (locale : Locale) (items : List String) → IsGrouped locale items (cve_groups locale items)
unfolding cve_groups cves_by_year grouped
cve_groups-IsGrouped locale items =
    let before = later_year locale in
    let groups = group_from cve_year (λ x. x ∷ []) append_cve [] items in
    record {
      placed =
          placed-IsOfYear _ (All-sort_by before IsOfYear groups (IsOfYear-group_from [] items tt));
      complete = λ c. grouped-sort_by before c groups ∙ grouped-group_from c [] items ∙ omega arith;
      distinct =
          IsDistinct-sort_by before groups
            (group_from-IsDistinct cve_year (λ x. x ∷ []) append_cve [] items tt);
      ordered =
          sort_by-IsSorted before (λ x y. locale.lt_asym y.0 x.0)
            (λ x y z h k. locale.lt_trans z.0 y.0 x.0 k h) groups;
    }
