-- ===== src/Stats/Rates/Laws.antt =====
-- Rounding, and what the ranking of networks shows.
use mathlib.Core.List.{Memᴰ}
use reachable_web_observator.Common.{
  ltb, leb, or_else, ltb→lt, Bool-cases, length, take, length-take, All, All-take, nat_eq,
  string_eq, ℕ, zero, suc, ◌+◌, ◌*◌, ◌≤◌, ◌<◌, String, ◌≡◌, refl, ap, ◌⊎◌, inl, inr, true, false,
  List, [], ◌∷◌, arith,
}
use native.Mathlib.Nat.{lt-mul-div-succ, mul-div-le, div-lt_iff_lt-mul}
use reachable_web_observator.Js.Map.{lookup}
use reachable_web_observator.Js.Sort.{sort_by}
use reachable_web_observator.Js.Sort.Members.{All-mem, All-of_mem}
use reachable_web_observator.Js.Sort.Laws.{sort_by-IsSorted, All-sort_by, All-of-sort_by}
use reachable_web_observator.Js.Ranking.{Locale}
use reachable_web_observator.Js.Ranking.Laws.{
  IsDescending, IsDescending-take, IsDescending-of_IsSorted,
}
use reachable_web_observator.Api.Types.{Counts}
use reachable_web_observator.Stats.Rates.{
  percent, rounded, NetworkRow, row_before, eligible_rows, network_rates,
}

positive : (total : ℕ) → 1 ≤ total → ltb 0 total ≡ true
positive total h = ground arith

-- A share of a positive total is rounded to the nearest percent: it is off by half a percent at
-- most.
percent-nearest :
    (value total : ℕ)
    → 1 ≤ total
    → (200 * value ≤ 2 * total * percent value total + total)
      × (2 * total * percent value total ≤ 200 * value + total)
unfolding percent
percent-nearest value total h = rw (positive total h) (
  omega (arith, lt-mul-div-succ (200 * value + total) {b = 2 * total} (omega arith)),
  mul-div-le (200 * value + total) (2 * total),
)

rounded-bound : (value total : ℕ) → 0 < total → value ≤ total → rounded value total ≤ 100
rounded-bound value total t h =
    let small =
      (div-lt_iff_lt-mul {k = 2 * total} {x = 200 * value + total} {y = 101} (omega arith)).1
        (omega arith) in
    omega arith

-- A part of a total is at most 100 percent of it.
percent-bound : (value total : ℕ) → value ≤ total → percent value total ≤ 100
unfolding percent
percent-bound value total h = elim (Bool-cases (ltb 0 total)) [
  | inl some_ ↦ rw some_ (rounded-bound value total (ltb→lt 0 total some_) h)
  | inr none_ ↦ rw none_ (omega arith)
]

module _ (locale : Locale) where
  row_before-asym :
      (a b : NetworkRow) → row_before locale a b ≡ true → row_before locale b a ≡ false
  row_before-asym a b h = ground (arith, locale.lt_asym a.label b.label)

  row_before_trans :
      (a b c : NetworkRow)
      → row_before locale b a ≡ false
      → row_before locale c b ≡ false
      → row_before locale c a ≡ false
  row_before_trans a b c h k = ground (arith, locale.lt_trans a.label b.label c.label)

  row_by_rate : (x y : NetworkRow) → row_before locale y x ≡ false → y.rate ≤ x.rate
  row_by_rate x y h = ground arith

  IsDescending-sorted :
      (rows : List NetworkRow) → IsDescending (λ r. r.rate) (sort_by (row_before locale) rows)
  IsDescending-sorted rows =
      IsDescending-of_IsSorted (λ r. r.rate) (row_before locale) row_by_rate _
        (sort_by-IsSorted (row_before locale) row_before-asym row_before_trans rows)

-- Either `r` is in `shown`, or `shown` is full and every row in it has at least the rate of `r`.
abbrev pub IsBeaten : ℕ → List NetworkRow → NetworkRow → Type 0
IsBeaten n shown r = Memᴰ r shown ⊎ ((length shown ≡ n) × All (λ s. r.rate ≤ s.rate) shown)

take-IsBeaten :
    (n : ℕ) (rows : List NetworkRow) (r : NetworkRow)
    → IsDescending (λ x. x.rate) rows
    → Memᴰ r rows
    → IsBeaten n (take n rows) r
take-IsBeaten zero rows r d m = inr (refl, tt)
take-IsBeaten (suc n) [] r d m = elim m [ ]
take-IsBeaten (suc n) (x ∷ rows) r d (Memᴰ.head e) = inl (Memᴰ.head e)
take-IsBeaten (suc n) (x ∷ rows) r d (Memᴰ.tail m) = elim (take-IsBeaten n rows r d.1 m) [
  | inl shown ↦ inl (Memᴰ.tail shown)
  | inr (full, above) ↦ inr (ap suc full, ((All-mem (λ e. e.rate ≤ x.rate) rows r d.0 m), above))
]

-- The row of a network with its number of hosts: how many of them are flagged, and the share.
abbrev pub row_of : Counts → String × ℕ → NetworkRow
row_of flagged entry = record {
  label = entry.0;
  base = entry.1;
  flagged = or_else (lookup entry.0 flagged) 0;
  rate = percent (or_else (lookup entry.0 flagged) 0) entry.1;
}

-- The row is that of a network of the window, which has enough hosts.
abbrev pub IsRowOf : Counts → Counts → ℕ → NetworkRow → Type 0
IsRowOf flagged total min_base r =
    (entry : String × ℕ) × Memᴰ entry total × (min_base ≤ entry.1) × (r ≡ row_of flagged entry)

-- The ranking of the networks: at most ten rows, by descending rate, each of a network with enough
-- hosts; a network of the window has too few hosts, or is shown, or ten others have at least its
-- rate.
pub record IsRateRanking (flagged total : Counts) (min_base : ℕ) (rows : List NetworkRow)
    : Type 0 where
  pub bounded : length rows ≤ 10
  pub descending : IsDescending (λ r. r.rate) rows
  pub grounded : All (IsRowOf flagged total min_base) rows
  pub complete : All (λ e. (e.1 < min_base) ⊎ IsBeaten 10 rows (row_of flagged e)) total

IsRowOf-tail :
    (flagged total : Counts) (min_base : ℕ) (entry : String × ℕ) (rows : List NetworkRow)
    → All (IsRowOf flagged total min_base) rows
    → All (IsRowOf flagged (entry ∷ total) min_base) rows
IsRowOf-tail flagged total min_base entry [] h = tt
IsRowOf-tail flagged total min_base entry (r ∷ rows) ((e, m, enough, same), h) =
    ((e, Memᴰ.tail m, enough, same), IsRowOf-tail flagged total min_base entry rows h)

eligible_rows-IsRowOf :
    (flagged total : Counts) (min_base : ℕ)
    → All (IsRowOf flagged total min_base) (eligible_rows flagged total min_base)
unfolding eligible_rows
eligible_rows-IsRowOf flagged [] min_base = tt
eligible_rows-IsRowOf flagged (entry ∷ total) min_base =
    let rest =
      IsRowOf-tail flagged total min_base entry _ (eligible_rows-IsRowOf flagged total min_base) in
    elim (Bool-cases (leb min_base entry.1)) [
      | inl enough ↦ rw enough ((entry, Memᴰ.head refl, ground arith, refl), rest)
      | inr few ↦ rw few rest
    ]

-- What holds of every eligible row holds of every network with enough hosts.
All-of-eligible_rows :
    (P : NetworkRow → Type 0) (flagged total : Counts) (min_base : ℕ)
    → All P (eligible_rows flagged total min_base)
    → All (λ e. (e.1 < min_base) ⊎ P (row_of flagged e)) total
unfolding eligible_rows
All-of-eligible_rows P flagged [] min_base h = tt
All-of-eligible_rows P flagged (entry ∷ total) min_base h =
    elim (Bool-cases (leb min_base entry.1)) [
      | inl enough ↦
          let (here, rest) = rw enough at h in
          (inr here, All-of-eligible_rows P flagged total min_base rest)
      | inr few ↦
          let rest = rw few at h in
          (inl (ground arith), All-of-eligible_rows P flagged total min_base rest)
    ]

-- The list of networks is a ranking by rate: it has at most ten rows in descending order, each row
-- is that of a network of the window with at least the minimum of hosts, and each network of the
-- window has fewer hosts than that, or is shown, or ten others are shown with at least its rate.
pub network_rates-IsRateRanking :
    (locale : Locale) (flagged total : Counts) (min_base : ℕ)
    → IsRateRanking flagged total min_base (network_rates locale flagged total min_base)
unfolding network_rates
network_rates-IsRateRanking locale flagged total min_base =
    let rows = eligible_rows flagged total min_base in
    let sorted = sort_by (row_before locale) rows in
    let order = IsDescending-sorted locale rows in
    record {
      bounded = omega (arith, length-take 10 sorted);
      descending = IsDescending-take (λ r. r.rate) 10 sorted order;
      grounded = All-take (IsRowOf flagged total min_base) 10 sorted (
          All-sort_by (row_before locale) (IsRowOf flagged total min_base) rows
            (eligible_rows-IsRowOf flagged total min_base));
      complete = All-of-eligible_rows (IsBeaten 10 (take 10 sorted)) flagged total min_base (
          All-of-sort_by (row_before locale) (IsBeaten 10 (take 10 sorted)) rows (
            All-of_mem (IsBeaten 10 (take 10 sorted)) sorted
              (λ r m. take-IsBeaten 10 sorted r order m)));
    }
