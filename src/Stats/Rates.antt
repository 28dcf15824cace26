-- ===== src/Stats/Rates.antt =====
-- The rates and the rankings of the statistics page. `Math.round` of a quotient is taken exactly:
-- the nearest integer, and the greater one half-way.
pub mod Laws
use reachable_web_observator.Common.{
  ltb, leb, ◌==◌, if◌then◌else◌, or_else, take, keep, last_or, nat_eq, string_eq, ℕ, ◌+◌, ◌-◌, ◌*◌,
  ◌/◌, String, Bool, not, ◌&&◌, ◌||◌, Option, none, some, List, [], ◌∷◌, map,
}
use reachable_web_observator.Int.{ℤ, pos, difference, is_zero}
use reachable_web_observator.Js.Map.{lookup, put}
use reachable_web_observator.Js.Sort.{sort_by}
use reachable_web_observator.Js.Ranking.{Locale, ranked}
use reachable_web_observator.Api.Types.{Counts, Coverage, DailyRollup, FlaggedPoint}

-- `Math.round((value / total) * 100)`
abbrev pub rounded : ℕ → ℕ → ℕ
rounded value total = (200 * value + total) / (2 * total)

unfoldable pub percent : ℕ → ℕ → ℕ
percent value total = if ltb 0 total then rounded value total else 0

unfoldable pub sum_values : Counts → ℕ
sum_values [] = 0
sum_values ((label, value) ∷ data_) = value + sum_values data_

abbrev pub count_of : String → Counts → ℕ
count_of label counts = or_else (lookup label counts) 0

abbrev pub rate_from : ℕ → ℕ → Option ℕ → Option ℕ
rate_from min_sample f none = none
rate_from min_sample f (some t) = if ltb 0 t && leb min_sample t then some (rounded f t) else none

abbrev pub rate_row : String → Option ℕ → Counts → Counts
rate_row label none out = out
rate_row label (some rate) out = (label, rate) ∷ out

-- The labels of `flagged` are distinct, so each rate is a new entry of the result.
unfoldable pub rate_map : Counts → Counts → ℕ → Counts
rate_map [] total min_sample = []
rate_map ((label, f) ∷ flagged) total min_sample =
    rate_row label (rate_from min_sample f (lookup label total)) (rate_map flagged total min_sample)

unfoldable pub count_with_minimum_base : Counts → Counts → ℕ → Counts
count_with_minimum_base flagged total min_sample =
    keep (λ entry. leb min_sample (count_of entry.0 total)) flagged

-- `BarList`: the rows, and the width that `BarRow` gives them.
unfoldable pub bar_rows : Locale → Counts → ℕ → Counts
bar_rows locale data_ limit = take limit (ranked locale data_)

pub record NetworkRow : Type 0 where
  pub label : String
  pub base : ℕ
  pub flagged : ℕ
  pub rate : ℕ

abbrev pub network_row : Counts → String × ℕ → NetworkRow
network_row flagged (label, base) = record {
  label = label;
  base = base;
  flagged = count_of label flagged;
  rate = percent (count_of label flagged) base;
}

-- `b.rate - a.rate || b.base - a.base || a.label.localeCompare(b.label)`
abbrev pub row_before : Locale → NetworkRow → NetworkRow → Bool
row_before locale a b =
    ltb b.rate a.rate
    || a.rate == b.rate && (ltb b.base a.base || a.base == b.base && locale.lt a.label b.label)

unfoldable pub eligible_rows : Counts → Counts → ℕ → List NetworkRow
eligible_rows flagged total min_base =
    map (network_row flagged) (keep (λ entry. leb min_base entry.1) total)

unfoldable pub network_rates : Locale → Counts → Counts → ℕ → List NetworkRow
unfolding eligible_rows
network_rates locale flagged total min_base =
    take 10 (sort_by (row_before locale) (eligible_rows flagged total min_base))

-- `networkRateMinimum`
unfoldable pub network_rate_minimum : ℕ → ℕ
network_rate_minimum hours =
    if leb hours 1 then 2 else if leb hours 24 then 5 else if leb hours 168 then 10 else 20

-- The two series of the 90-day trend, keyed by date.
unfoldable pub at_risk_from : Counts → List DailyRollup → Counts
at_risk_from series [] = series
at_risk_from series (d ∷ days) = at_risk_from (put d.date d.flagged series) days

unfoldable pub cleartext_from : Counts → List DailyRollup → Counts
unfolding percent
cleartext_from series [] = series
cleartext_from series (d ∷ days) =
    cleartext_from (put d.date (percent d.cleartext (d.cleartext + d.secure)) series) days

abbrev pub by_date : Locale → String × ℕ → String × ℕ → Bool
by_date locale a b = locale.lt a.0 b.0

-- What the last date has over the first one.
abbrev pub rise : Counts → ℤ
rise [] = pos 0
rise (first ∷ []) = pos 0
rise (first ∷ second ∷ rest) = difference (last_or (second ∷ rest) first).1 first.1

unfoldable pub cleartext_trend : Locale → Counts → ℤ
cleartext_trend locale series = rise (sort_by (by_date locale) series)

-- The points of the flagged map: those that have a coordinate.
unfoldable pub flagged_map_points : List FlaggedPoint → List FlaggedPoint
flagged_map_points points = keep (λ p. not (is_zero p.lat) || not (is_zero p.lon)) points
