-- ===== src/Stats/Bars.antt =====
-- The rows that the panels of the statistics page draw: BarRow, BarList, NetworkRateList and
-- CoverageItem of pages/Stats.tsx. A width is kept exact, as parts of the row's largest value.
pub mod Laws
use reachable_web_observator.Common.{
  ltb, if◌then◌else◌, length, ◌+++◌, nat_eq, string_eq, ℕ, ◌*◌, ◌/◌, max, String, Option, List, [],
  ◌∷◌, map,
}
use reachable_web_observator.Js.Number.{show}
use mathlib.Core.Option
use reachable_web_observator.Js.Params.{Params}
use reachable_web_observator.Js.Ranking.{Locale}
use reachable_web_observator.Api.Types.{Counts}
use reachable_web_observator.Stats.Rates.{bar_rows, percent, NetworkRow, network_rates}
use reachable_web_observator.Stats.Snapshot.{first_of}
use reachable_web_observator.Stats.Links.{network_link}

-- The properties of `BarRow`. Every `href` is a search of this site, so that the branch for
-- addresses of other sites is never taken.
pub record BarRow : Type 0 where
  pub label : String
  pub value : ℕ
  pub largest : ℕ
  pub color : String
  pub suffix : String
  pub link : Option Params

-- `pct` times the largest value: `max > 0 ? Math.max(2, (value / max) * 100) : 0`.
unfoldable pub width_parts : BarRow → ℕ
width_parts row =
    if ltb 0 row.largest
    then (if ltb (2 * row.largest) (100 * row.value) then 100 * row.value else 2 * row.largest)
    else 0

module _ (number : ℕ → String) where
  unfoldable pub bar_value : BarRow → String
  bar_value row = number row.value +++ row.suffix

  unfoldable pub bar_title : BarRow → String
  unfolding bar_value
  bar_title row = row.label +++ ": " +++ bar_value row

-- A part of a panel: the bars, or the text that stands in their place.
pub data Body : Type 0 where
  message : String → Body
  bars : List BarRow → Body

abbrev pub rows_of : Body → List BarRow
rows_of (message text) = []
rows_of (bars rows) = rows

abbrev pub bar_row : ℕ → String → String → Option (String → Params) → String × ℕ → BarRow
bar_row largest color suffix link_for (label, value) = record {
  label = label;
  value = value;
  largest = largest;
  color = color;
  suffix = suffix;
  link = Option.map (λ link. link label) link_for;
}

-- `rows.length ? rows[0][1] : 0`
abbrev pub first_value : Counts → ℕ
first_value [] = 0
first_value (row ∷ rows) = row.1

abbrev pub bars_or : String → List BarRow → Body
bars_or text [] = message text
bars_or text (row ∷ rows) = bars (row ∷ rows)

unfoldable pub bar_list : Locale → Counts → String → ℕ → String → Option (String → Params) → Body
unfolding bar_rows
bar_list locale data_ color limit suffix link_for =
    let rows = bar_rows locale data_ limit in
    bars_or "no data" (map (bar_row (first_value rows) color suffix link_for) rows)

-- `Math.max(...Object.values(data), 1)`
unfoldable pub largest_value : Counts → ℕ
largest_value [] = 1
largest_value ((label, value) ∷ rest) = max value (largest_value rest)

-- A row of `NetworkRateList`, whose width is its rate.
pub record RateRow : Type 0 where
  pub label : String
  pub meta : String
  pub rate : ℕ
  pub link : Params

abbrev pub rate_line : ℕ → NetworkRow → RateRow
rate_line hours row = record {
  label = row.label;
  meta = show row.flagged +++ " of " +++ show row.base +++ " hosts";
  rate = row.rate;
  link = network_link hours row.label;
}

unfoldable pub rate_lines : Locale → Counts → Counts → ℕ → ℕ → List RateRow
unfolding network_rates network_link show
rate_lines locale flagged total min_base hours =
    map (rate_line hours) (network_rates locale flagged total min_base)

pub record CoverageItem : Type 0 where
  pub label : String
  pub percent : ℕ
  pub meta : String

unfoldable pub coverage_item : (ℕ → String) → String → ℕ → ℕ → String → CoverageItem
unfolding reachable_web_observator.Stats.Rates.percent
coverage_item number label value total note = record {
  label = label;
  percent = reachable_web_observator.Stats.Rates.percent value total;
  meta = number value +++ " of " +++ number total +++ " services · " +++ note;
}
