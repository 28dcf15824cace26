-- ===== src/Stats/Panels/Laws.antt =====
-- The bars of every panel, drawn and as links.
use reachable_web_observator.Common.{
  ◌==◌, if◌then◌else◌, Bool-cases, length, All, trim, nat_eq, string_eq, ℕ, ◌≤◌, String, ◌≡◌, refl,
  ◌⊎◌, inl, inr, Bool, true, false, ◌||◌, some, List, [], ◌∷◌, map, arith, str_eq,
}
use reachable_web_observator.Js.Number.{Reader, max_safe}
use reachable_web_observator.Js.Params.{Params}
use reachable_web_observator.Js.Ranking.{Locale}
use reachable_web_observator.Api.Types.{Counts, Stats}
use reachable_web_observator.Search.Filters.{Filters, seed}
use reachable_web_observator.Stats.Rates.{NetworkRow}
use reachable_web_observator.Stats.Window.{status_data}
use reachable_web_observator.Stats.Links.Laws.{only, seed-links}
use reachable_web_observator.Stats.Bars.{
  BarRow, rows_of, bar_row, bar_list, largest_value, RateRow, rate_line, rate_lines,
}
use reachable_web_observator.Stats.Bars.Laws.{
  IsDrawn, IsDrawn-of_le, rows-bar_list, bar_list-IsDrawn, count_of-largest_value,
}
use reachable_web_observator.Stats.Panels.{
  status_bars, verdict_bars, landscape_panels, concentration_panels, country_panel,
  distribution_panels, bar_panels, network_rate_lines,
}

status_bars-IsDrawn : (s : Stats) → All IsDrawn (rows_of (status_bars s))
unfolding status_bars status_data largest_value
status_bars-IsDrawn s = (
  IsDrawn-of_le _ (omega arith),
  (
    IsDrawn-of_le _ (omega arith),
    (IsDrawn-of_le _ (omega arith), (IsDrawn-of_le _ (omega arith), tt)),
  ),
)

verdict_bars-IsDrawn : (s : Stats) → All IsDrawn (rows_of (verdict_bars s))
unfolding verdict_bars
verdict_bars-IsDrawn s = elim (Bool-cases (length s.verdicts == 0)) [
  | inl none_ ↦ rw none_ tt
  | inr some_ ↦ rw some_ (
    IsDrawn-of_le _ (count_of-largest_value "malicious" s.verdicts),
    (
      IsDrawn-of_le _ (count_of-largest_value "suspicious" s.verdicts),
      (IsDrawn-of_le _ (count_of-largest_value "clean" s.verdicts), tt),
    ),
  )
]

-- Whatever the statistics, in every list of bars of the page the value of each bar is at most the
-- largest one, by which the bar is drawn, and its width is from 2 to 100 percent of the track, or
-- nothing where the largest value is 0. The rates of the networks and the coverage are not such
-- lists.
pub bar_panels-AreDrawn :
    (locale : Locale) (density : Bool) (s : Stats)
    → All (λ panel. All IsDrawn (rows_of panel.1)) (bar_panels locale density s)
unfolding bar_panels landscape_panels concentration_panels country_panel distribution_panels
bar_panels-AreDrawn locale density s =
    search (bar_list-IsDrawn, status_bars-IsDrawn, verdict_bars-IsDrawn) depth 20

-- The query that a bar stands for, by the heading of its list.
abbrev pub query_of : String → ℕ → String → Filters
query_of heading hours label =
    if str_eq heading "Services by port" || str_eq heading "By port"
    then record (only hours false) { port = label }
    else if str_eq heading "Most observed networks"
    then record (only hours true) { network = trim label }
    else if str_eq heading "Derived reputation summaries"
    then record (only hours false) { verdict = label }
    else record (only hours false) { q = label; debounced = trim label }

-- The bar is a link, which opens the search page with the query of its list.
abbrev pub IsLinked : Reader → ℕ → String → BarRow → Type 0
IsLinked reader hours heading row =
    (link : Params) × (row.link ≡ some link) × (seed reader link ≡ query_of heading hours row.label)

-- A row of the rates is a link to its network.
abbrev pub IsNetworkLink : Reader → ℕ → RateRow → Type 0
IsNetworkLink reader hours row =
    seed reader row.link ≡ record (only hours true) { network = trim row.label }

module _ (reader : Reader) (hours : ℕ) (h : hours ≤ max_safe) where
  abbrev Opens : String → (String → Params) → Type 0
  Opens heading link = (label : String) → seed reader (link label) ≡ query_of heading hours label

  module _ (heading : String) (link : String → Params) (opens : Opens heading link) where
    IsLinked-bar_row :
        (largest : ℕ) (color suffix : String) (row : String × ℕ)
        → IsLinked reader hours heading (bar_row largest color suffix (some link) row)
    IsLinked-bar_row largest color suffix (label, value) = (link label, refl, opens label)

    All-IsLinked :
        (largest : ℕ) (color suffix : String) (rows : Counts)
        → All (λ r. IsLinked reader hours heading (bar_row largest color suffix (some link) r)) rows
    All-IsLinked largest color suffix [] = tt
    All-IsLinked largest color suffix (row ∷ rows) =
        (IsLinked-bar_row largest color suffix row, All-IsLinked largest color suffix rows)

    bar_list-IsLinked :
        (locale : Locale) (data_ : Counts) (color : String) (limit : ℕ) (suffix : String)
        → All
            (IsLinked reader hours heading)
            (rows_of (bar_list locale data_ color limit suffix (some link)))
    bar_list-IsLinked locale data_ color limit suffix =
        rows-bar_list (IsLinked reader hours heading) locale data_ color limit suffix (some link)
          (search All-IsLinked)

  All-IsNetworkLink :
      (rows : List NetworkRow) → All (IsNetworkLink reader hours) (map (rate_line hours) rows)
  All-IsNetworkLink [] = tt
  All-IsNetworkLink (row ∷ rows) = ((seed-links reader hours row.label h).2, All-IsNetworkLink rows)

verdict_bars-IsLinked :
    (reader : Reader) (s : Stats)
    → s.time_range_hours ≤ max_safe
    → All
        (IsLinked reader s.time_range_hours "Derived reputation summaries")
        (rows_of (verdict_bars s))
unfolding verdict_bars
verdict_bars-IsLinked reader s h =
    let linked =
      IsLinked-bar_row reader s.time_range_hours h "Derived reputation summaries" _
        (λ label. (seed-links reader s.time_range_hours label h).3) in
    elim (Bool-cases (length s.verdicts == 0)) [
      | inl none_ ↦ rw none_ tt
      | inr some_ ↦ rw some_ (search linked)
    ]

-- For a window that is a safe integer, every bar in the lists of bars of the page but those of the
-- response status is a link, which opens the search page in the window of the statistics with one filter: the port in
-- the two lists of ports, the network, trimmed and grouped by host, in the list of networks, the
-- verdict in the list of verdicts, and in the other lists the label as the text that is searched for.
-- The rows of the rates open their networks in the same way.
pub bar_panels-AreLinked :
    (locale : Locale) (density : Bool) (reader : Reader) (hours : ℕ) (s : Stats)
    → s.time_range_hours ≤ max_safe
    → All
        (λ panel.
          (panel.0 ≡ "Response status")
          ⊎ All (IsLinked reader s.time_range_hours panel.0) (rows_of panel.1))
        (bar_panels locale density s)
      × All (IsNetworkLink reader s.time_range_hours) (network_rate_lines locale hours s)
unfolding bar_panels landscape_panels concentration_panels country_panel distribution_panels
    network_rate_lines rate_lines
bar_panels-AreLinked locale density reader hours s h =
    let linked = bar_list-IsLinked reader s.time_range_hours h in
    let opens = λ (label : String). seed-links reader s.time_range_hours label h in
    let network = linked "Most observed networks" _ (λ label. (opens label).2) in
    let port = linked "Services by port" _ (λ label. (opens label).0) in
    let text = linked "Shodan tags" _ (λ label. (opens label).1) in
    (
      search (network, port, text, verdict_bars-IsLinked, inl, inr) depth 20,
      All-IsNetworkLink reader s.time_range_hours h _,
    )
