-- ===== src/Stats/Panels.antt =====
-- The panels under the tiles of the statistics page, as headings, texts and rows.
pub mod Laws
use reachable_web_observator.Common.{
  leb, ◌==◌, if◌then◌else◌, or_else, length, All, ◌+++◌, nat_eq, string_eq, ℕ, ◌/◌, ◌%◌, String,
  Bool, not, Option, none, some, List, [], ◌∷◌, ◌++◌, map, str_eq,
}
use reachable_web_observator.Js.Number.{show}
use reachable_web_observator.Js.Params.{Params}
use reachable_web_observator.Js.Ranking.{Locale}
use reachable_web_observator.Api.Types.{Counts, Stats, Coverage, DailyRollup}
use reachable_web_observator.Stats.Rates.{
  network_rate_minimum, at_risk_from, cleartext_from, count_of,
}
use reachable_web_observator.Stats.Window.{
  network_hosts, flagged_network_hosts, network_count, organization_count, coverage, concentration,
  status_data,
}
use reachable_web_observator.Stats.Links.{port_link, text_link, network_link, verdict_link}
use reachable_web_observator.Stats.Bars.{
  BarRow, Body, message, bars, bar_row, bar_list, largest_value, RateRow, rate_lines, CoverageItem,
  coverage_item,
}

abbrev pub ranges : List (String × ℕ)
ranges = ("1H", 1) ∷ ("24H", 24) ∷ ("7D", 168) ∷ ("ALL", 0) ∷ []

-- `RANGES.find(([, h]) => h === hours)?.[0]`
abbrev pub find_range : ℕ → List (String × ℕ) → Option String
find_range hours [] = none
find_range hours ((label, h) ∷ rest) = if h == hours then some label else find_range hours rest

-- The labels of the window, which are empty where no range fits.
abbrev pub range_text : String → ℕ → String
range_text all hours = if hours == 0 then all else or_else (find_range hours ranges) ""

unfoldable pub window_badge : ℕ → String
window_badge hours = range_text "ALL" hours

unfoldable pub activity_note : ℕ → String
activity_note hours =
    "Records updated inside the selected " +++ range_text "all-time" hours +++ " window."

-- The chips of the windows, and which is on.
unfoldable pub range_chips : ℕ → List (String × Bool)
range_chips hours = map (λ range. (range.0, hours == range.1)) ranges

-- `STATUS_COLOR` and `VERDICT_COLOR`
abbrev pub status_color : String → String
status_color label =
    if str_eq label "200"
    then "var(--lime)"
    else if str_eq label "3xx"
    then "var(--amber)"
    else "var(--red)"

abbrev pub verdict_color : String → String
verdict_color label =
    if str_eq label "malicious"
    then "var(--red)"
    else if str_eq label "suspicious"
    then "var(--amber)"
    else "var(--accent)"

unfoldable pub status_bars : Stats → Body
unfolding status_data largest_value
status_bars s =
    let data_ = status_data (some s) in
    bars (map (λ row. bar_row (largest_value data_) (status_color row.0) "" none row) data_)

unfoldable pub verdict_bars : Stats → Body
unfolding largest_value
verdict_bars s =
    let row : String → BarRow = λ k.
      bar_row (largest_value s.verdicts) (verdict_color k) ""
        (some (verdict_link s.time_range_hours)) (k, count_of k s.verdicts) in
    if length s.verdicts == 0
    then message "no reputation data yet"
    else bars (row "malicious" ∷ row "suspicious" ∷ row "clean" ∷ [])

-- The lists of bars, each with its heading, in the order of the page.
unfoldable pub landscape_panels : Locale → Stats → List (String × Body)
unfolding bar_list network_hosts
landscape_panels locale s =
    let hours = s.time_range_hours in
    (
      "Most observed networks",
      bar_list locale (network_hosts s) "var(--amber)" 10 " hosts" (some (network_link hours)),
    )
    ∷ (
      "Most observed organizations",
      bar_list locale (or_else s.hosts_by_organization []) "var(--violet)" 10 " hosts"
          (some (text_link hours)),
    )
    ∷ []

abbrev pub density_suffix : Bool → String
density_suffix density = if density then "%" else ""

unfoldable pub concentration_panels : Locale → Bool → Stats → List (String × Body)
unfolding bar_list concentration
concentration_panels locale density s =
    let hours = s.time_range_hours in
    let suffix = density_suffix density in
    (
      "By port",
      bar_list locale (concentration density s.flagged_by_port s.services_by_port) "var(--alert)" 8
          suffix (some (port_link hours)),
    )
    ∷ (
      "By product",
      bar_list locale (concentration density s.flagged_by_product s.top_banners) "var(--alert)" 8
          suffix (some (text_link hours)),
    )
    ∷ (
      "By country",
      bar_list locale (concentration density s.flagged_by_country s.services_by_country)
          "var(--amber)" 8 suffix (some (text_link hours)),
    )
    ∷ []

unfoldable pub country_panel : Locale → Stats → String × Body
unfolding bar_list
country_panel locale s = (
  "Services by country",
  bar_list locale s.services_by_country "var(--violet)" 10 "" (some (text_link s.time_range_hours)),
)

-- The default colour of a list is `var(--cyan)` and its default limit 10.
unfoldable pub distribution_panels : Locale → Stats → List (String × Body)
unfolding bar_list status_bars verdict_bars
distribution_panels locale s =
    let hours = s.time_range_hours in
    (
      "Services by port",
      bar_list locale s.services_by_port "var(--cyan)" 10 "" (some (port_link hours)),
    )
    ∷ ("Response status", status_bars s)
    ∷ (
      "Observed server banners",
      bar_list locale s.top_banners "var(--violet)" 8 "" (some (text_link hours)),
    )
    ∷ ("Shodan tags", bar_list locale s.top_tags "var(--accent-soft)" 8 "" (some (text_link hours)))
    ∷ ("Derived reputation summaries", verdict_bars s)
    ∷ []

-- All lists of bars; the rates of the networks and the coverage have rows of their own kind.
unfoldable pub bar_panels : Locale → Bool → Stats → List (String × Body)
unfolding landscape_panels concentration_panels country_panel distribution_panels
bar_panels locale density s =
    landscape_panels locale s
    ++ concentration_panels locale density s
    ++ country_panel locale s ∷ distribution_panels locale s

-- The third list of the landscape, whose text stands in place of no row.
unfoldable pub network_rate_lines : Locale → ℕ → Stats → List RateRow
unfolding rate_lines flagged_network_hosts network_hosts network_rate_minimum
network_rate_lines locale hours s =
    rate_lines locale (flagged_network_hosts s) (network_hosts s) (network_rate_minimum hours)
      s.time_range_hours

unfoldable pub minimum_note : ℕ → String
unfolding network_rate_minimum show
minimum_note hours =
    "Minimum " +++ show (network_rate_minimum hours) +++ " attributed hosts in this window."

unfoldable pub trend_heading : List DailyRollup → String
unfolding show
trend_heading trends =
    "◊ 90-day observation trend"
    +++ (if leb 2 (length trends)
        then " · " +++ show (length trends) +++ " daily snapshots"
        else "")

-- The charts need three snapshots; without them a text stands in their place.
unfoldable pub trend_charts : List DailyRollup → List (String × Counts)
unfolding at_risk_from cleartext_from
trend_charts trends =
    if leb 3 (length trends)
    then ("flagged services", at_risk_from [] trends)
      ∷ ("% cleartext", cleartext_from [] trends)
      ∷ []
    else []

module _ (number : ℕ → String) where
  -- The first sentence of the note on the sample.
  unfoldable pub sample_note : Stats → String
  sample_note s =
      " this window contains "
      +++ number s.totals.hosts
      +++ " distinct "
      +++ (if s.totals.hosts == 1 then "host" else "hosts")
      +++ "."

  unfoldable pub landscape_badge : Stats → String
  unfolding network_count organization_count
  landscape_badge s =
      number (network_count s) +++ " networks · " +++ number (organization_count s) +++ " orgs"

  unfoldable pub concentration_note : Bool → Stats → String
  concentration_note density s =
      if density
      then "Share of each group's services that carry a CVE association or reputation flag "
        +++ "(minimum sample: 20 services per group). Percentages are descriptive, not population "
        +++ "estimates."
      else "Among the "
        +++ number s.flagged_services
        +++ " services in this window carrying a CVE association or reputation flag, categories "
        +++ "with at least 20 underlying service observations are shown:"

  unfoldable pub coverage_items : Stats → List CoverageItem
  unfolding coverage_item coverage
  coverage_items s =
      let c : Coverage = coverage s in
      let item : String → ℕ → String → CoverageItem =
        λ label value note. coverage_item number label value s.totals.services note in
      item "Network attribution" c.network_attributed "RDAP / WHOIS label"
      ∷ item "Geolocation" c.geolocated "country available"
      ∷ item "Reputation assessment" c.reputation_assessed "provider verdict available"
      ∷ item "CVE association" s.exposed_services "third-party host association"
      ∷ []
