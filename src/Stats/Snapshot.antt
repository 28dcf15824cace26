-- ===== src/Stats/Snapshot.antt =====
-- The highlights and the tiles of the statistics page, as texts and deep links.
pub mod Laws
use reachable_web_observator.Common.{
  ◌==◌, if◌then◌else◌, is_some, length, ◌+++◌, nat_eq, string_eq, ℕ, suc, ◌/◌, ◌%◌, String, ◌||◌,
  Option, none, some, List, [], ◌∷◌,
}
use reachable_web_observator.Int.{ℤ, pos, negsuc}
use reachable_web_observator.Js.Number.{show}
use reachable_web_observator.Js.Params.{Params}
use reachable_web_observator.Js.Ranking.{Locale, ranked}
use reachable_web_observator.Api.Types.{Counts, Stats, DailyRollup}
use reachable_web_observator.Stats.Rates.{cleartext_trend, cleartext_from, count_of, sum_values}
use reachable_web_observator.Stats.Window.{
  network_hosts, network_count, organization_count, insecure_percent, success_percent,
  flagged_percent, status_data,
}
use reachable_web_observator.Stats.Links.{port_link, text_link, network_link}

-- `stableRank(data)[0]`
abbrev pub first_of {ℓ} : {A : Type ℓ} → List A → Option A
first_of [] = none
first_of (entry ∷ rest) = some entry

unfoldable pub top_entry : Locale → Counts → Option (String × ℕ)
unfolding ranked
top_entry locale counts = first_of (ranked locale counts)

pub record Highlight : Type 0 where
  pub heading : String
  pub value : String
  pub note : String
  pub link : Option Params

module _ (locale : Locale) (number : ℕ → String) where
  abbrev pub highlight :
      String
      → String
      → (ℕ → String → Params)
      → ℕ
      → Option (String × ℕ)
      → List Highlight
      → List Highlight
  highlight heading unit link hours none rest = rest
  highlight heading unit link hours (some (label, count)) rest =
      record {
        heading = heading;
        value = label;
        note = number count +++ unit;
        link = some (link hours label);
      }
      ∷ rest

  -- `Math.abs(cleartextTrend)` points, up or down, over the days of the trend.
  abbrev pub points_over : String → ℕ → ℕ → String
  points_over arrow points days =
      arrow
      +++ " "
      +++ show points
      +++ " "
      +++ (if points == 1 then "pt" else "pts")
      +++ " over "
      +++ show days
      +++ "d"

  abbrev pub trend_text : ℤ → ℕ → String
  trend_text (pos n) days = if n == 0 then "of services this window" else points_over "▲" n days
  trend_text (negsuc n) days = points_over "▼" (suc n) days

  -- The row of the cleartext share is there with the others; without them there is no section.
  unfoldable pub highlights : Stats → List DailyRollup → List Highlight
  unfolding top_entry network_hosts network_link port_link text_link insecure_percent
      cleartext_trend cleartext_from show
  highlights s trends =
      let network = top_entry locale (network_hosts s) in
      let port = top_entry locale s.services_by_port in
      let product = top_entry locale s.top_banners in
      let trend = cleartext_trend locale (cleartext_from [] trends) in
      if is_some network || is_some port || is_some product
      then highlight "Largest observed network" " distinct hosts" network_link s.time_range_hours
          network
          (highlight "Most observed port" " services" port_link s.time_range_hours port (
            highlight "Most observed software" " services" text_link s.time_range_hours product (
              record {
                heading = "Cleartext HTTP";
                value = show (insecure_percent s) +++ "%";
                note = trend_text trend (length trends);
                link = none;
              }
              ∷ [])))
      else []

  -- The tiles as label, number and note; `per_host` is the form of the services per host.
  unfoldable pub stat_tiles : String → Stats → List (String × String × String)
  unfolding network_count organization_count success_percent flagged_percent status_data sum_values
      show
  stat_tiles per_host s =
      (
        (if s.totals.hosts == 1 then "Host" else "Hosts"),
        number s.totals.hosts,
        "distinct IPv4 hosts",
      )
      ∷ (
        (if s.totals.services == 1 then "Service" else "Services"),
        number s.totals.services,
        "retained ip:port records",
      )
      ∷ (
        "Networks",
        number (network_count s),
        number (organization_count s) +++ " owning organizations attributed by RDAP",
      )
      ∷ ("Services / host", per_host, "mean observed web services")
      ∷ (
        "HTTP 200",
        show (success_percent (some s)) +++ "%",
        number (count_of "200" (status_data (some s)))
            +++ " of "
            +++ number (sum_values (status_data (some s)))
            +++ " classified responses",
      )
      ∷ (
        "Provider signals",
        show (flagged_percent s) +++ "%",
        number s.flagged_services
            +++ " services with a CVE association or adverse reputation label",
      )
      ∷ []
