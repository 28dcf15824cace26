-- ===== src/ObservationMap/Points.antt =====
-- The points of the observation map: keys, filters, counts and labels.
use reachable_web_observator.Common.{
  ltb, ◌==◌, if◌then◌else◌, truthy, ◌+++◌, nat_eq, string_eq, ℕ, ◌-◌, ◌/◌, ◌%◌, max, String, Bool,
  false, not, ◌&&◌, ◌||◌, Option, none, some, List, [], ◌∷◌, str_eq,
}
use reachable_web_observator.Js.Number.{show}
use reachable_web_observator.Js.Ranking.{Locale, ranked}
use reachable_web_observator.Api.Types.{Counts, MapEntry, MapMode, observations, cleartext, at_risk}

-- `MODES`
unfoldable pub mode_description : MapMode → String
mode_description observations = "Newest geolocated service per host"
mode_description cleartext = "Hosts observed serving HTTP without TLS"
mode_description at_risk = "Hosts with CVE associations or reputation flags"

-- `WINDOWS`
unfoldable pub windows : List (String × ℕ)
windows = ("24H", 24) ∷ ("7D", 168) ∷ ("30D", 720) ∷ ("ALL", 0) ∷ []

unfoldable pub key_of : MapEntry → String
unfolding show
key_of point = point.ip +++ ":" +++ show point.port

unfoldable pub sorted_counts : Locale → Counts → Counts
sorted_counts locale counts = ranked locale counts

unfoldable pub window_text : ℕ → String
unfolding show
window_text hours =
    if hours == 0
    then "all retained observations"
    else if hours == 24
    then "the last 24 hours"
    else if hours % 24 == 0
    then "the last " +++ show (hours / 24) +++ " days"
    else "the last " +++ show hours +++ " hours"

pub data Observed : Type 0 where
  just_now : Observed
  minutes hours days : ℕ → Observed

-- `observationAge`: `then_` has no value where the date is invalid.
unfoldable pub observed_age : ℕ → Option ℕ → Observed
observed_age now none = just_now
observed_age now (some then_) =
    let mins = (now - then_) / 60000 in
    if ltb now then_
    then just_now
    else if ltb mins 60
    then minutes (max 1 mins)
    else if ltb (mins / 60) 48
    then hours (mins / 60)
    else days (mins / 60 / 24)

unfoldable pub observation_age : (String → Option ℕ) → ℕ → String → String
unfolding show observed_age
observation_age parse now value = elim (observed_age now (parse value)) [
  | just_now ↦ "just now"
  | minutes n ↦ show n +++ "m ago"
  | hours n ↦ show n +++ "h ago"
  | days n ↦ show n +++ "d ago"
]

abbrev pub network_is : String → Option String → Bool
network_is name none = false
network_is name (some network) = str_eq network name

unfoldable pub in_focus : String → String → MapEntry → Bool
in_focus country network point =
    not (truthy country && not (str_eq point.geo.country_iso country))
    && not (truthy network && not (network_is network point.network))

unfoldable pub in_layers : Bool → Bool → MapEntry → Bool
in_layers show_https show_http point =
    not (point.secured && not show_https) && not (not point.secured && not show_http)

abbrev pub verdict_is : String → Option String → Bool
verdict_is name none = false
verdict_is name (some verdict) = str_eq verdict name

unfoldable pub at_risk_point : MapEntry → Bool
at_risk_point point =
    ltb 0 point.vuln_count
    || verdict_is "suspicious" point.verdict
    || verdict_is "malicious" point.verdict
