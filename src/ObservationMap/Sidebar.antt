-- ===== src/ObservationMap/Sidebar.antt =====
-- What the observation map shows around its points: the lines over it, its stage and its sidebar.
pub mod Laws
use reachable_web_observator.Common.{
  ltb, ◌==◌, if◌then◌else◌, truthy, is_some, or_else, length, keep, ◌+++◌, join, nat_eq, string_eq,
  ℕ, ◌/◌, String, not, ◌&&◌, ◌||◌, Option, none, some, List, [], ◌∷◌, map,
}
use reachable_web_observator.Js.Number.{show}
use reachable_web_observator.Js.Params.{Params}
use reachable_web_observator.Js.Ranking.{Locale}
use reachable_web_observator.Api.Types.{Counts, MapEntry, MapMode, MapResponse}
use reachable_web_observator.ObservationMap.Points.{mode_description, window_text, observation_age}
use reachable_web_observator.ObservationMap.State.{
  State, mode_of, hours_of, visible_points, rankings,
}

abbrev pub text_of : Option String → String
text_of o = or_else o ""

unfoldable pub context_line : State → String
unfolding mode_description window_text
context_line s =
    mode_description (mode_of s)
    +++ " in "
    +++ window_text (hours_of s)
    +++ ". One newest matching service represents each host."

-- `number` is the locale's form of a number.
unfoldable pub sample_line : (ℕ → String) → Option MapResponse → Option String
sample_line number none = none
sample_line number (some response) = some (
    number response.displayed_hosts
    +++ " mapped of "
    +++ number response.total_hosts
    +++ " matching hosts")

unfoldable pub focus_label : State → Option String
focus_label s =
    if truthy s.focus_country
    then some ("focused: " +++ s.focus_country +++ " ×")
    else if truthy s.focus_network
    then some ("focused: " +++ s.focus_network +++ " ×")
    else none

-- The stage: a retry, or the map with a note over it.
pub data Stage : Type 0 where
  failed : Stage
  map_with : Option String → Stage

unfoldable pub stage : State → Stage
unfolding visible_points
stage s =
    if s.error && not (is_some s.data_)
    then failed
    else map_with (
        if s.loading
        then some "◌ UPDATING MAP…"
        else if length (visible_points s) == 0
        then some "no hosts match the visible layers"
        else none)

pub data Sidebar : Type 0 where
  details : MapEntry → Sidebar
  overlapping : List MapEntry → Sidebar
  ranks : Counts → Sidebar

abbrev pub unselected : Locale → State → Sidebar
unselected locale s =
    if ltb 1 (length s.cluster) then overlapping s.cluster else ranks (rankings locale s)

abbrev pub sidebar_of : Locale → State → Option MapEntry → Sidebar
sidebar_of locale s (some p) = details p
sidebar_of locale s none = unselected locale s

unfoldable pub sidebar : Locale → State → Sidebar
unfolding rankings
sidebar locale s = sidebar_of locale s s.selected

-- `… || "Unknown"`
abbrev pub or_text : String → String → String
or_text text fallback = if truthy text then text else fallback

unfoldable pub status_chips : MapEntry → List String
unfolding show
status_chips p =
    (if p.secured then "HTTPS" else "HTTP")
    ∷ keep truthy (
        elim p.http_status [ none ↦ "" | some code ↦ "HTTP " +++ show code ]
        ∷ text_of p.verdict
        ∷ [])

abbrev pub accuracy_text : (ℕ → String) → Option ℕ → String
accuracy_text number none = "IP-based, approximate"
accuracy_text number (some km) =
    if km == 0 then "IP-based, approximate" else "approximately " +++ number km +++ " km radius"

-- The rows of a host; `parse` is the platform's date parser and `now` the time.
unfoldable pub detail_rows :
    (ℕ → String) → (String → Option ℕ) → ℕ → MapEntry → List (String × String)
unfolding observation_age
detail_rows number parse now p =
    (
      "Location",
      or_text (join ", " (keep truthy (p.geo.city ∷ p.geo.region ∷ p.geo.country ∷ []))) "Unknown",
    )
    ∷ ("Accuracy", accuracy_text number p.geo.accuracy_radius_km)
    ∷ ("Network", or_text (text_of p.network) "Unknown")
    ∷ (
      "Product",
      or_text (join " " (keep truthy (p.product ∷ text_of p.product_version ∷ []))) "Unknown",
    )
    ∷ ("Associated CVEs", number p.vuln_count)
    ∷ ("Observed", observation_age parse now p.updated_at)
    ∷ []

unfoldable pub record_path : MapEntry → String
unfolding show
record_path p = "/signal/" +++ p.ip +++ "/" +++ show p.port

-- The query of the link to a network's hosts, as the names and values that it encodes.
unfoldable pub network_search : ℕ → MapEntry → Option Params
unfolding show
network_search hours p =
    if truthy (text_of p.network)
    then some
        (("network", text_of p.network) ∷ ("time_range", show hours) ∷ ("group", "hosts") ∷ [])
    else none

-- The button of a host in the list of a cluster.
unfoldable pub overlap_text : MapEntry → String × String
unfolding show
overlap_text p = (
  p.ip +++ ":" +++ show p.port,
  (if p.secured then "HTTPS" else "HTTP")
      +++ (if truthy p.product then " · " +++ p.product else ""),
)

unfoldable pub overlap_heading : List MapEntry → String
unfolding show
overlap_heading cluster = show (length cluster) +++ " hosts at this approximate location"
