-- ===== src/Stats/Window.antt =====
-- The state of the statistics page: the window, what is fetched for it, and what is shown.
pub mod Laws
use reachable_web_observator.Common.{
  ◌==◌, if◌then◌else◌, or_else, length, ◌+++◌, nat_eq, string_eq, ℕ, ◌+◌, ◌/◌, String, Bool, true,
  false, not, ◌&&◌, Option, none, some, List, [], ◌∷◌,
}
use reachable_web_observator.Api.Types.{Counts, Coverage, Stats, DailyRollup}
use reachable_web_observator.Js.Number.{show}
use reachable_web_observator.Js.Map.{keys}
use reachable_web_observator.Stats.Rates.{
  sum_values, count_of, percent, rate_map, count_with_minimum_base,
}

pub record Flight : Type 0 where
  pub id : ℕ
  pub hours : ℕ

pub record State : Type 0 where
  pub hours : ℕ
  pub stats : Option Stats
  pub trends : List DailyRollup
  pub density : Bool
  pub loading : Bool
  pub error : Bool
  pub reload_key : ℕ
  pub live : Option Flight
  pub trends_live : ℕ
  pub next_id : ℕ

pub data Event : Type 0 where
  set_hours : ℕ → Event
  toggle_density retry : Event
  resolve : ℕ → Stats → Event
  reject finish : ℕ → Event
  resolve_trends : ℕ → Option (List DailyRollup) → Event

unfoldable pub alive : ℕ → State → Option Flight
alive id s = elim s.live [ none ↦ none | some run ↦ if run.id == id then some run else none ]

abbrev pub on_alive : (Flight → State → State) → Option Flight → State → State
on_alive change none s = s
on_alive change (some run) s = change run s

-- `then`: an answer for another window than the one asked for is an error.
unfoldable pub resolved : Stats → Flight → State → State
resolved d run s =
    if d.time_range_hours == run.hours
    then record s { stats = some d }
    else record s { error = true }

unfoldable pub handle : Event → State → State
unfolding alive resolved
handle (set_hours hours) s = record s { hours = hours }
handle toggle_density s = record s { density = not s.density }
handle retry s = record s { reload_key = s.reload_key + 1 }
handle (resolve id d) s = on_alive (resolved d) (alive id s) s
handle (reject id) s = on_alive (λ run t. record t { error = true }) (alive id s) s
handle (finish id) s = on_alive (λ run t. record t { loading = false }) (alive id s) s
handle (resolve_trends id days) s =
    if s.trends_live == id then record s { trends = or_else days [] } else s

unfoldable pub fetch_effect : State → State
fetch_effect s = record s {
  loading = true;
  error = false;
  stats = none;
  live = some (record { id = s.next_id; hours = s.hours });
  next_id = s.next_id + 1;
}

-- The trend depends on the reload key only.
unfoldable pub trends_effect : State → State
trends_effect s = record s { trends_live = s.next_id; next_id = s.next_id + 1 }

unfoldable pub commit : State → State → State
unfolding fetch_effect trends_effect
commit old s =
    let fetched =
      if old.hours == s.hours && old.reload_key == s.reload_key then s else fetch_effect s in
    if old.reload_key == s.reload_key then fetched else trends_effect fetched

unfoldable pub step : Event → State → State
unfolding handle commit
step e s = commit s (handle e s)

unfoldable pub mount : State
unfolding fetch_effect trends_effect
mount = trends_effect (
    fetch_effect (record {
      hours = 24;
      stats = none;
      trends = [];
      density = false;
      loading = true;
      error = false;
      reload_key = 0;
      live = none;
      trends_live = 0;
      next_id = 0;
    }))

unfoldable pub run : State → List Event → State
unfolding step
run s [] = s
run s (e ∷ events) = run (step e s) events

-- What the page shows in place of the results.
pub data Panel : Type 0 where
  aggregating failed offline : Panel
  results : Stats → Panel

unfoldable pub panel : State → Panel
panel s = elim s.stats [
  | none ↦ if s.loading then aggregating else if s.error then failed else offline
  | some d ↦ results d
]

-- `windowDescription`
unfoldable pub window_description : ℕ → String
unfolding show
window_description hours =
    if hours == 0
    then "all observations retained to date"
    else "the rolling "
      +++ (if hours == 1
          then "1 hour"
          else if hours == 24
          then "24 hours"
          else show (hours / 24) +++ " days")
      +++ " ending when this page was loaded"

-- `{ secure, insecure, total, insecurePct }` as the share of cleartext captures.
unfoldable pub insecure_percent : Stats → ℕ
unfolding percent
insecure_percent s =
    let insecure = count_of "insecure" s.secure_capture_counts in
    percent insecure (count_of "secured" s.secure_capture_counts + insecure)

unfoldable pub status_data : Option Stats → Counts
status_data none = []
status_data (some s) =
    ("200", count_of "200" s.status_code_counts)
    ∷ ("3xx", count_of "3xx" s.status_code_counts)
    ∷ ("4xx", count_of "4xx" s.status_code_counts)
    ∷ ("5xx", count_of "5xx" s.status_code_counts)
    ∷ []

unfoldable pub success_percent : Option Stats → ℕ
unfolding percent sum_values status_data
success_percent s = percent (count_of "200" (status_data s)) (sum_values (status_data s))

unfoldable pub flagged_percent : Stats → ℕ
unfolding percent
flagged_percent s = percent s.flagged_services s.totals.services

-- The fallbacks of an older server's answer.
unfoldable pub network_hosts : Stats → Counts
network_hosts s = or_else s.hosts_by_network s.total_by_org

unfoldable pub flagged_network_hosts : Stats → Counts
flagged_network_hosts s = or_else s.flagged_hosts_by_network s.flagged_by_org

unfoldable pub network_count : Stats → ℕ
network_count s = if s.network_count == 0 then length (network_hosts s) else s.network_count

unfoldable pub organization_count : Stats → ℕ
organization_count s =
    if s.organization_count == 0
    then length (or_else s.hosts_by_organization [])
    else s.organization_count

unfoldable pub coverage : Stats → Coverage
unfolding sum_values
coverage s = or_else s.coverage (record {
  network_attributed = sum_values s.total_by_org;
  geolocated = sum_values s.services_by_country;
  reputation_assessed = sum_values s.verdicts;
})

-- `conc`: the rates when the density toggle is on, else the counts.
unfoldable pub concentration : Bool → Counts → Counts → Counts
unfolding rate_map count_with_minimum_base
concentration density flagged total =
    if density then rate_map flagged total 20 else count_with_minimum_base flagged total 20
