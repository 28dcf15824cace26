-- ===== src/ObservationMap/State.antt =====
-- The state of the observation map, its handlers and its effects.
pub mod Laws
pub mod Order
use reachable_web_observator.Common.{
  ◌==◌, if◌then◌else◌, is_some, or_else, length, any, keep, nat_eq, string_eq, ℕ, ◌+◌, ◌-◌, String,
  Bool, true, false, not, ◌&&◌, Option, none, some, List, [], ◌∷◌, map, str_eq,
}
use reachable_web_observator.Js.Sort.{sort_by}
use reachable_web_observator.Js.Ranking.{Locale}
use reachable_web_observator.Api.Types.{
  Counts, MapEntry, MapMode, MapResponse, observations, cleartext, at_risk,
}
use reachable_web_observator.ObservationMap.Points.{
  key_of, in_focus, in_layers, at_risk_point, sorted_counts,
}

-- The properties that the page gives the component; without a mode or a window it keeps its own.
pub record Props : Type 0 where
  pub full : Bool
  pub mode : Option MapMode
  pub hours : Option ℕ

pub data RankMode : Type 0 where
  countries networks : RankMode

-- One run of the fetch effect, with what its closure captured.
pub record Flight : Type 0 where
  pub id : ℕ
  pub mode : MapMode
  pub hours : ℕ
  pub limit : ℕ

pub record State : Type 0 where
  pub props : Props
  pub local_mode : MapMode
  pub local_hours : ℕ
  pub data_ : Option MapResponse
  pub loading : Bool
  pub error : Bool
  pub reload_key : ℕ
  pub show_https : Bool
  pub show_http : Bool
  pub selected : Option MapEntry
  pub cluster : List MapEntry
  pub rank_mode : RankMode
  pub focus_country : String
  pub focus_network : String
  pub live : Option Flight
  pub next_id : ℕ

pub data Event : Type 0 where
  give_props : Props → Event
  choose_mode : MapMode → Event
  choose_hours : ℕ → Event
  toggle_https toggle_http : Event
  clear_focus : Event
  focus_on : String → Event
  rank_by : RankMode → Event
  select : MapEntry → Event
  select_cluster : List MapEntry → Event
  close_selected close_cluster : Event
  retry : Event
  resolve : ℕ → MapResponse → Event
  reject finish : ℕ → Event

abbrev pub mode_of : State → MapMode
mode_of s = or_else s.props.mode s.local_mode

abbrev pub hours_of : State → ℕ
hours_of s = or_else s.props.hours s.local_hours

abbrev pub entries_of : Option MapResponse → List MapEntry
entries_of none = []
entries_of (some response) = response.entries

unfoldable pub focused_points : State → List MapEntry
unfolding in_focus
focused_points s = keep (in_focus s.focus_country s.focus_network) (entries_of s.data_)

unfoldable pub visible_points : State → List MapEntry
unfolding in_layers focused_points
visible_points s = keep (in_layers s.show_https s.show_http) (focused_points s)

-- The counts of the legend.
unfoldable pub https_count : State → ℕ
https_count s = length (keep (λ p. p.secured) (focused_points s))

unfoldable pub http_count : State → ℕ
http_count s = length (focused_points s) - https_count s

unfoldable pub risk_count : State → ℕ
risk_count s = length (keep at_risk_point (focused_points s))

unfoldable pub rankings : Locale → State → Counts
rankings locale s = elim s.rank_mode [
  | countries ↦ sorted_counts locale (elim s.data_ [ none ↦ [] | some r ↦ r.countries ])
  | networks ↦ sorted_counts locale (elim s.data_ [ none ↦ [] | some r ↦ r.networks ])
]

abbrev pub alive : ℕ → Option Flight → Bool
alive id none = false
alive id (some run) = run.id == id

unfoldable pub handle : Event → State → State
handle (give_props props) s = record s { props = props }
handle (choose_mode mode) s = if is_some s.props.mode then s else record s { local_mode = mode }
handle (choose_hours hours) s =
    if is_some s.props.hours then s else record s { local_hours = hours }
handle toggle_https s = record s {
  show_https = if s.show_https && not s.show_http then s.show_https else not s.show_https;
}
handle toggle_http s = record s {
  show_http = if s.show_http && not s.show_https then s.show_http else not s.show_http;
}
handle clear_focus s = record s { focus_country = ""; focus_network = "" }
handle (focus_on label) s = elim s.rank_mode [
  | countries ↦ record s { focus_country = label; focus_network = "" }
  | networks ↦ record s { focus_country = ""; focus_network = label }
]
handle (rank_by mode) s = record s { rank_mode = mode }
handle (select point) s = record s { selected = some point; cluster = [] }
handle (select_cluster points) s = record s { selected = none; cluster = points }
handle close_selected s = record s { selected = none }
handle close_cluster s = record s { cluster = [] }
handle retry s = record s { reload_key = s.reload_key + 1 }
handle (resolve id response) s = if alive id s.live then record s { data_ = some response } else s
handle (reject id) s = if alive id s.live then record s { error = true } else s
handle (finish id) s = if alive id s.live then record s { loading = false } else s

unfoldable pub fetch_effect : State → State
fetch_effect s = record s {
  loading = true;
  error = false;
  selected = none;
  cluster = [];
  focus_country = "";
  focus_network = "";
  live = some (record {
    id = s.next_id;
    mode = mode_of s;
    hours = hours_of s;
    limit = if s.props.full then 1000 else 500;
  });
  next_id = s.next_id + 1;
}

abbrev pub mode_eq : MapMode → MapMode → Bool
mode_eq observations observations = true
mode_eq cleartext cleartext = true
mode_eq at_risk at_risk = true
mode_eq _ _ = false

abbrev pub bool_eq : Bool → Bool → Bool
bool_eq true b = b
bool_eq false b = not b

-- Whether the dependencies of the fetch effect are unchanged.
unfoldable pub same_fetch : State → State → Bool
same_fetch old s =
    mode_eq (mode_of old) (mode_of s)
    && hours_of old == hours_of s
    && bool_eq old.props.full s.props.full
    && old.reload_key == s.reload_key

unfoldable pub shown : List MapEntry → MapEntry → Bool
shown points point = any (λ visible. str_eq (key_of visible) (key_of point)) points

abbrev pub kept_selection : List MapEntry → Option MapEntry → Option MapEntry
kept_selection points none = none
kept_selection points (some point) = if shown points point then some point else none

-- The effect that drops a selection that is no longer visible. It reads its dependencies only, so
-- a further run changes nothing.
unfoldable pub selection_effect : State → State
unfolding shown visible_points
selection_effect s = record s {
  selected = kept_selection (visible_points s) s.selected;
  cluster = if any (λ point. not (shown (visible_points s) point)) s.cluster then [] else s.cluster;
}

unfoldable pub commit : State → State → State
unfolding same_fetch fetch_effect selection_effect
commit old s = selection_effect (if same_fetch old s then s else fetch_effect s)

unfoldable pub step : Event → State → State
unfolding handle commit
step e s = commit s (handle e s)

unfoldable pub mount : Props → State
unfolding fetch_effect
mount props = fetch_effect (record {
  props = props;
  local_mode = observations;
  local_hours = 24;
  data_ = none;
  loading = true;
  error = false;
  reload_key = 0;
  show_https = true;
  show_http = true;
  selected = none;
  cluster = [];
  rank_mode = countries;
  focus_country = "";
  focus_network = "";
  live = none;
  next_id = 0;
})

unfoldable pub run : State → List Event → State
unfolding step
run s [] = s
run s (e ∷ events) = run (step e s) events
