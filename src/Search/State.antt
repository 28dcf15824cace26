-- ===== src/Search/State.antt =====
-- The state of the search page (Search.tsx), its handlers and its effects. A step is a handler or
-- the answer to a request, followed by the effects whose dependencies it changed.
pub mod Same
pub mod Steps
pub mod Laws
pub mod Sessions
pub mod Order
pub mod Paging
pub mod Superseded
use Prim.Native.Char.{Char, code}
use Prim.Native.String
use reachable_web_observator.Common.{
  leb, ◌==◌, if◌then◌else◌, or_else, length, ◌+++◌, trim, nat_eq, string_eq, ℕ, ◌+◌, String, Bool,
  true, false, not, ◌&&◌, Option, none, some, List, [], ◌∷◌, ◌++◌, map, str_eq,
}
use reachable_web_observator.Js.Number.{Number, whole, Reader, show, number_eq}
use reachable_web_observator.Js.Params.{Params}
use reachable_web_observator.Js.Map.{unique, contains, unique_from}
use reachable_web_observator.Api.Types.{Tile, ListResponse}
use reachable_web_observator.Api.Query.{SortMode, newest, SearchParams, show_sort}
use reachable_web_observator.Search.Filters.{
  Filters, SecFilter, any_protocol, show_sec, link, is_active, request, seed,
}

-- One run of the fetch effect: the variables that its closure captured. It is `alive` as long as
-- it is the run that the state names.
pub record Flight : Type 0 where
  pub id : ℕ
  pub page : ℕ
  pub request : SearchParams

pub record State : Type 0 where
  pub filters : Filters
  pub url : Params
  pub tiles : List Tile
  pub page : ℕ
  pub has_more : Bool
  pub total : ℕ
  pub total_hosts : ℕ
  pub announcement : String
  pub loading : Bool
  pub touched : Bool
  pub error : Bool
  pub reload_key : ℕ
  pub timer : Bool
  pub live : Option Flight
  pub next_id : ℕ

pub data Event : Type 0 where
  type_query : String → Event
  debounce : Event
  remove_network : Event
  remove_window : Event
  set_port : String → Event
  set_sec : SecFilter → Event
  set_status : Option ℕ → Event
  toggle_vulns : Event
  toggle_verdict : String → Event
  set_sort : SortMode → Event
  toggle_group : Event
  reset : Event
  load_more : Event
  retry : Event
  resolve : ℕ → ListResponse → Event
  reject : ℕ → Event
  finish : ℕ → Event

-- `value.replace(/\D/g, "")`
unfoldable pub only_digits : String → String
only_digits String.[] = ""
only_digits (String.◌∷◌ c s) =
    let rest = only_digits s in
    if leb b'0' (code c) && leb (code c) b'9' then String.◌∷◌ c rest else rest

unfoldable pub cleared : Filters → Filters
cleared f = record {
  q = "";
  debounced = "";
  network = "";
  time_range = none;
  port = "";
  sec = any_protocol;
  status = none;
  has_vulns = false;
  verdict = "";
  sort = newest;
  group_hosts = false;
}

abbrev whole? : Option ℕ → Option Number
whole? none = none
whole? (some n) = some (whole n)

-- The handlers of the query, which set the filters only.
unfoldable pub edit : Event → Filters → Filters
unfolding only_digits cleared
edit (type_query text) f = record f { q = text }
edit debounce f = record f { debounced = trim f.q }
edit remove_network f = record f { network = "" }
edit remove_window f = record f { time_range = none }
edit (set_port text) f = record f { port = only_digits text }
edit (set_sec s) f = record f { sec = s }
edit (set_status code) f = record f { status = whole? code }
edit toggle_vulns f = record f { has_vulns = not f.has_vulns }
edit (toggle_verdict v) f = record f { verdict = if str_eq f.verdict v then "" else v }
edit (set_sort s) f = record f { sort = s }
edit toggle_group f = record f { group_hosts = not f.group_hosts }
edit reset f = cleared f
edit _ f = f

-- Whether the run `id` is alive.
unfoldable pub alive : ℕ → State → Option Flight
alive id s = elim s.live [ none ↦ none | some run ↦ if run.id == id then some run else none ]

-- `then`: page 0 replaces the results, later pages are appended.
unfoldable pub resolved : ListResponse → Flight → State → State
unfolding show
resolved r run s = record s {
  tiles = if run.page == 0 then r.entries else s.tiles ++ r.entries;
  has_more = r.has_more;
  total = or_else r.total (length r.entries);
  total_hosts = or_else r.total_hosts (length (unique (map (λ t. t.ip) r.entries)));
  announcement =
      if run.page == 0
      then s.announcement
      else show (length r.entries) +++ " additional observations loaded.";
}

-- `catch`
unfoldable pub rejected : Flight → State → State
rejected run s = record s { error = true; tiles = if run.page == 0 then [] else s.tiles }

abbrev on_alive : (Flight → State → State) → Option Flight → State → State
on_alive change none s = s
on_alive change (some run) s = change run s

-- What an event does before the effects run.
unfoldable pub handle : Event → State → State
unfolding edit alive resolved rejected
handle debounce s =
    if s.timer then record s { timer = false; filters = edit debounce s.filters } else s
handle load_more s = record s { page = s.page + 1 }
handle retry s = record s { reload_key = s.reload_key + 1 }
handle (resolve id r) s = on_alive (resolved r) (alive id s) s
handle (reject id) s = on_alive rejected (alive id s) s
handle (finish id) s = on_alive (λ run t. record t { loading = false }) (alive id s) s
handle e s = record s { filters = edit e s.filters }
