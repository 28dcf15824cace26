-- ===== src/Search/Filters.antt =====
-- The query that the search page holds (Search.tsx), its deep link, and the request that it makes.
pub mod Link
pub mod Request
use mathlib.Core.Option
use reachable_web_observator.Common.{
  if◌then◌else◌, truthy, is_some, or_else, any, trim, nat_eq, string_eq, ℕ, ◌*◌, String, Bool, true,
  false, not, ◌||◌, Option, none, some, [], map, str_eq,
}
use reachable_web_observator.Js.Number.{Number, whole, other, Reader, show, show_number}
use reachable_web_observator.Js.Params.{Params, get, set_if}
use reachable_web_observator.Api.Query.{
  SortMode, newest, relevance, vulns, ip, show_sort, SearchParams,
}

pub data SecFilter : Type 0 where
  any_protocol https http : SecFilter

abbrev pub page_size : ℕ
page_size = 24

pub record Filters : Type 0 where
  pub q : String
  pub debounced : String
  pub network : String
  pub time_range : Option ℕ
  pub port : String
  pub sec : SecFilter
  pub status : Option Number
  pub has_vulns : Bool
  pub verdict : String
  pub sort : SortMode
  pub group_hosts : Bool

-- `params.get(name) ?? ""`
abbrev pub get_text : String → Params → String
get_text name params = or_else (get name params) ""

-- `value === name` on what `get` returns, false on `null`.
abbrev pub is_text : Option String → String → Bool
is_text none name = false
is_text (some value) name = str_eq value name

unfoldable pub seed_time_range : Reader → Option String → Option ℕ
seed_time_range reader none = none
seed_time_range reader (some raw) = elim (reader.to_number raw) [
  | whole n ↦ some n
  | other s ↦ none
]

unfoldable pub seed_sec : Option String → SecFilter
seed_sec v =
    if is_text v "https" || is_text v "1" || is_text v "true"
    then https
    else if is_text v "http" || is_text v "0" || is_text v "false"
    then http
    else any_protocol

unfoldable pub seed_status : Reader → Option String → Option Number
seed_status reader none = none
seed_status reader (some st) = if truthy st then some (reader.to_number st) else none

unfoldable pub seed_sort : Option String → SortMode
seed_sort value =
    if is_text value "relevance"
    then relevance
    else if is_text value "vulns"
    then vulns
    else if is_text value "ip"
    then ip
    else newest

-- The initial values of the filter state, from the URL.
unfoldable pub seed : Reader → Params → Filters
unfolding seed_time_range seed_sec seed_status seed_sort
seed reader params = record {
  q = get_text "q" params;
  debounced = trim (get_text "q" params);
  network = trim (get_text "network" params);
  time_range = seed_time_range reader (get "time_range" params);
  port = get_text "port" params;
  sec = seed_sec (get "secured" params);
  status = seed_status reader (get "status" params);
  has_vulns = is_text (get "has_vulns" params) "1" || is_text (get "has_vulns" params) "true";
  verdict = get_text "verdict" params;
  sort = seed_sort (get "sort" params);
  group_hosts = is_text (get "group" params) "hosts";
}

abbrev pub is_any : SecFilter → Bool
is_any any_protocol = true
is_any _ = false

-- The value of `sec` as a text.
abbrev pub show_sec : SecFilter → String
show_sec any_protocol = "any"
show_sec https = "https"
show_sec http = "http"

abbrev pub is_newest : SortMode → Bool
is_newest newest = true
is_newest _ = false

-- The effect that keeps the complete query in the URL.
unfoldable pub link : Filters → Params
unfolding set_if show show_number show_sort
link f =
    let p0 = set_if (truthy f.debounced) "q" f.debounced [] in
    let p1 = set_if (truthy f.network) "network" f.network p0 in
    let p2 =
      set_if (is_some f.time_range) "time_range" (or_else (Option.map show f.time_range) "") p1 in
    let p3 = set_if (truthy f.port) "port" f.port p2 in
    let p4 = set_if (not (is_any f.sec)) "secured" (show_sec f.sec) p3 in
    let p5 = set_if (is_some f.status) "status" (or_else (Option.map show_number f.status) "") p4 in
    let p6 = set_if f.has_vulns "has_vulns" "1" p5 in
    let p7 = set_if (truthy f.verdict) "verdict" f.verdict p6 in
    let p8 = set_if (not (is_newest f.sort)) "sort" (show_sort f.sort) p7 in
    set_if f.group_hosts "group" "hosts" p8

-- Whether anything is searched for.
unfoldable pub is_active : Filters → Bool
is_active f =
    truthy f.network
    || truthy f.debounced
    || truthy f.port
    || not (is_any f.sec)
    || is_some f.status
    || f.has_vulns
    || truthy f.verdict

-- `value || undefined`
abbrev pub or_undefined : String → Option String
or_undefined s = if truthy s then some s else none

abbrev pub request_secured : SecFilter → Option Bool
request_secured any_protocol = none
request_secured https = some true
request_secured http = some false

-- The argument of `api.search` for a page of results.
unfoldable pub request : Reader → Filters → ℕ → SearchParams
unfolding show_number
request reader f page = record {
  q = or_undefined f.debounced;
  network = or_undefined f.network;
  time_range = f.time_range;
  port = if truthy f.port then some (show_number (reader.to_number f.port)) else none;
  status = Option.map show_number f.status;
  secured = request_secured f.sec;
  product = none;
  has_vulns = if f.has_vulns then some true else none;
  tag = none;
  verdict = or_undefined f.verdict;
  sort = some f.sort;
  limit = some page_size;
  offset = some (page * page_size);
}
