-- ===== src/Tests/Search.antt =====
-- The search page and the feed at concrete inputs.
use reachable_web_observator.Common.{
  is_space, trim_start, trim_end, trim, nat_eq, string_eq, ℕ, ◌≡◌, refl, sym, ap, ◌∙◌, ◌≢◌, ◌↔◌,
  true, false, Option, none, some, List, [], ◌∷◌, arith,
}
use reachable_web_observator.Js.Number.Decimal.{decimal_reader}
use reachable_web_observator.Common.Text.Laws.{trim-empty}
use reachable_web_observator.Js.Number.{whole, number_eq}
use reachable_web_observator.Js.Params.{Params}
use reachable_web_observator.Api.Query.{newest}
use reachable_web_observator.Search.Filters.{Filters, https, seed, link, is_active, request}
use reachable_web_observator.Search.Filters.Link.{seed-link}
use reachable_web_observator.Search.Filters.Request.{NamesNoFilter, is_active-eq-false_iff}
use reachable_web_observator.Search.Grouping.{group_search_tiles}
use reachable_web_observator.Search.Grouping.Laws.{IsGrouping, group_search_tiles-IsGrouping}
use reachable_web_observator.Search.State.{
  State, Event, type_query, debounce, resolve, reject, finish, load_more, retry, Flight, handle,
}
use reachable_web_observator.Search.State.Steps.{
  mount, run, step, commit, timer_effect, link_effect, refetch_effect, page_effect, fetch_effect,
}
use reachable_web_observator.Search.State.Same.{
  same_query, bool_eq, range_eq, status_eq, sec_eq, sort_eq,
}
use reachable_web_observator.Search.State.Laws.{IsValid}
use reachable_web_observator.Search.State.Superseded.{run_of_superseded}
use reachable_web_observator.Search.State.Sessions.{search-IsValid}
use reachable_web_observator.Feed.Grouping.{feed_groups}
use reachable_web_observator.Feed.Grouping.Laws.{feed_groups_by_host}
use reachable_web_observator.Tests.{tiles, answer_of}

abbrev url : Params
url = ("q", "nginx") ∷ ("port", "443") ∷ []

abbrev events : List Event
events =
    resolve 0 (answer_of tiles)
    ∷ load_more
    ∷ resolve 0 (answer_of [])
    ∷ type_query "apache"
    ∷ debounce
    ∷ []

search-IsValid_example :
    IsValid decimal_reader (run decimal_reader (mount decimal_reader url) events)
search-IsValid_example = search-IsValid decimal_reader url events

abbrev filters : Filters
filters = record {
  q = "nginx";
  debounced = "nginx";
  network = "";
  time_range = some 168;
  port = "443";
  sec = https;
  status = some (whole 200);
  has_vulns = true;
  verdict = "";
  sort = newest;
  group_hosts = true;
}

trim-nginx : trim "nginx" ≡ "nginx"
unfolding reachable_web_observator.Common.Text.trim reachable_web_observator.Common.Text.trim_start
    reachable_web_observator.Common.Text.trim_end reachable_web_observator.Common.Text.is_space
trim-nginx = refl

seed-link_example : seed decimal_reader (link filters) ≡ filters
seed-link_example = seed-link decimal_reader filters (record {
  trimmed = trim-nginx;
  trimmed_network = trim-empty;
  safe_range = omega arith;
  safe_status = omega arith;
})

abbrev second : State
second = record {
  filters = filters;
  url = [];
  tiles = tiles;
  page = 1;
  has_more = true;
  total = 40;
  total_hosts = 2;
  announcement = "";
  loading = true;
  touched = true;
  error = false;
  reload_key = 0;
  timer = false;
  live = some (record { id = 4; page = 1; request = request decimal_reader filters 1 });
  next_id = 5;
}

-- A retry replaces the run 4 by the run 5.
abbrev live_id : Option Flight → ℕ
live_id none = 0
live_id (some flight) = flight.id

retried_live : live_id (step decimal_reader retry second).live ≡ 5
unfolding step handle commit timer_effect link_effect refetch_effect page_effect fetch_effect
    is_active same_query bool_eq range_eq status_eq sec_eq sort_eq number_eq
retried_live = refl

retried : (step decimal_reader retry second).live ≢ second.live
retried same = let e : 5 ≡ 4 = sym retried_live ∙ ap live_id same in absurd (omega (arith, e))

run_of_superseded_example :
    let t = run decimal_reader (step decimal_reader retry second) (load_more ∷ []) in
    (step decimal_reader (resolve 4 (answer_of tiles)) t ≡ t)
    × (step decimal_reader (reject 4) t ≡ t)
    × (step decimal_reader (finish 4) t ≡ t)
run_of_superseded_example =
    run_of_superseded decimal_reader retry (load_more ∷ []) second 4 (answer_of tiles) (omega arith)
      retried

group_search_tiles-IsGrouping_example : IsGrouping tiles (group_search_tiles tiles true)
group_search_tiles-IsGrouping_example = group_search_tiles-IsGrouping tiles

feed_groups_by_host_example : feed_groups tiles true ≡ group_search_tiles tiles true
feed_groups_by_host_example = feed_groups_by_host tiles

is_active-eq-false_iff_example :
    (is_active filters ≡ false) ↔ NamesNoFilter (request decimal_reader filters 1)
is_active-eq-false_iff_example = is_active-eq-false_iff decimal_reader filters 1
