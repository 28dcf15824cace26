-- ===== src/Tests/Client.antt =====
-- The client, the clusters of the map and the cross-references at concrete inputs.
use native.Mathlib.Nat.{lt-mul-div-succ, div-lt_iff_lt-mul}
use reachable_web_observator.Common.{
  ltb, ◌==◌, nat_eq, string_eq, ℕ, zero, suc, ◌+◌, ◌-◌, ◌*◌, ◌/◌, ◌≤◌, ◌<◌, min, max, String, ◌≡◌,
  refl, ◌↔◌, ◌⊎◌, true, false, ◌||◌, none, some, List, [], ◌∷◌, arith,
}
use reachable_web_observator.Js.Number.{show}
use reachable_web_observator.Js.Map.{lookup}
use reachable_web_observator.Js.Params.{get}
use reachable_web_observator.Js.Float.{Float, Order}
use reachable_web_observator.Api.Query.{SearchParams, newest, show_sort, show_bool, search_query}
use reachable_web_observator.Api.Query.Laws.{nonempty, search_query_lem}
use reachable_web_observator.Api.Cache.{
  Cache, empty, stats, fail, fresh_hit, fresh, call, failure as range_failure, Event as CacheEvent,
  run as cache_run,
}
use reachable_web_observator.Api.Cache.Laws.{stats_shared, stats-fail}
use reachable_web_observator.Api.Client.{Reply, response, json, get as fetch_json, is_offline}
use reachable_web_observator.Api.Client.Laws.{MeansDown, is_offline-get_iff}
use reachable_web_observator.Metadata.{
  RouteMeta, Head, robots, described, canonical, use_meta, escape_attribute,
}
use reachable_web_observator.Metadata.Laws.{use_meta_lem, has_code, escape_attribute-safe}
use reachable_web_observator.InteractiveWorldMap.Clusters.{Projected, clusters}
use reachable_web_observator.InteractiveWorldMap.Clusters.Laws.{IsClustering, clusters-IsClustering}
use reachable_web_observator.InteractiveWorldMap.View as View
use reachable_web_observator.InteractiveWorldMap.View.Laws as ViewLaws
use reachable_web_observator.Tests.{entry}

abbrev query : SearchParams
query = record {
  q = some "nginx";
  network = some "";
  time_range = some 24;
  port = some "443";
  status = none;
  secured = some true;
  product = none;
  has_vulns = some false;
  tag = none;
  verdict = none;
  sort = some newest;
  limit = none;
  offset = some 48;
}

search_query_lem_example :
    (get "q" (search_query query) ≡ nonempty (some "nginx"))
    × (get "network" (search_query query) ≡ nonempty (some ""))
    × (get "time_range" (search_query query) ≡ some (show 24))
    × (get "port" (search_query query) ≡ some "443")
    × (get "status" (search_query query) ≡ none)
    × (get "secured" (search_query query) ≡ some (show_bool true))
    × (get "product" (search_query query) ≡ nonempty none)
    × (get "has_vulns" (search_query query) ≡ none)
    × (get "tag" (search_query query) ≡ nonempty none)
    × (get "verdict" (search_query query) ≡ nonempty none)
    × (get "sort" (search_query query) ≡ some (show_sort newest))
    × (get "limit" (search_query query) ≡ some (show 60))
    × (get "offset" (search_query query) ≡ some (show 48))
search_query_lem_example = search_query_lem query

no_entry : fresh_hit 100 24 empty ≡ none
unfolding fresh lookup
no_entry = refl

abbrev between : List CacheEvent
between = call 5000 24 ∷ range_failure 1 ∷ call 9000 1 ∷ []

stats_shared_example :
    stats 20000 24 (cache_run (stats 100 24 empty).0 between)
    ≡ (cache_run (stats 100 24 empty).0 between, (stats 100 24 empty).1)
stats_shared_example =
    stats_shared 100 20000 24 empty between tt no_entry
      (omega arith, ((λ h. absurd (omega (arith, h))), (omega arith, tt))) (omega arith)

abbrev cached : Cache
cached = record {
  entries = (24, record { at = 100; promise = 0 }) ∷ [];
  next = 1;
  sent = (0, 24) ∷ [];
}

stats-fail_example : (stats 200 24 (fail 24 cached)).0.sent ≡ (1, 24) ∷ (0, 24) ∷ []
stats-fail_example = stats-fail 200 24 cached (tt, tt)

abbrev failure : Reply ℕ
failure = response 503 (json true 0)

is_offline-get_iff_example :
    (is_offline (fetch_json "/api/v2/stats" failure) ≡ true) ↔ MeansDown failure
is_offline-get_iff_example = is_offline-get_iff "/api/v2/stats" failure

-- Whole numbers as the numbers of the map.
abbrev numbers : Float
numbers = record {
  F = ℕ;
  of_nat = λ n. n;
  add = λ a b. a + b;
  sub = λ a b. a - b;
  mul = λ a b. a * b;
  div = λ a b. a / b;
  lowest = λ a b. min a b;
  greatest = λ a b. max a b;
  lt = ltb;
  same = λ a b. a == b;
  floor_text = show;
}

ratio_bound : (m n : ℕ) → 1 ≤ n → m ≤ 1000 → (ltb (m / n) 1000 || m / n == 1000) ≡ true
ratio_bound m n one h =
    let below =
      (div-lt_iff_lt-mul {k = n} {x = m} {y = 1001} (omega (arith, one))).1
        (omega (arith, one, h)) in
    ground (arith, below)

positive_of : (m n q : ℕ) → n ≤ m → m < n * (q + 1) → (ltb 1 q || 1 == q) ≡ true
positive_of m n zero h k = absurd (omega (arith, h, k))
positive_of m n (suc q) h k = ground arith

ratio_one : (m n : ℕ) → 1 ≤ n → n ≤ m → (ltb 1 (m / n) || 1 == m / n) ≡ true
ratio_one m n one h = positive_of m n (m / n) h (lt-mul-div-succ m {b = n} (omega (arith, one)))

numbers-Order : Order numbers
numbers-Order = record {
  at_most_trans = λ a b c h k. ground arith;
  of_nat_mono = λ m n h k. ground arith;
  lowest_left = λ a b h k. ground arith;
  lowest_of_bounds = λ a b c h k. ground arith;
  greatest_left = λ a b h k. ground arith;
  greatest_right = λ a b h k. ground arith;
  greatest_number = λ a b h k. ground arith;
  ratio_small = λ m n one hm hn. (ground arith, ratio_bound m n one hm);
  ratio_above = λ m n one above hm. ratio_one m n one above;
  mul_number = λ a b h k. ground arith;
  div_number = λ a b h k l. ground arith;
}

abbrev markers : List (Projected numbers)
markers =
    record { point = entry "203.0.113.1" true; key = "203.0.113.1:80"; x = 10; y = 10 }
    ∷ record { point = entry "203.0.113.2" false; key = "203.0.113.2:80"; x = 12; y = 11 }
    ∷ record { point = entry "203.0.113.3" false; key = "203.0.113.3:80"; x = 700; y = 90 }
    ∷ []

clusters-IsClustering_example : IsClustering numbers 1 markers (clusters numbers 1 markers)
clusters-IsClustering_example = clusters-IsClustering numbers 1 markers

abbrev view_events : List (View.Event numbers)
view_events = View.zoom_in ∷ View.pointer_down 0 1 5 5 ∷ View.wheel true none 3 3 ∷ View.reset ∷ []

view-IsValid_example :
    ViewLaws.IsValid numbers numbers-Order (View.run numbers (View.mount numbers) view_events)
view-IsValid_example = ViewLaws.view-IsValid numbers numbers-Order view_events

abbrev meta : RouteMeta
meta = record {
  title = "Search observations";
  description = none;
  path = some "/search";
  no_index = false;
  follow_when_no_index = false;
}

abbrev head : Head
head = record { title = "Feed"; elements = ("meta[description]", "The feed") ∷ [] }

use_meta_lem_example :
    ((use_meta "/" meta head).title ≡ meta.title)
    × (get "link[canonical]" (use_meta "/" meta head).elements ≡ some (canonical "/" meta))
    × (get "meta[og:url]" (use_meta "/" meta head).elements
        ≡ get "link[canonical]" (use_meta "/" meta head).elements)
    × (get "meta[robots]" (use_meta "/" meta head).elements ≡ some (robots meta))
    × (get "meta[og:title]" (use_meta "/" meta head).elements ≡ some meta.title)
    × (get "meta[twitter:title]" (use_meta "/" meta head).elements ≡ some meta.title)
    × (get "meta[description]" (use_meta "/" meta head).elements
        ≡ get "meta[description]" head.elements)
    × (get "meta[og:description]" (use_meta "/" meta head).elements
        ≡ get "meta[og:description]" head.elements)
    × (get "meta[twitter:description]" (use_meta "/" meta head).elements
        ≡ get "meta[twitter:description]" head.elements)
    × ((described meta ≡ false)
        ⊎ ((before_path : String) (before : RouteMeta) (name : String)
            → get name (use_meta "/" meta (use_meta before_path before head)).elements
              ≡ get name (use_meta "/" meta head).elements))
use_meta_lem_example = use_meta_lem "/" meta head

escape_attribute-safe_example :
    (has_code b'"' (escape_attribute "a \"<b>\"") ≡ false)
    × (has_code b'<' (escape_attribute "a \"<b>\"") ≡ false)
    × (has_code b'>' (escape_attribute "a \"<b>\"") ≡ false)
escape_attribute-safe_example = escape_attribute-safe "a \"<b>\""
