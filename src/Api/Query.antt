-- ===== src/Api/Query.antt =====
-- `SearchParams` and `searchQuery` of api.ts.
pub mod Laws
use mathlib.Core.Option
use reachable_web_observator.Common.{
  truthy, or_else, nat_eq, string_eq, ℕ, String, Bool, true, false, not, Option, none, some, [],
  map,
}
use reachable_web_observator.Js.Number.{show}
use reachable_web_observator.Js.Params.{Params, set, set_if}

pub data SortMode : Type 0 where
  newest relevance vulns ip : SortMode

unfoldable pub show_sort : SortMode → String
show_sort newest = "newest"
show_sort relevance = "relevance"
show_sort vulns = "vulns"
show_sort ip = "ip"

-- The status is given as the text of its number, which need not be whole.
pub record SearchParams : Type 0 where
  pub q : Option String
  pub network : Option String
  pub time_range : Option ℕ
  pub port : Option String
  pub status : Option String
  pub secured : Option Bool
  pub product : Option String
  pub has_vulns : Option Bool
  pub tag : Option String
  pub verdict : Option String
  pub sort : Option SortMode
  pub limit : Option ℕ
  pub offset : Option ℕ

-- `if (value) q.set(name, value)`
unfoldable pub set_truthy : String → Option String → Params → Params
unfolding set_if
set_truthy name none params = params
set_truthy name (some value) params = set_if (truthy value) name value params

-- `if (value != null) q.set(name, value)`, the value already printed.
unfoldable pub set_given : String → Option String → Params → Params
set_given name none params = params
set_given name (some value) params = set name value params

unfoldable pub show_bool : Bool → String
show_bool true = "true"
show_bool false = "false"

-- The statements of `searchQuery`, in order, up to the serialisation by `toString`.
unfoldable pub search_query : SearchParams → Params
unfolding set_truthy set_given show_bool show show_sort set_if
search_query p =
    let q0 = set_truthy "q" p.q [] in
    let q1 = set_truthy "network" p.network q0 in
    let q2 = set_given "time_range" (Option.map show p.time_range) q1 in
    let q3 = set_given "port" p.port q2 in
    let q4 = set_given "status" p.status q3 in
    let q5 = set_given "secured" (Option.map show_bool p.secured) q4 in
    let q6 = set_truthy "product" p.product q5 in
    let q7 = set_if (or_else p.has_vulns false) "has_vulns" "1" q6 in
    let q8 = set_truthy "tag" p.tag q7 in
    let q9 = set_truthy "verdict" p.verdict q8 in
    let q10 = set_given "sort" (Option.map show_sort p.sort) q9 in
    let q11 = set "limit" (show (or_else p.limit 60)) q10 in
    set "offset" (show (or_else p.offset 0)) q11
