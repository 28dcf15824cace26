-- ===== src/Api/Query/Laws.antt =====
-- What the server reads back from a search query.
use reachable_web_observator.Common.{
  if◌then◌else◌, truthy, or_else, nat_eq, string_eq, String, ◌≡◌, refl, false, Option, none, some,
  arith, str_eq,
}
use mathlib.Core.Option
use reachable_web_observator.Js.Number.{show}
use reachable_web_observator.Js.Params.{Params, get}
use reachable_web_observator.Js.Params.Laws.{get-set, get-set_if, params_laws}
use reachable_web_observator.Api.Query.{
  SearchParams, set_truthy, set_given, show_bool, search_query, show_sort,
}

-- A text that is sent only when it is not empty.
abbrev pub nonempty : Option String → Option String
nonempty none = none
nonempty (some s) = if truthy s then some s else none

-- `o`, or what was there before.
abbrev or_before : Option String → Option String → Option String
or_before none before = before
or_before (some s) before = some s

get-set_truthy :
    (name other : String) (o : Option String) (params : Params)
    → get other (set_truthy name o params)
      ≡ (if str_eq name other then or_before (nonempty o) (get other params) else get other params)
unfolding set_truthy
get-set_truthy name other none params = ground arith
get-set_truthy name other (some s) params =
    ground (arith, get-set_if (truthy s) name other s params)

get-set_given :
    (name other : String) (o : Option String) (params : Params)
    → get other (set_given name o params)
      ≡ (if str_eq name other then or_before o (get other params) else get other params)
unfolding set_given
get-set_given name other none params = ground arith
get-set_given name other (some s) params = get-set name other s params

or_before-none : (o : Option String) → or_before o none ≡ o
or_before-none none = refl
or_before-none (some s) = refl

ruleset query_laws = (get-set_truthy, get-set_given, params_laws, or_before-none)

-- The server reads back every field of the request: a text field unless it is empty, the flag as
-- "1" when it is set, the other given fields as printed, the limit and the offset always, with 60
-- and 0 for missing ones.
pub search_query_lem :
    (p : SearchParams)
    → let sent = search_query p in
      (get "q" sent ≡ nonempty p.q)
      × (get "network" sent ≡ nonempty p.network)
      × (get "time_range" sent ≡ Option.map show p.time_range)
      × (get "port" sent ≡ p.port)
      × (get "status" sent ≡ p.status)
      × (get "secured" sent ≡ Option.map show_bool p.secured)
      × (get "product" sent ≡ nonempty p.product)
      × (get "has_vulns" sent ≡ (if or_else p.has_vulns false then some "1" else none))
      × (get "tag" sent ≡ nonempty p.tag)
      × (get "verdict" sent ≡ nonempty p.verdict)
      × (get "sort" sent ≡ Option.map show_sort p.sort)
      × (get "limit" sent ≡ some (show (or_else p.limit 60)))
      × (get "offset" sent ≡ some (show (or_else p.offset 0)))
unfolding search_query
search_query_lem p = (
  simp query_laws,
  simp query_laws,
  simp query_laws,
  simp query_laws,
  simp query_laws,
  simp query_laws,
  simp query_laws,
  simp query_laws,
  simp query_laws,
  simp query_laws,
  simp query_laws,
  simp query_laws,
  simp query_laws,
)
