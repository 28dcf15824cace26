-- ===== src/Search/Filters/Request.antt =====
-- What a page of results asks the server for.
use reachable_web_observator.Common.{
  nat_eq, string_eq, ℕ, ◌+◌, ◌*◌, ◌≡◌, ap, ◌∙◌, ◌↔◌, false, none, some, arith,
}
use reachable_web_observator.Js.Number.{Reader, show}
use reachable_web_observator.Js.Params.{get}
use reachable_web_observator.Api.Query.{SearchParams, search_query}
use reachable_web_observator.Api.Query.Laws.{search_query_lem}
use reachable_web_observator.Search.Filters.{Filters, request, is_active}

-- The request names no filter: only the window, the order and the page are given.
abbrev pub NamesNoFilter : SearchParams → Type 0
NamesNoFilter p =
    (p.q ≡ none)
    × (p.network ≡ none)
    × (p.port ≡ none)
    × (p.status ≡ none)
    × (p.secured ≡ none)
    × (p.has_vulns ≡ none)
    × (p.verdict ≡ none)

-- The page searches exactly when its request would name some filter, so an inactive page never
-- hides a query and an active one never asks for everything.
pub is_active-eq-false_iff :
    (reader : Reader) (f : Filters) (page : ℕ)
    → (is_active f ≡ false) ↔ NamesNoFilter (request reader f page)
unfolding is_active request
is_active-eq-false_iff reader f page = ground arith

-- Successive pages are adjacent: each asks for 24 results from where the page before it ended.
request-adjacent :
    (reader : Reader) (f : Filters) (page : ℕ)
    → let sent = search_query (request reader f page) in
      let next = search_query (request reader f (page + 1)) in
      (get "limit" sent ≡ some (show 24))
      × (get "limit" next ≡ some (show 24))
      × (get "offset" sent ≡ some (show (24 * page)))
      × (get "offset" next ≡ some (show (24 * page + 24)))
unfolding request
request-adjacent reader f page =
    let before : page * 24 ≡ 24 * page = omega arith in
    let after : (page + 1) * 24 ≡ 24 * page + 24 = omega arith in
    let here = search_query_lem (request reader f page) in
    let next = search_query_lem (request reader f (page + 1)) in
    (
      here.11,
      next.11,
      here.12 ∙ ap (λ n. some (show n)) before,
      next.12 ∙ ap (λ n. some (show n)) after,
    )
