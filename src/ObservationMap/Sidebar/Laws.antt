-- ===== src/ObservationMap/Sidebar/Laws.antt =====
-- The sidebar shows what is on the map, and leads to the hosts of a network.
use reachable_web_observator.Common.{
  ltb, truthy, ltb→lt, Bool-cases, length, All, trim, nat_eq, string_eq, ℕ, ◌≤◌, String, ◌≡◌, refl,
  subst, inl, inr, true, Option, none, some, List,
}
use reachable_web_observator.Js.Number.{Reader, max_safe}
use reachable_web_observator.Js.Params.{Params}
use reachable_web_observator.Js.Map.{upsert}
use reachable_web_observator.Js.Ranking.{Locale}
use reachable_web_observator.Api.Types.{MapEntry}
use reachable_web_observator.ObservationMap.State.{
  State, Props, Event, mount, run, shown, visible_points,
}
use reachable_web_observator.ObservationMap.State.Laws.{IsShown, map-IsValid}
use reachable_web_observator.ObservationMap.Sidebar.{
  details, overlapping, sidebar_of, sidebar, network_search,
}
use reachable_web_observator.Search.Filters.{seed}
use reachable_web_observator.Stats.Links.{network_link, search_params}
use reachable_web_observator.Stats.Links.Laws.{only, seed-links}

IsShown-details :
    (locale : Locale) (s : State) (points : List MapEntry) (selected : Option MapEntry)
    (p : MapEntry)
    → IsShown points selected
    → sidebar_of locale s selected ≡ details p
    → shown points p ≡ true
IsShown-details locale s points (some q) p h e =
    let same : q ≡ p = cc in subst (λ x. shown points x ≡ true) same h
IsShown-details locale s points none p h e = elim (Bool-cases (ltb 1 (length s.cluster))) [
  | inl many ↦ let k = rw many at e in cc
  | inr few ↦ let k = rw few at e in cc
]

cluster_of_overlapping :
    (locale : Locale) (s : State) (selected : Option MapEntry) (points : List MapEntry)
    → sidebar_of locale s selected ≡ overlapping points
    → (s.cluster ≡ points) × (ltb 1 (length s.cluster) ≡ true)
cluster_of_overlapping locale s (some q) points e = cc
cluster_of_overlapping locale s none points e = elim (Bool-cases (ltb 1 (length s.cluster))) [
  | inl many ↦ let k = rw many at e in let same : s.cluster ≡ points = cc in (same, many)
  | inr few ↦ let k = rw few at e in cc
]

-- After any events, the host that the sidebar details is a visible point of the map, and a list of
-- overlapping hosts has at least two, all of them visible.
pub sidebar-shown :
    (locale : Locale) (props : Props) (events : List Event)
    → let s = run (mount props) events in
      ((p : MapEntry) → sidebar locale s ≡ details p → shown (visible_points s) p ≡ true)
      × ((points : List MapEntry)
          → sidebar locale s ≡ overlapping points
          → (2 ≤ length points) × All (λ p. shown (visible_points s) p ≡ true) points)
unfolding sidebar
sidebar-shown locale props events =
    let s = run (mount props) events in
    let v = map-IsValid props events in
    (
      λ p e. IsShown-details locale s (visible_points s) s.selected p v.selection e,
      λ points e.
          let (same, many) = cluster_of_overlapping locale s s.selected points e in
          (
            subst (λ c. 2 ≤ length c) same (ltb→lt 1 (length s.cluster) many),
            subst (All (λ p. shown (visible_points s) p ≡ true)) same v.cluster,
          ),
    )

-- For a host with a network and a window that is a safe integer, the sidebar's link opens the
-- search page with that network alone, trimmed, the window of the map, and grouped by host.
seed-network_search :
    (reader : Reader) (hours : ℕ) (p : MapEntry) (network : String)
    → hours ≤ max_safe
    → p.network ≡ some network
    → truthy network ≡ true
    → (query : Params) × (network_search hours p ≡ some query)
      × (seed reader query ≡ record (only hours true) { network = trim network })
unfolding network_search network_link search_params upsert
seed-network_search reader hours p network h given there =
    (network_link hours network, rw (given, there) refl, (seed-links reader hours network h).2)
