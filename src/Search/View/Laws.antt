-- ===== src/Search/View/Laws.antt =====
-- What the panels of the search page mean in a valid state.
use reachable_web_observator.Common.{
  ◌==◌, length, nat_eq, string_eq, ◌≡◌, refl, ◌⊎◌, inl, inr, true, false, List, [], ◌∷◌, arith,
}
use reachable_web_observator.Js.Number.{Reader}
use reachable_web_observator.Api.Types.{Tile}
use reachable_web_observator.Search.Filters.{is_active}
use reachable_web_observator.Search.State.{State}
use reachable_web_observator.Search.State.Laws.{IsValid}
use reachable_web_observator.Search.View.{introduction, failed, no_match, panel}

introduction-inactive : (s : State) → panel s ≡ introduction → is_active s.filters ≡ false
unfolding panel
introduction-inactive s h = ground arith

none_of_length : (tiles : List Tile) → (length tiles == 0) ≡ true → tiles ≡ []
none_of_length [] h = refl
none_of_length (t ∷ tiles) h = ground arith

length_of_panel :
    (s : State) → (panel s ≡ failed) ⊎ (panel s ≡ no_match) → (length s.tiles == 0) ≡ true
unfolding panel
length_of_panel s h = ground arith

-- In a valid state, the panels that hide the results are shown only when there are none: the
-- introduction, the report of a failure and the report that nothing matches.
panel-tiles :
    (reader : Reader) (s : State)
    → IsValid reader s
    → (panel s ≡ introduction) ⊎ ((panel s ≡ failed) ⊎ (panel s ≡ no_match))
    → s.tiles ≡ []
panel-tiles reader s v (inl h) = v.fetched.quiet (introduction-inactive s h)
panel-tiles reader s v (inr h) = none_of_length s.tiles (length_of_panel s h)
