-- ===== src/ObservationMap/State/Order.antt =====
-- What the filters of the observation map show, and what a change of its request does.
use reachable_web_observator.Common.{
  if◌then◌else◌, length, any, keep, length-keep, All, nat_eq, string_eq, ℕ, ◌+◌, ◌-◌, ◌≡◌, refl,
  Bool, true, false, not, ◌||◌, Option, none, some, List, [], ◌∷◌, arith,
}
use reachable_web_observator.Api.Types.{MapEntry, MapMode, MapResponse}
use reachable_web_observator.ObservationMap.Points.{in_layers}
use reachable_web_observator.ObservationMap.State.Laws.{IsValid, IsShown}
use reachable_web_observator.ObservationMap.State.{
  State, Event, resolve, reject, finish, alive, handle, step, commit, selection_effect,
  fetch_effect, same_fetch, visible_points, focused_points, https_count, http_count, kept_selection,
  shown, mode_eq, bool_eq, mode_of,
}

length_layers :
    (a b : Bool) (points : List MapEntry)
    → (a || b) ≡ true
    → length (keep (in_layers a b) points)
      ≡ (if a then length (keep (λ p. p.secured) points) else 0)
        + (if b then length points - length (keep (λ p. p.secured) points) else 0)
unfolding in_layers
length_layers a b [] h = ground arith
length_layers a b (p ∷ ps) h =
    ground (arith, length_layers a b ps h, length-keep (λ p. p.secured) ps)

-- As long as one layer is on, the number of markers on the map is the sum of the counts that the
-- legend shows for the layers that are on.
length-visible_points :
    (s : State)
    → (s.show_https || s.show_http) ≡ true
    → length (visible_points s)
      ≡ (if s.show_https then https_count s else 0) + (if s.show_http then http_count s else 0)
unfolding visible_points https_count http_count
length-visible_points s h = length_layers s.show_https s.show_http (focused_points s) h

kept_selection_of_shown :
    (points : List MapEntry) (o : Option MapEntry) → IsShown points o → kept_selection points o ≡ o
kept_selection_of_shown points none h = refl
kept_selection_of_shown points (some p) h = rw h refl

any_of_shown :
    (points cluster : List MapEntry)
    → All (λ p. shown points p ≡ true) cluster
    → any (λ p. not (shown points p)) cluster ≡ false
any_of_shown points [] h = refl
any_of_shown points (p ∷ ps) h = rw (h.0) (any_of_shown points ps h.1)

selection_effect_idle : (s : State) → IsValid s → selection_effect s ≡ s
unfolding selection_effect
selection_effect_idle s v = simp (
  kept_selection_of_shown (visible_points s) s.selected v.selection,
  any_of_shown (visible_points s) s.cluster v.cluster,
)

mode_eq_refl : (m : MapMode) → mode_eq m m ≡ true
mode_eq_refl m = ground arith

bool_eq_refl : (b : Bool) → bool_eq b b ≡ true
bool_eq_refl b = ground arith

same_fetch_refl : (s : State) → same_fetch s s ≡ true
unfolding same_fetch
same_fetch_refl s = ground (arith, mode_eq_refl (mode_of s), bool_eq_refl s.props.full)

commit_idle : (s : State) → IsValid s → commit s s ≡ s
unfolding commit
commit_idle s v = rw (same_fetch_refl s) (selection_effect_idle s v)

-- The answer to a request that a later one has replaced changes nothing in a valid state, whether
-- it is a result, an error or the end of the request.
map_step_of_stale :
    (id : ℕ) (r : MapResponse) (s : State)
    → IsValid s
    → alive id s.live ≡ false
    → (step (resolve id r) s ≡ s) × (step (reject id) s ≡ s) × (step (finish id) s ≡ s)
unfolding step handle
map_step_of_stale id r s v gone = rw gone (commit_idle s v, commit_idle s v, commit_idle s v)

-- An event that changes the request starts over: nothing is selected or focused, an error is gone,
-- the map is loading, and the points of the old request stay until the answer comes.
step_of_refetch :
    (e : Event) (s : State)
    → same_fetch s (handle e s) ≡ false
    → ((step e s).selected ≡ none)
      × ((step e s).cluster ≡ [])
      × ((step e s).focus_country ≡ "")
      × ((step e s).focus_network ≡ "")
      × ((step e s).error ≡ false)
      × ((step e s).loading ≡ true)
      × ((step e s).data_ ≡ (handle e s).data_)
unfolding step commit fetch_effect selection_effect
step_of_refetch e s changed = rw changed (refl, refl, refl, refl, refl, refl, refl)
