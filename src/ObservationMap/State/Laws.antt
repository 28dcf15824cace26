-- ===== src/ObservationMap/State/Laws.antt =====
-- The invariant of the observation map.
use reachable_web_observator.Common.{
  if◌then◌else◌, Bool-cases, any, All, nat_eq, string_eq, ◌≡◌, refl, sym, ◌∙◌, subst, ◌⊎◌, inl, inr,
  Bool, true, false, not, ◌||◌, Option, none, some, List, [], ◌∷◌, arith,
}
use reachable_web_observator.Api.Types.{MapEntry, MapMode}
use reachable_web_observator.ObservationMap.State.{
  State, Props, Flight, Event, handle, mount, step, run, commit, selection_effect, fetch_effect,
  same_fetch, mode_of, hours_of, kept_selection, shown, visible_points, focused_points, mode_eq,
  bool_eq,
}

-- What is selected is on the map.
abbrev pub IsShown : List MapEntry → Option MapEntry → Type 0
IsShown points none = Unit
IsShown points (some point) = shown points point ≡ true

-- The run in flight asks for the mode, the window and the number of points of the state.
abbrev pub IsCurrent : State → Option Flight → Type 0
IsCurrent s none = ⊥
IsCurrent s (some flight) =
    (flight.mode ≡ mode_of s)
    × (flight.hours ≡ hours_of s)
    × (flight.limit ≡ (if s.props.full then 1000 else 500))

pub record IsValid (s : State) : Type 0 where
  pub layered : (s.show_https || s.show_http) ≡ true
  pub current : IsCurrent s s.live
  pub selection : IsShown (visible_points s) s.selected
  pub cluster : All (λ p. shown (visible_points s) p ≡ true) s.cluster
  pub exclusive : (s.selected ≡ none) ⊎ (s.cluster ≡ [])

-- What a handler leaves to the effects.
record IsPending (s : State) : Type 0 where
  layered : (s.show_https || s.show_http) ≡ true
  exclusive : (s.selected ≡ none) ⊎ (s.cluster ≡ [])

kept_selection-IsShown :
    (points : List MapEntry) (o : Option MapEntry) → IsShown points (kept_selection points o)
kept_selection-IsShown points none = tt
kept_selection-IsShown points (some p) = elim (Bool-cases (shown points p)) [
  | inl h ↦ rw h h
  | inr h ↦ rw h tt
]

All-shown :
    (points cluster : List MapEntry)
    → any (λ p. not (shown points p)) cluster ≡ false
    → All (λ p. shown points p ≡ true) cluster
All-shown points [] h = tt
All-shown points (p ∷ ps) h = (ground arith, All-shown points ps (ground arith))

kept_cluster-All :
    (points cluster : List MapEntry)
    → All
        (λ p. shown points p ≡ true)
        (if any (λ p. not (shown points p)) cluster then [] else cluster)
kept_cluster-All points cluster = elim (Bool-cases (any (λ p. not (shown points p)) cluster)) [
  | inl gone ↦ rw gone tt
  | inr kept ↦ rw kept (All-shown points cluster kept)
]

exclusive-kept :
    (points : List MapEntry) (o : Option MapEntry) (cluster : List MapEntry)
    → (o ≡ none) ⊎ (cluster ≡ [])
    → (kept_selection points o ≡ none)
      ⊎ ((if any (λ p. not (shown points p)) cluster then [] else cluster) ≡ [])
exclusive-kept points o cluster h = ground arith

IsValid-selection_effect :
    (s : State) → IsPending s → IsCurrent s s.live → IsValid (selection_effect s)
unfolding selection_effect visible_points focused_points
IsValid-selection_effect s p c = record {
  layered = p.layered;
  current = c;
  selection = kept_selection-IsShown _ s.selected;
  cluster = kept_cluster-All _ s.cluster;
  exclusive = exclusive-kept _ s.selected s.cluster p.exclusive;
}

layered-handle :
    (e : Event) (s : State)
    → (s.show_https || s.show_http) ≡ true
    → ((handle e s).show_https || (handle e s).show_http) ≡ true
unfolding handle
layered-handle e s h = ground arith

exclusive-handle :
    (e : Event) (s : State)
    → (s.selected ≡ none) ⊎ (s.cluster ≡ [])
    → ((handle e s).selected ≡ none) ⊎ ((handle e s).cluster ≡ [])
unfolding handle
exclusive-handle e s h = ground arith

live-handle : (e : Event) (s : State) → (handle e s).live ≡ s.live
unfolding handle
live-handle e s = ground arith

handle-IsPending : (e : Event) (s : State) → IsValid s → IsPending (handle e s)
handle-IsPending e s v = record {
  layered = layered-handle e s v.layered;
  exclusive = exclusive-handle e s v.exclusive;
}

mode_eq_sound : (a b : MapMode) → mode_eq a b ≡ true → a ≡ b
mode_eq_sound a b h = ground arith

bool_eq_sound : (a b : Bool) → bool_eq a b ≡ true → a ≡ b
bool_eq_sound a b h = ground arith

IsCurrent-of_same :
    (old s : State) (live : Option Flight)
    → same_fetch old s ≡ true
    → IsCurrent old live
    → IsCurrent s live
unfolding same_fetch
IsCurrent-of_same old s none h c = c
IsCurrent-of_same old s (some run) h (m, hours, limit) =
    let modes = mode_eq_sound (mode_of old) (mode_of s) (ground arith) in
    let full = bool_eq_sound old.props.full s.props.full (ground arith) in
    (m ∙ modes, ground arith, limit ∙ rw full)

fetch_effect-IsPending : (s : State) → IsPending s → IsPending (fetch_effect s)
unfolding fetch_effect
fetch_effect-IsPending s p = record { layered = p.layered; exclusive = inl refl }

fetch_effect-IsCurrent : (s : State) → IsCurrent (fetch_effect s) (fetch_effect s).live
unfolding fetch_effect
fetch_effect-IsCurrent s = (refl, refl, refl)

commit-IsValid : (old s : State) → IsCurrent old s.live → IsPending s → IsValid (commit old s)
unfolding commit
commit-IsValid old s c p = elim (Bool-cases (same_fetch old s)) [
  | inl same ↦ rw same (IsValid-selection_effect s p (IsCurrent-of_same old s s.live same c))
  | inr changed ↦ rw changed (
      IsValid-selection_effect (fetch_effect s) (fetch_effect-IsPending s p)
        (fetch_effect-IsCurrent s))
]

-- Every event keeps the map valid.
pub step-IsValid : (e : Event) (s : State) → IsValid s → IsValid (step e s)
unfolding step
step-IsValid e s v =
    commit-IsValid s (handle e s) (subst (IsCurrent s) (sym (live-handle e s)) v.current)
      (handle-IsPending e s v)

mount-IsValid : (props : Props) → IsValid (mount props)
unfolding mount fetch_effect
mount-IsValid props = record {
  layered = refl;
  current = (refl, refl, refl);
  selection = tt;
  cluster = tt;
  exclusive = inl refl;
}

run-IsValid : (events : List Event) (s : State) → IsValid s → IsValid (run s events)
unfolding run
run-IsValid [] s v = v
run-IsValid (e ∷ events) s v = run-IsValid events (step e s) (step-IsValid e s v)

-- After any sequence of events, one of the two layers is on, the request in flight is the one for
-- the layer and the window of the page, the selected host and every host of the selected cluster
-- are among the visible points, and a host and a cluster are never selected together.
pub map-IsValid : (props : Props) (events : List Event) → IsValid (run (mount props) events)
map-IsValid props events = run-IsValid events (mount props) (mount-IsValid props)
