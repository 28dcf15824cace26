-- ===== src/Stats/Window/Laws.antt =====
-- The statistics that are shown are those of the window.
use reachable_web_observator.Common.{
  ◌==◌, if◌then◌else◌, Bool-cases, Option-cases, nat_eq, string_eq, ℕ, ◌≡◌, refl, sym, subst, inl,
  inr, Bool, true, false, ◌&&◌, Option, none, some, List, [], ◌∷◌, arith,
}
use reachable_web_observator.Api.Types.{Stats}
use reachable_web_observator.Stats.Window.{
  resolve_trends, State, Flight, Event, resolve, reject, finish, alive, resolved, handle,
  fetch_effect, trends_effect, commit, step, mount, run,
}

abbrev pub IsFor : ℕ → Option Stats → Type 0
IsFor hours none = Unit
IsFor hours (some d) = d.time_range_hours ≡ hours

abbrev pub IsCurrent : ℕ → Option Flight → Type 0
IsCurrent hours none = ⊥
IsCurrent hours (some run) = run.hours ≡ hours

pub record IsValid (s : State) : Type 0 where
  pub shown : IsFor s.hours s.stats
  pub current : IsCurrent s.hours s.live

live-handle : (e : Event) (s : State) → (handle e s).live ≡ s.live
unfolding handle resolved
live-handle e s = ground arith

resolved-IsFor :
    (d : Stats) (run : Flight) (s : State)
    → run.hours ≡ s.hours
    → IsFor s.hours s.stats
    → IsFor s.hours (resolved d run s).stats
unfolding resolved
resolved-IsFor d run s h k = elim (Bool-cases (d.time_range_hours == run.hours)) [
  | inl same ↦ rw same (ground arith)
  | inr foreign ↦ rw foreign k
]

live_of_alive : (id : ℕ) (s : State) (run : Flight) → alive id s ≡ some run → s.live ≡ some run
unfolding alive
live_of_alive id s run h = ground arith

hours_of_alive :
    (id : ℕ) (s : State) (run : Flight)
    → IsCurrent s.hours s.live
    → alive id s ≡ some run
    → run.hours ≡ s.hours
hours_of_alive id s run c h = subst (IsCurrent s.hours) (live_of_alive id s run h) c

stats-handle : (e : Event) (s : State) → IsValid s → IsFor s.hours (handle e s).stats
unfolding handle
stats-handle (resolve id d) s v = elim (Option-cases (alive id s)) [
  | inl gone ↦ rw gone v.shown
  | inr (flight, h) ↦
      rw h (resolved-IsFor d flight s (hours_of_alive id s flight v.current h) v.shown)
]
stats-handle (reject id) s v = elim (Option-cases (alive id s)) [
  | inl gone ↦ rw gone v.shown
  | inr (flight, h) ↦ rw h v.shown
]
stats-handle (finish id) s v = elim (Option-cases (alive id s)) [
  | inl gone ↦ rw gone v.shown
  | inr (flight, h) ↦ rw h v.shown
]
stats-handle (resolve_trends id days) s v = elim (Bool-cases (s.trends_live == id)) [
  | inl now ↦ rw now v.shown
  | inr late ↦ rw late v.shown
]
stats-handle e s v = v.shown

fetched-IsValid :
    (old s : State)
    → IsFor old.hours s.stats
    → IsCurrent old.hours s.live
    → IsValid (if old.hours == s.hours && old.reload_key == s.reload_key then s else fetch_effect s)
unfolding fetch_effect
fetched-IsValid old s f c =
    elim (Bool-cases (old.hours == s.hours && old.reload_key == s.reload_key)) [
      | inl same ↦
          let e : old.hours ≡ s.hours = ground arith in
          rw same (record {
            shown = subst (λ h. IsFor h s.stats) e f;
            current = subst (λ h. IsCurrent h s.live) e c;
          })
      | inr changed ↦ rw changed (record { shown = tt; current = refl })
    ]

trends_effect-IsValid : (s : State) → IsValid s → IsValid (trends_effect s)
unfolding trends_effect
trends_effect-IsValid s v = record { shown = v.shown; current = v.current }

IsValid-of_if : {s t : State} (b : Bool) → IsValid s → IsValid t → IsValid (if b then s else t)
IsValid-of_if true h k = h
IsValid-of_if false h k = k

commit-IsValid :
    (old s : State) → IsFor old.hours s.stats → IsCurrent old.hours s.live → IsValid (commit old s)
unfolding commit
commit-IsValid old s f c =
    let v = fetched-IsValid old s f c in
    IsValid-of_if (old.reload_key == s.reload_key) v (trends_effect-IsValid _ v)

-- Every event keeps the page valid.
pub step-IsValid : (e : Event) (s : State) → IsValid s → IsValid (step e s)
unfolding step
step-IsValid e s v =
    commit-IsValid s (handle e s) (stats-handle e s v)
      (subst (IsCurrent s.hours) (sym (live-handle e s)) v.current)

mount-IsValid : IsValid mount
unfolding mount fetch_effect trends_effect
mount-IsValid = record { shown = tt; current = refl }

run-IsValid : (events : List Event) (s : State) → IsValid s → IsValid (run s events)
unfolding run
run-IsValid [] s v = v
run-IsValid (e ∷ events) s v = run-IsValid events (step e s) (step-IsValid e s v)

-- After any events the aggregates on the page are those of the window whose label is on, and the
-- request in flight is for that window.
pub window-IsValid : (events : List Event) → IsValid (run mount events)
window-IsValid events = run-IsValid events mount mount-IsValid
