-- ===== src/Signal/Clipboard/Laws.antt =====
-- The note ends.
use reachable_web_observator.Common.{
  Bool-cases, nat_eq, string_eq, ℕ, ◌≡◌, refl, inl, inr, true, List, [], ◌∷◌, arith,
}
use reachable_web_observator.Js.Map.{contains}
use reachable_web_observator.Signal.Clipboard.{
  State, Event, written, refused, expired, step, run, start, button,
}

abbrev IsTimed : State → Type 0
IsTimed s = s.copied ≡ true → (id : ℕ) × (contains s.timers id ≡ true)

step-IsTimed : (e : Event) (s : State) → IsTimed s → IsTimed (step e s)
unfolding step contains
step-IsTimed written s h = λ shown. (s.next_timer, ground arith)
step-IsTimed refused s h = λ shown. cc
step-IsTimed (expired id) s h = elim (Bool-cases (contains s.timers id)) [
  | inl found ↦ rw found (λ shown. cc)
  | inr gone ↦ rw gone h
]

run-IsTimed : (events : List Event) (s : State) → IsTimed s → IsTimed (run s events)
unfolding run
run-IsTimed [] s h = h
run-IsTimed (e ∷ events) s h = run-IsTimed events (step e s) (step-IsTimed e s h)

-- After any events, while the button says "Copied" a timer runs, and whichever timer that runs
-- fires first, the button has its first text again.
note_ends :
    (events : List Event)
    → let s = run start events in
      (s.copied ≡ true → (id : ℕ) × (contains s.timers id ≡ true))
      × ((id : ℕ)
          → contains s.timers id ≡ true
          → button (step (expired id) s) ≡ "Copy captured text")
unfolding step
note_ends events =
    let s = run start events in (run-IsTimed events start (λ shown. cc), λ id found. rw found refl)
