-- ===== src/Console/Drawn.antt =====
-- What has been drawn stays on the screen.
use reachable_web_observator.Common.{
  truthy, is_some, Bool-cases, nat_eq, string_eq, ℕ, String, ◌≡◌, refl, ap, ◌≢◌, inl, inr, Bool,
  true, false, not, ◌&&◌, Option, none, some, List, [], ◌∷◌, arith, str_eq,
}
use reachable_web_observator.Api.Types.{Tile, SignalDetail}
use reachable_web_observator.Console.{
  State, Event, acquire, draw_from, receive, step, run, viewport_error,
}
use reachable_web_observator.Viewport.{Screen, message, picture, screen, empty_screen}

draw_from-detail :
    (id : ℕ) (pick : Option Tile) (s : State) → (draw_from id pick s).detail ≡ s.detail
draw_from-detail id pick s = ground arith

step-drawn : (e : Event) (s : State) → is_some s.detail ≡ true → is_some (step e s).detail ≡ true
unfolding step acquire receive
step-drawn e s h = ground arith

run-drawn :
    (events : List Event) (s : State)
    → is_some s.detail ≡ true
    → is_some (run s events).detail ≡ true
unfolding run
run-drawn [] s h = h
run-drawn (e ∷ events) s h = run-drawn events (step e s) (step-drawn e s h)

abbrev is_report : Screen → Bool
is_report (picture src) = false
is_report (message text) = str_eq text "COULDN'T REACH THE COLLECTOR"

quiet_empty : (loading error : Bool) → is_report (empty_screen loading (error && false)) ≡ false
quiet_empty true error = refl
quiet_empty false true = refl
quiet_empty false false = refl

quiet_report :
    (base : String) (detail : Option SignalDetail) (loading error : Bool)
    → is_some detail ≡ true
    → is_report (screen base detail loading (error && not (is_some detail))) ≡ false
unfolding screen
quiet_report base none loading error h = cc
quiet_report base (some d) loading error h = elim (Bool-cases (truthy d.service.image_url)) [
  | inl there ↦ rw there
  | inr missing ↦ rw missing (quiet_empty loading error)
]

quiet_screen :
    (base : String) (detail : Option SignalDetail) (loading error : Bool)
    → is_some detail ≡ true
    → screen base detail loading (error && not (is_some detail))
      ≢ message "COULDN'T REACH THE COLLECTOR"
quiet_screen base detail loading error h e =
    let quiet = quiet_report base detail loading error h in let reports = ap is_report e in cc

-- Once an observation has been drawn, there is one after any events, and the screen never reports
-- that the collector was not reached, whatever fails.
pub run-screen :
    (base : String) (events : List Event) (s : State)
    → is_some s.detail ≡ true
    → let t = run s events in
      (is_some t.detail ≡ true)
      × (screen base t.detail t.loading (viewport_error t) ≢ message "COULDN'T REACH THE COLLECTOR")
unfolding viewport_error screen
run-screen base events s h =
    let t = run s events in
    let k = run-drawn events s h in (k, quiet_screen base t.detail t.loading t.error k)
