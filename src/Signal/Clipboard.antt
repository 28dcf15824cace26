-- ===== src/Signal/Clipboard.antt =====
-- The note "Copied" of pages/Signal.tsx, which a timer takes back. The clipboard is the platform's:
-- a write has worked or has not.
pub mod Laws
use reachable_web_observator.Common.{
  ◌==◌, if◌then◌else◌, keep, nat_eq, string_eq, ℕ, ◌+◌, String, Bool, true, false, not, List, [],
  ◌∷◌,
}
use reachable_web_observator.Js.Map.{contains}

-- `sourceCopied`, and the timers that run.
pub record State : Type 0 where
  pub copied : Bool
  pub timers : List ℕ
  pub next_timer : ℕ

pub data Event : Type 0 where
  written refused : Event
  expired : ℕ → Event

-- A timer fires once. Nothing stops the timer of an earlier copy.
unfoldable pub step : Event → State → State
step written s = record {
  copied = true;
  timers = s.next_timer ∷ s.timers;
  next_timer = s.next_timer + 1;
}
step refused s = record s { copied = false }
step (expired id) s =
    if contains s.timers id
    then record s { copied = false; timers = keep (λ timer. not (timer == id)) s.timers }
    else s

unfoldable pub run : State → List Event → State
unfolding step
run s [] = s
run s (e ∷ events) = run (step e s) events

abbrev pub start : State
start = record { copied = false; timers = []; next_timer = 0 }

abbrev pub button : State → String
button s = if s.copied then "Copied" else "Copy captured text"
