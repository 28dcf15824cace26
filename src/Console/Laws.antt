-- ===== src/Console/Laws.antt =====
-- Acquisitions settle, and what has been drawn stays.
use reachable_web_observator.Common.{
  ◌==◌, if◌then◌else◌, Bool-cases, nat_eq, string_eq, ℕ, ◌≡◌, refl, ◌≢◌, inl, inr, Bool, true,
  false, Option, none, some, List, [], ◌∷◌,
}
use reachable_web_observator.Js.Map.{lookup, put, upsert}
use reachable_web_observator.Js.Map.Laws.{IsDistinct, upsert-IsDistinct, delete-IsDistinct}
use reachable_web_observator.Api.Types.{Tile}
use reachable_web_observator.Console.{
  Stage, random_capture, gallery, signal, State, Reply, capture, entries, observation, failure,
  Event, draw, toggle_auto, tick, reply, recent_loaded, latest_loaded, stats_loaded, nth, acquire,
  draw_from, receive, step, mount, run,
}

-- The page loads only while an acquisition is in flight, and no acquisition is there twice.
pub record IsValid (s : State) : Type 0 where
  pub busy : s.pending ≡ [] → s.loading ≡ false
  pub distinct : IsDistinct s.pending

put-filled : (id : ℕ) (stage : Stage) (pending : List (ℕ × Stage)) → put id stage pending ≢ []
unfolding upsert
put-filled id stage [] e = cc
put-filled id stage ((j, other_stage) ∷ pending) e = elim (Bool-cases (j == id)) [
  | inl found ↦ let k = rw found at e in cc
  | inr apart ↦ let k = rw apart at e in cc
]

IsValid-put :
    (id : ℕ) (stage : Stage) (s : State) (b : Bool) (n : ℕ)
    → IsValid s
    → IsValid (record s { loading = b; pending = put id stage s.pending; next_id = n })
IsValid-put id stage s b n v = record {
  busy = λ e. absurd (put-filled id stage s.pending e);
  distinct = upsert-IsDistinct id (λ _. stage) s.pending v.distinct;
}

draw_from-IsValid :
    (id : ℕ) (pick : Option Tile) (s : State) → IsValid s → IsValid (draw_from id pick s)
draw_from-IsValid id none s v = record {
  busy = λ e. refl;
  distinct = delete-IsDistinct id s.pending v.distinct;
}
draw_from-IsValid id (some pick) s v =
    IsValid-put id (signal pick.ip pick.port) s s.loading s.next_id v

receive-IsValid :
    (id : ℕ) (stage : Option Stage) (r : Reply) (s : State)
    → IsValid s
    → IsValid (receive id stage r s)
unfolding receive
receive-IsValid id (some random_capture) (capture c) s v =
    IsValid-put id (signal c.ip c.port) s s.loading s.next_id v
receive-IsValid id (some random_capture) failure s v =
    IsValid-put id gallery s s.loading s.next_id v
receive-IsValid id (some gallery) (entries r i) s v = draw_from-IsValid id (nth i r.entries) s v
receive-IsValid id (some gallery) failure s v = draw_from-IsValid id none s v
receive-IsValid id (some (signal ip port)) (observation d) s v = record {
  busy = λ e. refl;
  distinct = delete-IsDistinct id s.pending v.distinct;
}
receive-IsValid id (some (signal ip port)) failure s v = record {
  busy = λ e. refl;
  distinct = delete-IsDistinct id s.pending v.distinct;
}
receive-IsValid id stage r s v = v

IsValid-of_if : {s t : State} (b : Bool) → IsValid s → IsValid t → IsValid (if b then s else t)
IsValid-of_if true v w = v
IsValid-of_if false v w = w

acquire-IsValid : (s : State) → IsDistinct s.pending → IsValid (acquire s)
unfolding acquire
acquire-IsValid s distinct = record {
  busy = λ e. absurd (put-filled s.next_id random_capture s.pending e);
  distinct = upsert-IsDistinct s.next_id (λ _. random_capture) s.pending distinct;
}

pub step-IsValid : (e : Event) (s : State) → IsValid s → IsValid (step e s)
unfolding step
step-IsValid draw s v = IsValid-of_if s.loading v (acquire-IsValid s v.distinct)
step-IsValid toggle_auto s v = record { busy = v.busy; distinct = v.distinct }
step-IsValid tick s v = IsValid-of_if s.auto (acquire-IsValid s v.distinct) v
step-IsValid (reply id r) s v = receive-IsValid id (lookup id s.pending) r s v
step-IsValid (recent_loaded r) s v = record { busy = v.busy; distinct = v.distinct }
step-IsValid (latest_loaded r) s v = record { busy = v.busy; distinct = v.distinct }
step-IsValid (stats_loaded stats) s v = record { busy = v.busy; distinct = v.distinct }

run-IsValid : (events : List Event) (s : State) → IsValid s → IsValid (run s events)
unfolding run
run-IsValid [] s v = v
run-IsValid (e ∷ events) s v = run-IsValid events (step e s) (step-IsValid e s v)

mount-IsValid : IsValid mount
unfolding mount
mount-IsValid =
    acquire-IsValid
      (record {
        detail = none;
        loading = true;
        auto = false;
        error = false;
        recent = [];
        latest = [];
        stats = none;
        pending = [];
        next_id = 0;
      })
      tt

-- Whatever the events, the page loads only while an acquisition is in flight.
pub console-IsValid : (events : List Event) → IsValid (run mount events)
console-IsValid events = run-IsValid events mount mount-IsValid
