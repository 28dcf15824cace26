-- ===== src/Console/Settling.antt =====
-- An acquisition settles after at most three replies.
use reachable_web_observator.Common.{
  nat_eq, string_eq, ℕ, zero, suc, ◌≤◌, ◌<◌, ◌≡◌, refl, ◌∙◌, ◌⊎◌, inl, inr, false, Option, none,
  some, List, arith,
}
use reachable_web_observator.Js.Map.{lookup, put, delete}
use reachable_web_observator.Js.Map.Laws.{IsDistinct, lookup-upsert, lookup-delete}
use reachable_web_observator.Api.Types.{Tile}
use reachable_web_observator.Console.Laws.{IsValid, step-IsValid, console-IsValid}
use reachable_web_observator.Console.{
  Stage, random_capture, gallery, signal, State, Reply, capture, entries, observation, failure,
  Event, reply, nth, draw_from, receive, step, mount, run,
}

-- The replies that an acquisition can get at a stage, and how many it awaits at most.
abbrev pub IsReply : Stage → Reply → Type 0
IsReply stage failure = Unit
IsReply random_capture (capture c) = Unit
IsReply gallery (entries r i) = Unit
IsReply (signal ip port) (observation d) = Unit
IsReply stage r = ⊥

abbrev pub awaits : Stage → ℕ
awaits random_capture = 3
awaits gallery = 2
awaits (signal ip port) = 1

-- An acquisition has settled, and the page does not load.
abbrev pub IsSettled : ℕ → State → Type 0
IsSettled id s = (lookup id s.pending ≡ none) × (s.loading ≡ false)

abbrev pub IsCloser : ℕ → ℕ → State → Type 0
IsCloser n id s = (stage : Stage) × (lookup id s.pending ≡ some stage) × (awaits stage < n)

lookup-put_self :
    (id : ℕ) (stage : Stage) (pending : List (ℕ × Stage))
    → lookup id (put id stage pending) ≡ some stage
lookup-put_self id stage pending = lookup-upsert id id (λ _. stage) pending ∙ ground arith

lookup-delete_self :
    (id : ℕ) (pending : List (ℕ × Stage))
    → IsDistinct pending
    → lookup id (delete id pending) ≡ none
lookup-delete_self id pending h = lookup-delete id id pending h ∙ ground arith

draw_from-IsCloser :
    (id : ℕ) (pick : Option Tile) (s : State)
    → IsDistinct s.pending
    → IsSettled id (draw_from id pick s) ⊎ IsCloser 2 id (draw_from id pick s)
draw_from-IsCloser id none s h = inl (lookup-delete_self id s.pending h, refl)
draw_from-IsCloser id (some pick) s h =
    inr (signal pick.ip pick.port, lookup-put_self id _ s.pending, omega arith)

receive-IsCloser :
    (id : ℕ) (stage : Stage) (r : Reply) (s : State)
    → IsDistinct s.pending
    → IsReply stage r
    → IsSettled id (receive id (some stage) r s)
      ⊎ IsCloser (awaits stage) id (receive id (some stage) r s)
unfolding receive
receive-IsCloser id random_capture (capture c) s h k =
    inr (signal c.ip c.port, lookup-put_self id _ s.pending, omega arith)
receive-IsCloser id random_capture failure s h k =
    inr (gallery, lookup-put_self id _ s.pending, omega arith)
receive-IsCloser id gallery (entries r i) s h k = draw_from-IsCloser id (nth i r.entries) s h
receive-IsCloser id gallery failure s h k = inl (lookup-delete_self id s.pending h, refl)
receive-IsCloser id (signal ip port) (observation d) s h k =
    inl (lookup-delete_self id s.pending h, refl)
receive-IsCloser id (signal ip port) failure s h k = inl (lookup-delete_self id s.pending h, refl)
receive-IsCloser id stage r s h k = absurd k

-- The replies to an acquisition, one after the other, as the server gives them; the number bounds
-- how many.
unfoldable pub serve : ℕ → (Stage → Reply) → ℕ → State → State
serve zero server id s = s
serve (suc n) server id s = elim (lookup id s.pending) [
  | none ↦ s
  | some stage ↦ serve n server id (step (reply id (server stage)) s)
]

step_reply-IsCloser :
    (id : ℕ) (stage : Stage) (r : Reply) (s : State)
    → IsDistinct s.pending
    → lookup id s.pending ≡ some stage
    → IsReply stage r
    → IsSettled id (step (reply id r) s) ⊎ IsCloser (awaits stage) id (step (reply id r) s)
unfolding step
step_reply-IsCloser id stage r s h found k = rw found (receive-IsCloser id stage r s h k)

serve-IsSettled :
    (n : ℕ) (server : Stage → Reply) (id : ℕ) (s : State)
    → IsSettled id s
    → IsSettled id (serve n server id s)
unfolding serve
serve-IsSettled zero server id s h = h
serve-IsSettled (suc n) server id s h = rw (serve, h.0) h

awaits_positive : (stage : Stage) → 1 ≤ awaits stage
awaits_positive random_capture = omega arith
awaits_positive gallery = omega arith
awaits_positive (signal ip port) = omega arith

serve_pending :
    (n : ℕ) (server : Stage → Reply) (id : ℕ) (stage : Stage) (s : State)
    → ((at : Stage) → IsReply at (server at))
    → IsValid s
    → lookup id s.pending ≡ some stage
    → awaits stage ≤ n
    → IsSettled id (serve n server id s)
unfolding serve
serve_pending zero server id stage s replies v found enough =
    absurd (omega (arith, awaits_positive stage, enough))
serve_pending (suc n) server id stage s replies v found enough =
    let next : State = step (reply id (server stage)) s in
    elim (step_reply-IsCloser id stage (server stage) s v.distinct found (replies stage)) [
      | inl done ↦ rw (serve, found) (serve-IsSettled n server id next done)
      | inr (later, at, less) ↦
          rw (serve, found)
            (serve_pending n server id later next replies
              (step-IsValid (reply id (server stage)) s v) at (omega (arith, less, enough)))
    ]

-- In every session, an acquisition in flight is over, and the page has stopped loading, after at
-- most three replies to it, whatever these are, as long as each is a reply to what is awaited.
pub acquisition_settles :
    (events : List Event) (server : Stage → Reply) (id : ℕ) (stage : Stage)
    → ((at : Stage) → IsReply at (server at))
    → lookup id (run mount events).pending ≡ some stage
    → IsSettled id (serve 3 server id (run mount events))
acquisition_settles events server id stage replies found =
    serve_pending 3 server id stage (run mount events) replies (console-IsValid events) found
      (awaits_three stage)
  where
    awaits_three : (at : Stage) → awaits at ≤ 3
    awaits_three random_capture = omega arith
    awaits_three gallery = omega arith
    awaits_three (signal ip port) = omega arith
