-- ===== src/WorldLand/Laws.antt =====
-- One request for the atlas at a time, and none after a success.
use reachable_web_observator.Common.{
  ◌==◌, Bool-cases, nat_eq, string_eq, ℕ, ◌+◌, ◌≡◌, refl, ap, ◌∙◌, inl, inr, true, Option, none,
  some, List, [], ◌∷◌, arith,
}
use reachable_web_observator.Js.Map.{contains}
use reachable_web_observator.WorldLand.{
  State, Event, load, parsed, failed, land_of, load_land, without, step, run, start,
}

-- Nothing is in flight, or only the request whose promise every caller gets.
abbrev pub IsShared : Option ℕ → List ℕ → Type 0
IsShared promise [] = Unit
IsShared promise (p ∷ []) = promise ≡ some p
IsShared promise (p ∷ q ∷ rest) = ⊥

unsettled_of_none :
    (promise : Option ℕ) (unsettled : List ℕ)
    → promise ≡ none
    → IsShared promise unsettled
    → unsettled ≡ []
unsettled_of_none promise [] e h = refl
unsettled_of_none promise (p ∷ []) e h = cc
unsettled_of_none promise (p ∷ q ∷ rest) e h = absurd h

step_load-IsShared :
    (promise : Option ℕ) (s : State)
    → s.promise ≡ promise
    → IsShared s.promise s.unsettled
    → IsShared (land_of promise s).0.promise (land_of promise s).0.unsettled
step_load-IsShared (some p) s e h = h
step_load-IsShared none s e h = rw (unsettled_of_none s.promise s.unsettled e h)

settled-IsShared :
    (p : ℕ) (before after : Option ℕ) (unsettled : List ℕ)
    → IsShared before unsettled
    → contains unsettled p ≡ true
    → IsShared after (without p unsettled)
unfolding without contains
settled-IsShared p before after [] h found = tt
settled-IsShared p before after (q ∷ []) h found =
    let same : (q == p) ≡ true = ground arith in rw same tt
settled-IsShared p before after (q ∷ r ∷ rest) h found = absurd h

step-IsShared :
    (e : Event) (s : State)
    → IsShared s.promise s.unsettled
    → IsShared (step e s).promise (step e s).unsettled
unfolding step load_land
step-IsShared load s h = step_load-IsShared s.promise s refl h
step-IsShared (parsed p) s h = elim (Bool-cases (contains s.unsettled p)) [
  | inl found ↦ rw found (settled-IsShared p s.promise s.promise s.unsettled h found)
  | inr gone ↦ rw gone h
]
step-IsShared (failed p) s h = elim (Bool-cases (contains s.unsettled p)) [
  | inl found ↦ rw found (settled-IsShared p s.promise none s.unsettled h found)
  | inr gone ↦ rw gone h
]

run-IsShared :
    (events : List Event) (s : State)
    → IsShared s.promise s.unsettled
    → IsShared (run s events).promise (run s events).unsettled
unfolding run
run-IsShared [] s h = h
run-IsShared (e ∷ events) s h = run-IsShared events (step e s) (step-IsShared e s h)

step_of_loaded :
    (e : Event) (s : State) (p : ℕ) → s.promise ≡ some p → s.unsettled ≡ [] → step e s ≡ s
unfolding step load_land contains
step_of_loaded load s p e h = rw e
step_of_loaded (parsed q) s p e h = rw h
step_of_loaded (failed q) s p e h = rw h

run_of_loaded :
    (events : List Event) (s : State) (p : ℕ)
    → s.promise ≡ some p
    → s.unsettled ≡ []
    → run s events ≡ s
unfolding run
run_of_loaded [] s p e h = refl
run_of_loaded (event ∷ events) s p e h =
    ap (λ t. run t events) (step_of_loaded event s p e h) ∙ run_of_loaded events s p e h

-- The one request in flight.
only_unsettled :
    (promise : Option ℕ) (unsettled : List ℕ) (p : ℕ)
    → IsShared promise unsettled
    → contains unsettled p ≡ true
    → (promise ≡ some p) × (unsettled ≡ p ∷ [])
unfolding contains
only_unsettled promise [] p h found = cc
only_unsettled promise (q ∷ []) p h found =
    let same : q ≡ p = ground arith in (h ∙ ap some same, ap (λ x. x ∷ []) same)
only_unsettled promise (q ∷ r ∷ rest) p h found = absurd h

without_self : (p : ℕ) → without p (p ∷ []) ≡ []
unfolding without
without_self p = ground arith

parsed_lem :
    (s : State) (p : ℕ)
    → IsShared s.promise s.unsettled
    → contains s.unsettled p ≡ true
    → ((step (parsed p) s).promise ≡ some p) × ((step (parsed p) s).unsettled ≡ [])
unfolding step
parsed_lem s p h found =
    let (kept, alone) = only_unsettled s.promise s.unsettled p h found in
    rw found (kept, ap (without p) alone ∙ without_self p)

load_of_loaded : (s : State) (p : ℕ) → s.promise ≡ some p → load_land s ≡ (s, p)
unfolding load_land
load_of_loaded s p h = rw h refl

failed_lem :
    (s : State) (p : ℕ)
    → contains s.unsettled p ≡ true
    → ((load_land (step (failed p) s)).1 ≡ s.next)
      × ((load_land (step (failed p) s)).0.next ≡ s.next + 1)
unfolding step load_land
failed_lem s p found = rw found (refl, refl)

-- After any events that leave a request for the atlas in flight, it is the only one, and the one
-- whose promise a caller gets. Once that request has succeeded, nothing that follows changes the state, so that
-- no request is sent again, and every caller gets its promise. Once it has failed, the next caller
-- sends a new request and gets its promise.
pub atlas_kept :
    (events later : List Event) (p : ℕ)
    → contains (run start events).unsettled p ≡ true
    → let s = run start events in
      (s.promise ≡ some p)
      × (s.unsettled ≡ p ∷ [])
      × (run (step (parsed p) s) later ≡ step (parsed p) s)
      × (load_land (run (step (parsed p) s) later) ≡ (step (parsed p) s, p))
      × ((load_land (step (failed p) s)).1 ≡ s.next)
      × ((load_land (step (failed p) s)).0.next ≡ s.next + 1)
atlas_kept events later p found =
    let s = run start events in
    let h = run-IsShared events start tt in
    let (kept, alone) = only_unsettled s.promise s.unsettled p h found in
    let (promise, settled) = parsed_lem s p h found in
    let same = run_of_loaded later (step (parsed p) s) p promise settled in
    (
      kept,
      alone,
      same,
      ap load_land same ∙ load_of_loaded (step (parsed p) s) p promise,
      (failed_lem s p found).0,
      (failed_lem s p found).1,
    )
