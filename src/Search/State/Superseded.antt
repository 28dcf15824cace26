-- ===== src/Search/State/Superseded.antt =====
-- Once a run of the fetch effect has been replaced, its answer never matters again.
use reachable_web_observator.Common.{
  ◌==◌, if◌then◌else◌, Bool-cases, Option-cases, nat_eq, string_eq, ℕ, ◌≤◌, ◌<◌, ◌≡◌, refl, sym,
  subst, ◌≢◌, ◌⊎◌, inl, inr, Bool, true, false, ◌&&◌, Option, none, some, List, [], ◌∷◌, arith,
  str_eq,
}
use reachable_web_observator.Js.Number.{Reader}
use reachable_web_observator.Api.Types.{ListResponse}
use reachable_web_observator.Search.Filters.{is_active}
use reachable_web_observator.Search.State.{
  State, Flight, Event, resolve, reject, finish, debounce, handle, alive,
}
use reachable_web_observator.Search.State.Same.{same_query, bool_eq}
use reachable_web_observator.Search.State.Steps.{
  fetch_effect, timer_effect, link_effect, same_fetch, refetch_effect, page_effect, commit, step,
  run,
}
use reachable_web_observator.Search.State.Order.{search_step_of_stale}

-- The run in flight, if there is one, was started with the id `n` or a later one.
abbrev IsSince : ℕ → Option Flight → Type 0
IsSince n none = Unit
IsSince n (some flight) = n ≤ flight.id

-- No id before `n` is in flight any more, or will be.
abbrev IsAfter : ℕ → State → Type 0
IsAfter n s = (n ≤ s.next_id) × IsSince n s.live

-- The run is still the one given, or a later one.
abbrev Kept : ℕ → Option Flight → State → Type 0
Kept n live s = ((n ≤ s.next_id) × (s.live ≡ live)) ⊎ IsAfter n s

Kept-ids : (n : ℕ) (live : Option Flight) (s : State) → Kept n live s → n ≤ s.next_id
Kept-ids n live s (inl (h, same)) = h
Kept-ids n live s (inr (h, since)) = h

Kept-of_if :
    (n : ℕ) (live : Option Flight) (b : Bool) (s t : State)
    → Kept n live s
    → Kept n live t
    → Kept n live (if b then s else t)
Kept-of_if n live true s t h k = h
Kept-of_if n live false s t h k = k

handle-Kept : (n : ℕ) (e : Event) (s : State) → n ≤ s.next_id → Kept n s.live (handle e s)
unfolding handle
handle-Kept n (resolve id r) s h = elim (Option-cases (alive id s)) [
  | inl gone ↦ rw gone (inl (h, refl))
  | inr (flight, found) ↦ rw found (inl (h, refl))
]
handle-Kept n (reject id) s h = elim (Option-cases (alive id s)) [
  | inl gone ↦ rw gone (inl (h, refl))
  | inr (flight, found) ↦ rw found (inl (h, refl))
]
handle-Kept n (finish id) s h = elim (Option-cases (alive id s)) [
  | inl gone ↦ rw gone (inl (h, refl))
  | inr (flight, found) ↦ rw found (inl (h, refl))
]
handle-Kept n debounce s h = Kept-of_if n s.live s.timer _ s (inl (h, refl)) (inl (h, refl))
handle-Kept n e s h = inl (h, refl)

alive-since :
    (n id : ℕ) (o : Option Flight) (s : State)
    → s.live ≡ o
    → IsSince n o
    → id < n
    → alive id s ≡ none
unfolding alive
alive-since n id none s e h below = rw e refl
alive-since n id (some flight) s e h below = rw e (ground (arith, h, below))

module _ (reader : Reader) where
  fetch_effect-IsAfter : (n : ℕ) (s : State) → n ≤ s.next_id → IsAfter n (fetch_effect reader s)
  unfolding fetch_effect
  fetch_effect-IsAfter n s h = elim (Bool-cases (is_active s.filters)) [
    | inl on ↦ rw on (omega (arith, h), h)
    | inr off ↦ rw off (h, tt)
  ]

  module _ (n : ℕ) (live : Option Flight) (old : State) where
    timer_effect-Kept : (s : State) → Kept n live s → Kept n live (timer_effect old s)
    unfolding timer_effect
    timer_effect-Kept s k = Kept-of_if n live (str_eq old.filters.q s.filters.q) s _ k k

    link_effect-Kept : (s : State) → Kept n live s → Kept n live (link_effect old s)
    unfolding link_effect
    link_effect-Kept s k =
        Kept-of_if n live
          (same_query old.filters s.filters
            && bool_eq old.filters.group_hosts s.filters.group_hosts)
          s _ k k

    refetch_effect-Kept : (s : State) → Kept n live s → Kept n live (refetch_effect reader old s)
    unfolding refetch_effect
    refetch_effect-Kept s k =
        Kept-of_if n live (same_fetch old s) s _ k
          (inr (fetch_effect-IsAfter n s (Kept-ids n live s k)))

    page_effect-Kept : (s : State) → Kept n live s → Kept n live (page_effect reader old s)
    unfolding page_effect
    page_effect-Kept s k = Kept-of_if n live (same_query old.filters s.filters) s _ k (
        Kept-of_if n live (s.page == 0) s _ k
          (inr (fetch_effect-IsAfter n (record s { page = 0 }) (Kept-ids n live s k))))

  step-Kept : (n : ℕ) (e : Event) (s : State) → n ≤ s.next_id → Kept n s.live (step reader e s)
  unfolding step commit
  step-Kept n e s h = page_effect-Kept n s.live s _ (
      refetch_effect-Kept n s.live s _
        (link_effect-Kept n s.live s _ (timer_effect-Kept n s.live s _ (handle-Kept n e s h))))

  -- A step that replaces or ends the run leaves no earlier id in flight.
  step-IsAfter :
      (e : Event) (s : State)
      → (step reader e s).live ≢ s.live
      → IsAfter s.next_id (step reader e s)
  step-IsAfter e s changed = elim (step-Kept s.next_id e s (omega arith)) [
    | inl (ids, same) ↦ absurd (changed same)
    | inr after ↦ after
  ]

  later-IsAfter : (n : ℕ) (e : Event) (s : State) → IsAfter n s → IsAfter n (step reader e s)
  later-IsAfter n e s (h, since) = elim (step-Kept n e s h) [
    | inl (ids, same) ↦ (ids, subst (IsSince n) (sym same) since)
    | inr after ↦ after
  ]

  run-IsAfter :
      (n : ℕ) (events : List Event) (s : State) → IsAfter n s → IsAfter n (run reader s events)
  unfolding run
  run-IsAfter n [] s h = h
  run-IsAfter n (e ∷ events) s h = run-IsAfter n events (step reader e s) (later-IsAfter n e s h)

  -- When an event has replaced or ended the run in flight, the answer, the error and the end of
  -- every request sent before change nothing, then or after any further events.
  pub run_of_superseded :
      (e : Event) (later : List Event) (s : State) (id : ℕ) (r : ListResponse)
      → id < s.next_id
      → (step reader e s).live ≢ s.live
      → let t = run reader (step reader e s) later in
        (step reader (resolve id r) t ≡ t)
        × (step reader (reject id) t ≡ t)
        × (step reader (finish id) t ≡ t)
  run_of_superseded e later s id r sent changed =
      let t = run reader (step reader e s) later in
      let after = run-IsAfter s.next_id later (step reader e s) (step-IsAfter e s changed) in
      search_step_of_stale reader id r t (alive-since s.next_id id t.live t refl after.1 sent)
