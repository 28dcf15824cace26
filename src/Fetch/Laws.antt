-- ===== src/Fetch/Laws.antt =====
-- What is shown answers the key of the page.
use reachable_web_observator.Js.Map.{lookup}
use reachable_web_observator.Common.{
  Bool-cases, some_inj, nat_eq, string_eq, ℕ, ◌≡◌, refl, sym, ap, ◌∙◌, subst, inl, inr, Bool, true,
  Option, none, some, List, [], ◌∷◌, arith,
}
use reachable_web_observator.Fetch.{
  loading, ok, error, Flight, State, Event, set_key, resolve, reject, alive, resolved, rejected,
  handle, fetch_effect, commit, step, mount, run,
}

module _ {K D : Type 0} (same : K → K → Bool) (reply : ℕ → K → D)
    (sound : (a b : K) → same a b ≡ true → a ≡ b) where
  -- The request in flight is for the key, and a success shows an answer for the key.
  pub record IsValid (s : State K D) : Type 0 where
    pub current :
        (flight : Flight K) × (s.live ≡ some flight)
        × (flight.key ≡ s.key)
        × (lookup flight.id s.sent ≡ some flight.key)
    pub shown : s.status ≡ ok → (id : ℕ) × (s.answer ≡ some (reply id s.key))

  fetch_effect-IsValid : (s : State K D) → IsValid (fetch_effect same reply s)
  unfolding fetch_effect lookup
  fetch_effect-IsValid s = record {
    current = (record { id = s.next_id; key = s.key }, refl, refl, ground arith);
    shown = λ done. cc;
  }

  resolved-IsValid :
      (id : ℕ) (flight : Option (Flight K)) (asked : Option K) (s : State K D)
      → IsValid s
      → lookup id s.sent ≡ asked
      → ((run : Flight K) → flight ≡ some run → (s.live ≡ some run) × (run.id ≡ id))
      → IsValid (resolved same reply id flight asked s)
  unfolding resolved
  resolved-IsValid id none asked s v found h = v
  resolved-IsValid id (some run) none s v found h = v
  resolved-IsValid id (some run) (some asked) s v found h =
      let (flight, live, at, logged) = v.current in
      let (named, numbered) = h run refl in
      let equal : flight ≡ run = some_inj (sym live ∙ named) in
      let key : asked ≡ s.key =
        some_inj (
          sym found
          ∙ ap (λ n. lookup n s.sent) (sym numbered ∙ ap (λ f. f.id) (sym equal))
          ∙ logged)
        ∙ at in
      record { current = v.current; shown = λ done. (id, ap (λ k. some (reply id k)) key) }

  rejected-IsValid :
      (flight : Option (Flight K)) (s : State K D)
      → IsValid s
      → IsValid (rejected same reply flight s)
  unfolding rejected
  rejected-IsValid none s v = v
  rejected-IsValid (some run) s v = record { current = v.current; shown = λ done. cc }

  live_of_alive :
      (id : ℕ) (s : State K D) (run : Flight K)
      → alive same reply id s ≡ some run
      → (s.live ≡ some run) × (run.id ≡ id)
  unfolding alive
  live_of_alive id s run h = ground arith

  set_key-IsValid : (k : K) (s : State K D) → s.key ≡ k → IsValid s → IsValid (record s { key = k })
  set_key-IsValid k s h v =
      let (flight, live, at, logged) = v.current in
      record {
        current = (flight, live, at ∙ h, logged);
        shown = λ done.
            let (id, answered) = v.shown done in (id, answered ∙ ap (λ j. some (reply id j)) h);
      }

  commit-IsValid :
      (s t : State K D) → (same s.key t.key ≡ true → IsValid t) → IsValid (commit same reply s t)
  unfolding commit
  commit-IsValid s t v = elim (Bool-cases (same s.key t.key)) [
    | inl kept ↦ rw kept (v kept)
    | inr changed ↦ rw changed (fetch_effect-IsValid t)
  ]

  step-IsValid : (e : Event K) (s : State K D) → IsValid s → IsValid (step same reply e s)
  unfolding step handle
  step-IsValid (set_key k) s v =
      commit-IsValid s (record s { key = k }) (λ kept. set_key-IsValid k s (sound s.key k kept) v)
  step-IsValid (resolve id) s v =
      commit-IsValid s (resolved same reply id (alive same reply id s) (lookup id s.sent) s)
        (λ kept.
          resolved-IsValid id (alive same reply id s) (lookup id s.sent) s v refl
            (live_of_alive id s))
  step-IsValid (reject id) s v =
      commit-IsValid s (rejected same reply (alive same reply id s) s)
        (λ kept. rejected-IsValid (alive same reply id s) s v)

  run-IsValid :
      (events : List (Event K)) (s : State K D) → IsValid s → IsValid (run same reply s events)
  unfolding run
  run-IsValid [] s v = v
  run-IsValid (e ∷ events) s v = run-IsValid events (step same reply e s) (step-IsValid e s v)

  mount-IsValid : (k : K) → IsValid (mount same reply k)
  unfolding mount
  mount-IsValid k =
      fetch_effect-IsValid
        (record { key = k; answer = none; status = loading; live = none; next_id = 0; sent = [] })

  -- Whatever the events, the request in flight is for the key, and a success shows an answer for it.
  pub session-IsValid :
      (k : K) (events : List (Event K)) → IsValid (run same reply (mount same reply k) events)
  session-IsValid k events = run-IsValid events (mount same reply k) (mount-IsValid k)

  alive_of_live :
      (s : State K D) (flight : Flight K)
      → s.live ≡ some flight
      → alive same reply flight.id s ≡ some flight
  unfolding alive
  alive_of_live s flight h = rw h (ground arith)

  -- The answer to the request in flight ends the wait, and so does its failure.
  module _ (reflexive : (a : K) → same a a ≡ true) where
    pub status-answered :
        (s : State K D) (flight : Flight K)
        → IsValid s
        → s.live ≡ some flight
        → ((step same reply (resolve flight.id) s).status ≡ ok)
          × ((step same reply (resolve flight.id) s).answer ≡ some (reply flight.id s.key))
          × ((step same reply (reject flight.id) s).status ≡ error)
    unfolding step handle commit resolved rejected
    status-answered s flight v live =
        let (current, named, at, logged) = v.current in
        let asked : flight.key ≡ s.key = ap (λ f. f.key) (some_inj (sym live ∙ named)) ∙ at in
        let found : lookup flight.id s.sent ≡ some flight.key =
          subst (λ f. lookup f.id s.sent ≡ some f.key) (some_inj (sym named ∙ live)) logged in
        rw (alive_of_live s flight live, found, reflexive s.key)
          (refl, ap (λ k. some (reply flight.id k)) asked, refl)
