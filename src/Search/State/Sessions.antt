-- ===== src/Search/State/Sessions.antt =====
-- Sessions of the search page: what holds after any sequence of handlers and answers.
use reachable_web_observator.Common.{
  if◌then◌else◌, Option-cases, nat_eq, string_eq, ℕ, ◌≡◌, refl, sym, ap, ◌∙◌, subst, ◌⊎◌, inl, inr,
  Bool, true, false, Option, none, some, List, [], ◌∷◌, arith,
}
use reachable_web_observator.Common.Text.Laws.{trim_idempotent, trim-empty}
use reachable_web_observator.Js.Number.{Reader}
use reachable_web_observator.Js.Params.{Params}
use reachable_web_observator.Api.Types.{Tile}
use reachable_web_observator.Search.Filters.{Filters, link, is_active, seed}
use reachable_web_observator.Search.State.{
  State, Event, Flight, debounce, remove_network, reset, load_more, retry, resolve, reject, finish,
  edit, cleared, handle, alive,
}
use reachable_web_observator.Search.State.Laws.{
  IsCurrent, IsTrimmed, IsValid, IsPending, commit-IsValid, fetch_effect-IsFetched,
  fetch_effect-same,
}
use reachable_web_observator.Search.State.Steps.{mount, step, run}

IsTrimmed-edit : (e : Event) (f : Filters) → IsTrimmed f → IsTrimmed (edit e f)
unfolding edit cleared
IsTrimmed-edit debounce f t = record { query = trim_idempotent f.q; network = t.network }
IsTrimmed-edit remove_network f t = record { query = t.query; network = trim-empty }
IsTrimmed-edit reset f t = record { query = trim-empty; network = trim-empty }
IsTrimmed-edit e f t = record { query = t.query; network = t.network }

IsTrimmed-seed : (reader : Reader) (params : Params) → IsTrimmed (seed reader params)
unfolding seed
IsTrimmed-seed reader params = record { query = trim_idempotent _; network = trim_idempotent _ }

module _ (reader : Reader) where
  IsCurrent-IsActive :
      (f : Filters) (page : ℕ) (live : Option Flight) (flight : Flight)
      → IsCurrent reader f page live
      → live ≡ some flight
      → is_active f ≡ true
  IsCurrent-IsActive f page none flight v h = cc
  IsCurrent-IsActive f page (some run) flight v h = v.0

  pub live_of_alive :
      (id : ℕ) (s : State) (flight : Flight) → alive id s ≡ some flight → s.live ≡ some flight
  unfolding alive
  live_of_alive id s flight h = ground arith

  -- An answer leaves the query alone, and only a run of an active query can answer.
  quiet_of_alive :
      (id : ℕ) (s : State) (tiles : List Tile)
      → IsValid reader s
      → ((alive id s ≡ none) × (tiles ≡ s.tiles)) ⊎ ((flight : Flight) × (alive id s ≡ some flight))
      → is_active s.filters ≡ false
      → tiles ≡ []
  quiet_of_alive id s tiles v (inl (h, same)) off = same ∙ v.fetched.quiet off
  quiet_of_alive id s tiles v (inr (flight, h)) off =
      let on =
        IsCurrent-IsActive s.filters s.page s.live flight v.fetched.current
          (live_of_alive id s flight h) in
      cc

  kept :
      (e : Event) (s : State)
      → IsValid reader s
      → IsPending reader s (record s { filters = edit e s.filters })
  kept e s v = record {
    same_url = refl;
    same_live = refl;
    quiet = v.fetched.quiet;
    trimmed = IsTrimmed-edit e s.filters v.trimmed;
  }

  still : (s : State) → IsValid reader s → IsPending reader s s
  still s v = record {
    same_url = refl;
    same_live = refl;
    quiet = v.fetched.quiet;
    trimmed = v.trimmed;
  }

  IsPending-of_if :
      {s x y : State} (b : Bool)
      → IsPending reader s x
      → IsPending reader s y
      → IsPending reader s (if b then x else y)
  IsPending-of_if true h k = h
  IsPending-of_if false h k = k

  handle-IsPending : (e : Event) (s : State) → IsValid reader s → IsPending reader s (handle e s)
  unfolding handle
  handle-IsPending (resolve id r) s v = elim (Option-cases (alive id s)) [
    | inl gone ↦ rw gone (still s v)
    | inr (flight, h) ↦ rw h (record {
      same_url = refl;
      same_live = refl;
      quiet = quiet_of_alive id s _ v (inr (flight, h));
      trimmed = v.trimmed;
    })
  ]
  handle-IsPending (reject id) s v = elim (Option-cases (alive id s)) [
    | inl gone ↦ rw gone (still s v)
    | inr (flight, h) ↦ rw h (record {
      same_url = refl;
      same_live = refl;
      quiet = quiet_of_alive id s _ v (inr (flight, h));
      trimmed = v.trimmed;
    })
  ]
  handle-IsPending (finish id) s v = elim (Option-cases (alive id s)) [
    | inl gone ↦ rw gone (still s v)
    | inr (flight, h) ↦
        rw h (record {
          same_url = refl;
          same_live = refl;
          quiet = v.fetched.quiet;
          trimmed = v.trimmed;
        })
  ]
  handle-IsPending debounce s v =
      IsPending-of_if s.timer
        (record {
          same_url = refl;
          same_live = refl;
          quiet = v.fetched.quiet;
          trimmed = IsTrimmed-edit debounce s.filters v.trimmed;
        })
        (still s v)
  handle-IsPending load_more s v = record {
    same_url = refl;
    same_live = refl;
    quiet = v.fetched.quiet;
    trimmed = v.trimmed;
  }
  handle-IsPending retry s v = record {
    same_url = refl;
    same_live = refl;
    quiet = v.fetched.quiet;
    trimmed = v.trimmed;
  }
  handle-IsPending e s v = kept e s v

  -- The first render, from any URL, is valid.
  pub mount-IsValid : (params : Params) → IsValid reader (mount reader params)
  unfolding mount
  mount-IsValid params = record {
    fetched = fetch_effect-IsFetched reader _;
    linked = (fetch_effect-same reader _).1 ∙ ap link (sym (fetch_effect-same reader _).0);
    trimmed = subst IsTrimmed (sym (fetch_effect-same reader _).0) (IsTrimmed-seed reader params);
  }

  -- A step from a valid state is valid, whatever the event.
  pub step-IsValid : (e : Event) (s : State) → IsValid reader s → IsValid reader (step reader e s)
  unfolding step
  step-IsValid e s v = commit-IsValid reader s (handle e s) v (handle-IsPending e s v)

  run-IsValid :
      (events : List Event) (s : State) → IsValid reader s → IsValid reader (run reader s events)
  unfolding run
  run-IsValid [] s v = v
  run-IsValid (e ∷ events) s v = run-IsValid events (step reader e s) (step-IsValid e s v)

  -- Whatever the URL and the events, the session is in a valid state: the URL is the link of the
  -- query, the request in flight is the one for the query and the page, and a query without a
  -- condition has neither a request nor results.
  pub search-IsValid :
      (params : Params) (events : List Event)
      → IsValid reader (run reader (mount reader params) events)
  search-IsValid params events = run-IsValid events (mount reader params) (mount-IsValid params)
