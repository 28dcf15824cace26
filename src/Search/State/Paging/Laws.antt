-- ===== src/Search/State/Paging/Laws.antt =====
-- Every session of the search page shows the pages of its query.
use reachable_web_observator.Common.{
  Option-cases, nat_eq, string_eq, ℕ, ◌≡◌, sym, subst, inl, inr, true, false, some, List, ◌∷◌,
  arith,
}
use reachable_web_observator.Js.Number.{Reader}
use reachable_web_observator.Api.Types.{ListResponse}
use reachable_web_observator.Search.Filters.{is_active, request}
use reachable_web_observator.Search.State.{
  State, Flight, load_more, retry, resolve, reject, finish, alive,
}
use reachable_web_observator.Search.State.Laws.{IsCurrent, IsValid}
use reachable_web_observator.Search.State.Sessions.{mount-IsValid, step-IsValid}
use reachable_web_observator.Search.State.Steps.{step}
use reachable_web_observator.Search.State.Order.{search_step_of_stale}
use reachable_web_observator.Search.State.Paging.{
  Answer, Reach, opened, edited, asked_more, retried, answered, failed, late, Loaded,
}
use reachable_web_observator.Search.State.Paging.Waits.{IsPagedQuery}
use reachable_web_observator.Search.State.Paging.Handlers.{
  mount-IsPaged, step_edit-IsPaged, retry-IsPaged, load_more-IsPaged,
}
use reachable_web_observator.Search.State.Paging.Answers.{
  IsCurrent-alive, answered-pages, failed-IsPaged,
}

module _ (reader : Reader) where
  -- The induction on the session; `step-IsValid` is the invariant that it needs.
  Reach-IsValid : {s : State} {log : List Answer} → Reach reader s log → IsValid reader s
  Reach-IsValid (opened params) = mount-IsValid reader params
  Reach-IsValid (edited e h reached) = step-IsValid reader e _ (Reach-IsValid reached)
  Reach-IsValid (asked_more h reached) = step-IsValid reader load_more _ (Reach-IsValid reached)
  Reach-IsValid (retried h reached) = step-IsValid reader retry _ (Reach-IsValid reached)
  Reach-IsValid (answered id r run h busy reached) =
      step-IsValid reader (finish id) _
        (step-IsValid reader (resolve id r) _ (Reach-IsValid reached))
  Reach-IsValid (failed id run h busy reached) =
      step-IsValid reader (finish id) _ (step-IsValid reader (reject id) _ (Reach-IsValid reached))
  Reach-IsValid (late id r h reached) = step-IsValid reader (resolve id r) _ (Reach-IsValid reached)

  answered-IsPaged :
      (s : State) (log : List Answer) (id : ℕ) (r : ListResponse) (run : Flight)
      → IsValid reader s
      → IsPagedQuery reader s log
      → alive id s ≡ some run
      → s.loading ≡ true
      → IsPagedQuery reader
          (step reader (finish id) (step reader (resolve id r) s))
          (record { request = run.request; entries = r.entries } ∷ log)
  answered-IsPaged s log id r run v p h busy on =
      let (same, idle, well, shown) = answered-pages reader s log id r run v p h busy in
      record { settled = λ i w. shown; waiting = λ w. ground arith; calm = λ b. well }

  Reach-IsPaged : {s : State} {log : List Answer} → Reach reader s log → IsPagedQuery reader s log
  Reach-IsPaged (opened params) = mount-IsPaged reader params
  Reach-IsPaged (edited {s} {log} e h reached) =
      step_edit-IsPaged reader e s log h (Reach-IsPaged reached)
  Reach-IsPaged (asked_more {s} {log} h reached) =
      load_more-IsPaged reader s log h (Reach-IsPaged reached)
  Reach-IsPaged (retried {s} {log} h reached) = retry-IsPaged reader s log h (Reach-IsPaged reached)
  Reach-IsPaged (answered {s} {log} id r run h busy reached) =
      answered-IsPaged s log id r run (Reach-IsValid reached) (Reach-IsPaged reached) h busy
  Reach-IsPaged (failed {s} {log} id run h busy reached) =
      failed-IsPaged reader s log id run (Reach-IsValid reached) (Reach-IsPaged reached) h busy
  Reach-IsPaged (late {s} {log} id r h reached) =
      subst (λ t. IsPagedQuery reader t log) (sym (search_step_of_stale reader id r s h).0)
        (Reach-IsPaged reached)

  -- In every session, while an active query neither loads nor has failed, the tiles are the answers
  -- to the pages of that query from the first to the one reached, each once and in order, and
  -- those are the newest answers.
  pub reached-Loaded :
      {s : State} {log : List Answer}
      → Reach reader s log
      → is_active s.filters ≡ true
      → s.loading ≡ false
      → s.error ≡ false
      → Loaded reader s.filters s.page s.tiles log
  reached-Loaded reached on idle well = (Reach-IsPaged reached on).settled idle well

  alive-live : (s : State) (run : Flight) → s.live ≡ some run → alive run.id s ≡ some run
  unfolding alive
  alive-live s run h = rw h (ground arith)

  -- In every session, while an active query loads, one request is alive, it asks for the page
  -- reached, and any answer to it ends the loading, without an error and with that page shown.
  pub reached-answered :
      {s : State} {log : List Answer}
      → Reach reader s log
      → is_active s.filters ≡ true
      → s.loading ≡ true
      → (run : Flight) × (s.live ≡ some run)
        × (run.request ≡ request reader s.filters s.page)
        × ((r : ListResponse)
            → let t = step reader (finish run.id) (step reader (resolve run.id r) s) in
              (t.filters ≡ s.filters)
              × (t.loading ≡ false)
              × (t.error ≡ false)
              × Loaded reader t.filters t.page t.tiles
                  (record { request = run.request; entries = r.entries } ∷ log))
  reached-answered {s} {log} reached on busy =
      let v = Reach-IsValid reached in
      elim (Option-cases s.live) [
        | inl gone ↦
            let off = subst (IsCurrent reader s.filters s.page) gone v.fetched.current in cc
        | inr (run, h) ↦
            let alive_run = alive-live s run h in
            (
              run,
              h,
              (IsCurrent-alive reader s run.id run v alive_run).2,
              λ r.
                  answered-pages reader s log run.id r run v (Reach-IsPaged reached) alive_run busy,
            )
      ]
