-- ===== src/Search/State/Paging/Answers.antt =====
-- The answer to the request that is alive shows the page that it asked for.
use reachable_web_observator.Common.{
  nat_eq, string_eq, ℕ, ◌≡◌, refl, ◌∙◌, subst, inl, true, false, some, List, ◌∷◌, arith,
}
use reachable_web_observator.Js.Number.{Reader}
use reachable_web_observator.Api.Types.{ListResponse}
use reachable_web_observator.Search.Filters.{is_active, request}
use reachable_web_observator.Search.State.{
  resolved, rejected, State, Event, Flight, resolve, reject, finish, handle, alive,
}
use reachable_web_observator.Search.State.Same.{same_query}
use reachable_web_observator.Search.State.Laws.{IsCurrent, IsValid}
use reachable_web_observator.Search.State.Sessions.{live_of_alive}
use reachable_web_observator.Search.State.Steps.{step, commit}
use reachable_web_observator.Search.State.Order.{same_query_refl}
use reachable_web_observator.Search.State.Paging.{Answer, Loaded}
use reachable_web_observator.Search.State.Paging.Commit.{SamePages, commit-SamePages}
use reachable_web_observator.Search.State.Paging.Waits.{IsPagedQuery, Waits-kept, Loaded-answer}

module _ (reader : Reader) where
  step_finish-SamePages :
      (s : State) (id : ℕ) (run : Flight)
      → alive id s ≡ some run
      → SamePages (step reader (finish id) s) (record s { loading = false })
  unfolding step handle
  step_finish-SamePages s id run h = rw h (
      commit-SamePages reader s (record s { loading = false }) (same_query_refl s.filters)
        (ground arith) (ground arith))

  -- What an answer that makes this state leaves, once its `finally` has run.
  settled_pages :
      (e : Event) (s new : State) (id : ℕ) (run : Flight)
      → handle e s ≡ new
      → new.filters ≡ s.filters
      → new.page ≡ s.page
      → new.reload_key ≡ s.reload_key
      → new.live ≡ s.live
      → alive id s ≡ some run
      → SamePages (step reader (finish id) (step reader e s)) (record new { loading = false })
  unfolding alive step
  settled_pages e s new id run handled filters page key live h =
      let query : same_query s.filters new.filters ≡ true =
        rw filters (same_query_refl s.filters) in
      let c = commit-SamePages reader s new query (ground arith) (ground arith) in
      let l : (commit reader s new).live ≡ s.live = c.live ∙ live in
      let f = step_finish-SamePages (commit reader s new) id run (rw l h) in
      rw handled (record {
        filters = f.filters ∙ c.filters;
        page = f.page ∙ c.page;
        tiles = f.tiles ∙ c.tiles;
        loading = f.loading;
        error = f.error ∙ c.error;
        live = f.live ∙ c.live;
      })

  handle-resolve :
      (s : State) (id : ℕ) (r : ListResponse) (run : Flight)
      → alive id s ≡ some run
      → handle (resolve id r) s ≡ resolved r run s
  unfolding handle
  handle-resolve s id r run h = rw h

  handle-reject :
      (s : State) (id : ℕ) (run : Flight)
      → alive id s ≡ some run
      → handle (reject id) s ≡ rejected run s
  unfolding handle
  handle-reject s id run h = rw h

  pub IsCurrent-alive :
      (s : State) (id : ℕ) (run : Flight)
      → IsValid reader s
      → alive id s ≡ some run
      → (is_active s.filters ≡ true)
        × (run.page ≡ s.page)
        × (run.request ≡ request reader s.filters s.page)
  IsCurrent-alive s id run v h =
      subst (IsCurrent reader s.filters s.page) (live_of_alive reader id s run h) v.fetched.current

  -- The answer to the run that is alive shows the page that it asked for.
  pub answered-pages :
      (s : State) (log : List Answer) (id : ℕ) (r : ListResponse) (run : Flight)
      → IsValid reader s
      → IsPagedQuery reader s log
      → alive id s ≡ some run
      → s.loading ≡ true
      → let t = step reader (finish id) (step reader (resolve id r) s) in
        (t.filters ≡ s.filters)
        × (t.loading ≡ false)
        × (t.error ≡ false)
        × Loaded reader t.filters t.page t.tiles
            (record { request = run.request; entries = r.entries } ∷ log)
  unfolding resolved
  answered-pages s log id r run v p h busy =
      let (on, at, asked) = IsCurrent-alive s id run v h in
      let t =
        settled_pages (resolve id r) s (resolved r run s) id run (handle-resolve s id r run h) refl
          refl refl refl h in
      let q = p on in
      (
        t.filters,
        t.loading,
        t.error ∙ q.calm busy,
        rw (t.filters, t.page, t.tiles, asked, at)
            (Loaded-answer reader r.entries (q.waiting (inl busy))),
      )

  pub failed-IsPaged :
      (s : State) (log : List Answer) (id : ℕ) (run : Flight)
      → IsValid reader s
      → IsPagedQuery reader s log
      → alive id s ≡ some run
      → s.loading ≡ true
      → IsPagedQuery reader (step reader (finish id) (step reader (reject id) s)) log
  unfolding rejected
  failed-IsPaged s log id run v p h busy on =
      let (active, at, asked) = IsCurrent-alive s id run v h in
      let t =
        settled_pages (reject id) s (rejected run s) id run (handle-reject s id run h) refl refl
          refl refl h in
      record {
        settled = λ idle well. let failed = t.error in cc;
        waiting = λ w.
            rw (t.filters, t.page, t.tiles, at) (Waits-kept reader ((p active).waiting (inl busy)));
        calm = λ b. let idle = t.loading in cc;
      }
