-- ===== src/Search/State/Paging/Handlers.antt =====
-- The handlers of the search page keep what is shown and awaited.
use reachable_web_observator.Common.{
  ◌==◌, Bool-cases, nat_eq, string_eq, ◌≡◌, refl, sym, ap, ◌∙◌, subst, inl, inr, Bool, true, false,
  ◌&&◌, List, [], arith,
}
use reachable_web_observator.Js.Number.{Reader}
use reachable_web_observator.Js.Params.{Params}
use reachable_web_observator.Search.Filters.{Filters, is_active}
use reachable_web_observator.Search.State.{
  State, Event, load_more, retry, resolve, reject, finish, debounce, edit, handle,
}
use reachable_web_observator.Search.State.Same.{same_query, SameQuery, same_query_sound}
use reachable_web_observator.Search.State.Laws.{filters-commit}
use reachable_web_observator.Search.State.Steps.{mount, step, commit, fetch_effect}
use reachable_web_observator.Search.State.Order.{same_query_refl}
use reachable_web_observator.Search.View.{footer, more}
use reachable_web_observator.Search.State.Paging.{Answer, is_edit}
use reachable_web_observator.Search.State.Paging.Commit.{
  commit-SamePages, commit-IsAsking, tiles-commit, page-commit,
}
use reachable_web_observator.Search.State.Paging.Waits.{
  Waits, for_next, IsPagedQuery, Waits-first, IsPaged-SameQuery, IsPaged-IsAsking,
}

module _ (reader : Reader) where
  -- An edit sets the filters and at most stops the timer.
  handle-edit :
      (e : Event) (s : State)
      → is_edit e ≡ true
      → (t : Bool) × (f : Filters) × (handle e s ≡ record s { timer = t; filters = f })
  unfolding handle
  handle-edit debounce s h = elim (Bool-cases s.timer) [
    | inl on ↦ (false, edit debounce s.filters, rw on)
    | inr off ↦ (s.timer, s.filters, rw off)
  ]
  handle-edit load_more s h = cc
  handle-edit retry s h = cc
  handle-edit (resolve id r) s h = cc
  handle-edit (reject id) s h = cc
  handle-edit (finish id) s h = cc
  handle-edit e s h = (s.timer, edit e s.filters, refl)

  commit-edit :
      (s : State) (log : List Answer) (t : Bool) (f : Filters)
      → IsPagedQuery reader s log
      → IsPagedQuery reader (commit reader s (record s { timer = t; filters = f })) log
  commit-edit s log t f v = elim (Bool-cases (same_query s.filters f)) [
    | inl same ↦
        let c =
          commit-SamePages reader s (record s { timer = t; filters = f }) same (ground arith)
            (ground arith) in
        IsPaged-SameQuery reader
          (subst (SameQuery s.filters) (sym c.filters) (same_query_sound s.filters f same)) c.page
          c.tiles c.loading c.error v
    | inr changed ↦
        let new : State = record s { timer = t; filters = f } in
        IsPaged-IsAsking reader (commit reader s new) log
          (commit-IsAsking reader s new (ground arith))
          (Waits-first reader _ _ log (page-commit reader s new changed))
  ]

  pub mount-IsPaged : (params : Params) → IsPagedQuery reader (mount reader params) []
  unfolding mount fetch_effect
  mount-IsPaged params =
      IsPaged-IsAsking reader (mount reader params) []
        (record { loading = ground arith; error = ground arith })
        (Waits-first reader _ _ [] (ground arith))

  pub step_edit-IsPaged :
      (e : Event) (s : State) (log : List Answer)
      → is_edit e ≡ true
      → IsPagedQuery reader s log
      → IsPagedQuery reader (step reader e s) log
  unfolding step
  step_edit-IsPaged e s log h v =
      let (t, f, same) = handle-edit e s h in
      subst (λ new. IsPagedQuery reader (commit reader s new) log) (sym same)
        (commit-edit s log t f v)

  -- A new fetch of the same query keeps the tiles and asks for the page.
  IsPaged-refetch :
      (s new : State) (log : List Answer)
      → new.filters ≡ s.filters
      → (s.page == new.page && s.reload_key == new.reload_key) ≡ false
      → (is_active s.filters ≡ true → Waits reader s.filters new.page new.tiles log)
      → IsPagedQuery reader (commit reader s new) log
  IsPaged-refetch s new log same changed w on =
      let query : same_query s.filters new.filters ≡ true = rw same (same_query_refl s.filters) in
      let filters = filters-commit reader s new in
      let active : is_active s.filters ≡ true = sym (ap is_active (filters ∙ same)) ∙ on in
      let kept = tiles-commit reader s new query (rw same active) in
      IsPaged-IsAsking reader (commit reader s new) log
        (commit-IsAsking reader s new (rw query changed))
        (subst (λ f. Waits reader f (commit reader s new).page (commit reader s new).tiles log)
          (sym (filters ∙ same)) (rw (kept.1, kept.0) (w active)))
        on

  pub retry-IsPaged :
      (s : State) (log : List Answer)
      → s.error ≡ true
      → IsPagedQuery reader s log
      → IsPagedQuery reader (step reader retry s) log
  unfolding step handle
  retry-IsPaged s log h v =
      IsPaged-refetch s _ log refl (ground arith) (λ on. (v on).waiting (inr h))

  pub load_more-IsPaged :
      (s : State) (log : List Answer)
      → footer s ≡ more
      → IsPagedQuery reader s log
      → IsPagedQuery reader (step reader load_more s) log
  unfolding step handle footer
  load_more-IsPaged s log h v =
      IsPaged-refetch s _ log refl (ground arith)
        (λ on. for_next ((v on).settled (ground arith) (ground arith)))
