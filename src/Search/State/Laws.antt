-- ===== src/Search/State/Laws.antt =====
-- The invariant of the search page: what is shown and asked for always belongs to the query.
use reachable_web_observator.Common.{
  ◌==◌, Bool-cases, trim, nat_eq, string_eq, ℕ, ◌≡◌, refl, sym, ap, ◌∙◌, subst, inl, inr, true,
  false, ◌&&◌, Option, none, some, [], arith,
}
use reachable_web_observator.Js.Number.{Reader}
use reachable_web_observator.Search.Filters.{Filters, link, is_active, request}
use reachable_web_observator.Search.State.{State, Flight}
use reachable_web_observator.Search.State.Same.{
  bool_eq, bool_eq_sound, link-SameQuery, same_query, SameQuery, same_query_sound,
  is_active-SameQuery, request-SameQuery,
}
use reachable_web_observator.Search.State.Steps.{
  fetch_effect, same_fetch, refetch_effect, page_effect, timer_effect, link_effect, commit,
}

-- The request in flight is the one for the query and the page; there is none for an inactive query.
abbrev pub IsCurrent : Reader → Filters → ℕ → Option Flight → Type 0
IsCurrent reader f page none = is_active f ≡ false
IsCurrent reader f page (some run) =
    (is_active f ≡ true) × (run.page ≡ page) × (run.request ≡ request reader f page)

pub record IsTrimmed (f : Filters) : Type 0 where
  pub query : trim f.debounced ≡ f.debounced
  pub network : trim f.network ≡ f.network

-- The request in flight belongs to the query, and an inactive query shows nothing.
pub record IsFetched (reader : Reader) (s : State) : Type 0 where
  pub current : IsCurrent reader s.filters s.page s.live
  pub quiet : is_active s.filters ≡ false → s.tiles ≡ []

pub record IsValid (reader : Reader) (s : State) : Type 0 where
  pub fetched : IsFetched reader s
  pub linked : s.url ≡ link s.filters
  pub trimmed : IsTrimmed s.filters

module _ (reader : Reader) where
  pub fetch_effect-IsFetched : (s : State) → IsFetched reader (fetch_effect reader s)
  unfolding fetch_effect
  fetch_effect-IsFetched s = elim (Bool-cases (is_active s.filters)) [
    | inl on ↦ rw on (record { current = (on, refl, refl); quiet = λ e. cc })
    | inr off ↦ rw off (record { current = off; quiet = λ e. refl })
  ]

  pub fetch_effect-same :
      (s : State)
      → ((fetch_effect reader s).filters ≡ s.filters)
        × ((fetch_effect reader s).url ≡ s.url)
        × ((fetch_effect reader s).page ≡ s.page)
  unfolding fetch_effect
  fetch_effect-same s = ground arith

  -- What a handler leaves to the effects.
  pub record IsPending (old new : State) : Type 0 where
    pub same_url : new.url ≡ old.url
    pub same_live : new.live ≡ old.live
    pub quiet : is_active old.filters ≡ false → new.tiles ≡ []
    pub trimmed : IsTrimmed new.filters

  IsCurrent-SameQuery :
      {f g : Filters} {page page' : ℕ} (live : Option Flight)
      → SameQuery f g
      → page ≡ page'
      → IsCurrent reader f page live
      → IsCurrent reader g page' live
  IsCurrent-SameQuery none q p h = sym (is_active-SameQuery q) ∙ h
  IsCurrent-SameQuery {page} (some run) q p (on, at, asked) =
      (sym (is_active-SameQuery q) ∙ on, at ∙ p, asked ∙ request-SameQuery reader page q ∙ rw p)

  refetch_effect-IsFetched :
      (old s : State)
      → IsFetched reader old
      → s.live ≡ old.live
      → (is_active old.filters ≡ false → s.tiles ≡ [])
      → IsFetched reader (refetch_effect reader old s)
  unfolding refetch_effect
  refetch_effect-IsFetched old s v live quiet = elim (Bool-cases (same_fetch old s)) [
    | inl same ↦
        let q = same_query_sound old.filters s.filters (ground arith) in
        rw same (record {
          current = rw live (IsCurrent-SameQuery old.live q (ground arith) v.current);
          quiet = λ off. quiet (is_active-SameQuery q ∙ off);
        })
    | inr changed ↦ rw changed (fetch_effect-IsFetched s)
  ]

  page_effect-IsFetched :
      (old s : State) → IsFetched reader s → IsFetched reader (page_effect reader old s)
  unfolding page_effect
  page_effect-IsFetched old s v = elim (Bool-cases (same_query old.filters s.filters)) [
    | inl same ↦ rw same v
    | inr changed ↦ rw changed (elim (Bool-cases (s.page == 0)) [
      | inl first ↦ rw first v
      | inr later ↦ rw later (fetch_effect-IsFetched (record s { page = 0 }))
    ])
  ]

  timer_effect-same :
      (old s : State)
      → ((timer_effect old s).filters ≡ s.filters)
        × ((timer_effect old s).url ≡ s.url)
        × ((timer_effect old s).live ≡ s.live)
        × ((timer_effect old s).tiles ≡ s.tiles)
        × ((timer_effect old s).page ≡ s.page)
  unfolding timer_effect
  timer_effect-same old s = ground arith

  link_effect-same :
      (old s : State)
      → ((link_effect old s).filters ≡ s.filters)
        × ((link_effect old s).live ≡ s.live)
        × ((link_effect old s).tiles ≡ s.tiles)
        × ((link_effect old s).page ≡ s.page)
  unfolding link_effect
  link_effect-same old s = ground arith

  url-link_effect :
      (old s : State)
      → old.url ≡ link old.filters
      → s.url ≡ old.url
      → (link_effect old s).url ≡ link s.filters
  unfolding link_effect
  url-link_effect old s h k =
      elim (Bool-cases (
        same_query old.filters s.filters
        && bool_eq old.filters.group_hosts s.filters.group_hosts)) [
          | inl same ↦ rw same (
              k
              ∙ h
              ∙ link-SameQuery (same_query_sound old.filters s.filters (ground arith))
                  (bool_eq_sound old.filters.group_hosts s.filters.group_hosts (ground arith)))
          | inr changed ↦ rw changed
        ]

  refetch_effect-same :
      (old s : State)
      → ((refetch_effect reader old s).filters ≡ s.filters)
        × ((refetch_effect reader old s).url ≡ s.url)
        × ((refetch_effect reader old s).page ≡ s.page)
  unfolding refetch_effect
  refetch_effect-same old s = ground (arith, fetch_effect-same s)

  page_effect-same :
      (old s : State)
      → ((page_effect reader old s).filters ≡ s.filters) × ((page_effect reader old s).url ≡ s.url)
  unfolding page_effect
  page_effect-same old s = ground (arith, fetch_effect-same (record s { page = 0 }))

  -- The filters are what the handler made them.
  pub filters-commit : (old new : State) → (commit reader old new).filters ≡ new.filters
  unfolding commit
  filters-commit old new =
      let timed = timer_effect old new in
      let linked = link_effect old timed in
      (page_effect-same old (refetch_effect reader old linked)).0
      ∙ (refetch_effect-same old linked).0
      ∙ (link_effect-same old timed).0
      ∙ (timer_effect-same old new).0

  pub commit-IsValid :
      (old new : State)
      → IsValid reader old
      → IsPending old new
      → IsValid reader (commit reader old new)
  unfolding commit
  commit-IsValid old new v p =
      let timed = timer_effect old new in
      let linked = link_effect old timed in
      let fetched = refetch_effect reader old linked in
      let t = timer_effect-same old new in
      let l = link_effect-same old timed in
      let same = filters-commit old new in
      record {
        fetched = page_effect-IsFetched old fetched (
            refetch_effect-IsFetched old linked v.fetched (l.1 ∙ t.2 ∙ p.same_live)
              (λ off. l.2 ∙ t.3 ∙ p.quiet off));
        linked =
            (page_effect-same old fetched).1
            ∙ (refetch_effect-same old linked).1
            ∙ url-link_effect old timed v.linked (t.1 ∙ p.same_url)
            ∙ ap link (t.0 ∙ sym (unfold commit in same));
        trimmed = subst IsTrimmed (sym (unfold commit in same)) p.trimmed;
      }
