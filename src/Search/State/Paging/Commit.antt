-- ===== src/Search/State/Paging/Commit.antt =====
-- What the effects leave of a state, by which of their dependencies an event changed.
use reachable_web_observator.Common.{◌==◌, nat_eq, string_eq, ◌≡◌, true, false, ◌&&◌, arith}
use reachable_web_observator.Js.Number.{Reader}
use reachable_web_observator.Search.Filters.{is_active}
use reachable_web_observator.Search.State.{State}
use reachable_web_observator.Search.State.Same.{same_query}
use reachable_web_observator.Search.State.Steps.{
  fetch_effect, timer_effect, link_effect, refetch_effect, page_effect, commit,
}

-- The fields that the pages depend on are those of another state.
pub record SamePages (s t : State) : Type 0 where
  pub filters : s.filters ≡ t.filters
  pub page : s.page ≡ t.page
  pub tiles : s.tiles ≡ t.tiles
  pub loading : s.loading ≡ t.loading
  pub error : s.error ≡ t.error
  pub live : s.live ≡ t.live

-- A request for the page of an active query is in flight.
pub record IsAsking (s : State) : Type 0 where
  pub loading : is_active s.filters ≡ true → s.loading ≡ true
  pub error : s.error ≡ false

module _ (reader : Reader) where
  pub commit-SamePages :
      (old new : State)
      → same_query old.filters new.filters ≡ true
      → (old.page == new.page) ≡ true
      → (old.reload_key == new.reload_key) ≡ true
      → SamePages (commit reader old new) new
  unfolding commit timer_effect link_effect refetch_effect page_effect
  commit-SamePages old new query page key = record {
    filters = ground arith;
    page = ground arith;
    tiles = ground arith;
    loading = ground arith;
    error = ground arith;
    live = ground arith;
  }

  pub commit-IsAsking :
      (old new : State)
      → (same_query old.filters new.filters
          && old.page == new.page
          && old.reload_key == new.reload_key)
        ≡ false
      → IsAsking (commit reader old new)
  unfolding commit timer_effect link_effect refetch_effect page_effect fetch_effect
  commit-IsAsking old new h = record { loading = ground arith; error = ground arith }

  pub tiles-commit :
      (old new : State)
      → same_query old.filters new.filters ≡ true
      → is_active new.filters ≡ true
      → ((commit reader old new).tiles ≡ new.tiles) × ((commit reader old new).page ≡ new.page)
  unfolding commit timer_effect link_effect refetch_effect page_effect fetch_effect
  tiles-commit old new query on = ground arith

  pub page-commit :
      (old new : State)
      → same_query old.filters new.filters ≡ false
      → (commit reader old new).page ≡ 0
  unfolding commit timer_effect link_effect refetch_effect page_effect fetch_effect
  page-commit old new changed = ground arith
