-- ===== src/Search/State/Order.antt =====
-- Which events matter to the search page: late answers do not, and a new query starts over.
use reachable_web_observator.Common.{
  nat_eq, string_eq, ℕ, String, ◌≡◌, refl, Bool, true, false, Option, none, some, arith, str_eq,
  eq_iff,
}
use reachable_web_observator.Js.Number.{Reader, Number, whole, other, number_eq}
use reachable_web_observator.Api.Types.{ListResponse}
use reachable_web_observator.Api.Query.{SortMode}
use reachable_web_observator.Search.Filters.{Filters, SecFilter}
use reachable_web_observator.Search.State.{State, Event, resolve, reject, finish, handle, alive}
use reachable_web_observator.Search.State.Same.{
  bool_eq, range_eq, status_eq, sec_eq, sort_eq, same_query,
}
use reachable_web_observator.Search.State.Steps.{
  fetch_effect, timer_effect, link_effect, same_fetch, refetch_effect, page_effect, commit, step,
}

str_eq_refl : (s : String) → str_eq s s ≡ true
str_eq_refl s = (eq_iff s s).1 refl

bool_eq_refl : (b : Bool) → bool_eq b b ≡ true
unfolding bool_eq
bool_eq_refl b = ground arith

range_eq_refl : (o : Option ℕ) → range_eq o o ≡ true
unfolding range_eq
range_eq_refl o = ground arith

number_eq_refl : (n : Number) → number_eq n n ≡ true
unfolding number_eq
number_eq_refl (whole n) = ground arith
number_eq_refl (other s) = str_eq_refl s

status_eq_refl : (o : Option Number) → status_eq o o ≡ true
unfolding status_eq
status_eq_refl none = refl
status_eq_refl (some n) = number_eq_refl n

sec_eq_refl : (s : SecFilter) → sec_eq s s ≡ true
unfolding sec_eq
sec_eq_refl s = ground arith

sort_eq_refl : (s : SortMode) → sort_eq s s ≡ true
unfolding sort_eq
sort_eq_refl s = ground arith

pub same_query_refl : (f : Filters) → same_query f f ≡ true
unfolding same_query
same_query_refl f =
    simp (str_eq_refl, bool_eq_refl, range_eq_refl, status_eq_refl, sec_eq_refl, sort_eq_refl)

module _ (reader : Reader) where
  timer_effect_idle : (s : State) → timer_effect s s ≡ s
  unfolding timer_effect
  timer_effect_idle s = simp (str_eq_refl)

  link_effect_idle : (s : State) → link_effect s s ≡ s
  unfolding link_effect
  link_effect_idle s = simp (same_query_refl, bool_eq_refl)

  same_fetch_refl : (s : State) → same_fetch s s ≡ true
  same_fetch_refl s = rw (same_query_refl s.filters) (ground arith)

  refetch_effect_idle : (s : State) → refetch_effect reader s s ≡ s
  unfolding refetch_effect
  refetch_effect_idle s = ground (arith, same_fetch_refl s)

  page_effect_idle : (s : State) → page_effect reader s s ≡ s
  unfolding page_effect
  page_effect_idle s = simp (same_query_refl)

  -- The effects do nothing when nothing has changed.
  commit_idle : (s : State) → commit reader s s ≡ s
  unfolding commit
  commit_idle s =
      rw (timer_effect_idle s, link_effect_idle s, refetch_effect_idle s) (page_effect_idle s)

  -- The answer of a run that has been superseded changes nothing, whether it is a result, an error
  -- or the end of the request.
  pub search_step_of_stale :
      (id : ℕ) (r : ListResponse) (s : State)
      → alive id s ≡ none
      → (step reader (resolve id r) s ≡ s)
        × (step reader (reject id) s ≡ s)
        × (step reader (finish id) s ≡ s)
  unfolding step handle
  search_step_of_stale id r s gone = rw gone (commit_idle s, commit_idle s, commit_idle s)

  page_effect-page :
      (old s : State)
      → same_query old.filters (page_effect reader old s).filters ≡ false
      → (page_effect reader old s).page ≡ 0
  unfolding page_effect fetch_effect
  page_effect-page old s h = ground arith

  -- An event that changes the query leaves the page at the first one.
  page-step_of_change :
      (e : Event) (s : State)
      → same_query s.filters (step reader e s).filters ≡ false
      → (step reader e s).page ≡ 0
  unfolding step commit
  page-step_of_change e s h = page_effect-page s _ h
