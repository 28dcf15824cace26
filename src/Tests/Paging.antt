-- ===== src/Tests/Paging.antt =====
-- A session of the search page with one answer.
use reachable_web_observator.Common.{
  is_space, trim_start, trim_end, trim, nat_eq, string_eq, ◌≡◌, refl, true, false, some, List, [],
  ◌∷◌,
}
use reachable_web_observator.Js.Number.Decimal.{decimal_reader}
use reachable_web_observator.Js.Map.{lookup}
use reachable_web_observator.Js.Params.{Params}
use reachable_web_observator.Api.Types.{ListResponse}
use reachable_web_observator.Search.Filters.{
  seed, is_active, request, seed_time_range, seed_sec, seed_status, seed_sort,
}
use reachable_web_observator.Search.State.{State, Flight, resolve, finish, alive, handle, resolved}
use reachable_web_observator.Search.State.Same.{
  same_query, bool_eq, range_eq, sec_eq, status_eq, sort_eq,
}
use reachable_web_observator.Search.State.Steps.{
  mount, step, fetch_effect, commit, timer_effect, link_effect, refetch_effect, page_effect,
}
use reachable_web_observator.Search.State.Paging.{Answer, Reach, opened, answered, Loaded}
use reachable_web_observator.Search.State.Paging.Laws.{reached-Loaded, reached-answered}
use reachable_web_observator.Tests.{tiles, answer_of}

abbrev address : Params
address = ("port", "443") ∷ []

abbrev start : State
start = mount decimal_reader address

abbrev asked : Flight
asked = record {
  id = 0;
  page = 0;
  request = request decimal_reader (seed decimal_reader address) 0;
}

start_facts : (is_active start.filters ≡ true) × (start.loading ≡ true) × (start.live ≡ some asked)
unfolding mount fetch_effect seed is_active lookup seed_time_range seed_sec seed_status seed_sort
    reachable_web_observator.Common.Text.trim reachable_web_observator.Common.Text.trim_start
    reachable_web_observator.Common.Text.trim_end reachable_web_observator.Common.Text.is_space
start_facts = (refl, refl, refl)

alive-asked : alive 0 start ≡ some asked
unfolding alive
alive-asked = rw (start_facts.2)

abbrev shown : State
shown = step decimal_reader (finish 0) (step decimal_reader (resolve 0 (answer_of tiles)) start)

abbrev log : List Answer
log = record { request = asked.request; entries = tiles } ∷ []

reached : Reach decimal_reader shown log
reached = answered 0 (answer_of tiles) asked alive-asked start_facts.1 (opened address)

shown_facts : (is_active shown.filters ≡ true) × (shown.loading ≡ false) × (shown.error ≡ false)
unfolding step commit handle resolved alive timer_effect link_effect refetch_effect page_effect
    same_query mount fetch_effect seed is_active lookup seed_time_range seed_sec seed_status
    seed_sort bool_eq range_eq sec_eq status_eq sort_eq reachable_web_observator.Common.Text.trim
    reachable_web_observator.Common.Text.trim_start reachable_web_observator.Common.Text.trim_end
    reachable_web_observator.Common.Text.is_space
shown_facts = (refl, refl, refl)

reached-Loaded_example : Loaded decimal_reader shown.filters shown.page shown.tiles log
reached-Loaded_example =
    reached-Loaded decimal_reader reached shown_facts.0 shown_facts.1 shown_facts.2

reached-answered_example :
    (run : Flight) × (start.live ≡ some run)
    × (run.request ≡ request decimal_reader start.filters start.page)
    × ((r : ListResponse)
        → let t =
            step decimal_reader (finish run.id) (step decimal_reader (resolve run.id r) start) in
          (t.filters ≡ start.filters)
          × (t.loading ≡ false)
          × (t.error ≡ false)
          × Loaded decimal_reader t.filters t.page t.tiles
              (record { request = run.request; entries = r.entries } ∷ []))
reached-answered_example =
    reached-answered decimal_reader (opened address) start_facts.0 start_facts.1
