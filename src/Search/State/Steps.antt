-- ===== src/Search/State/Steps.antt =====
-- The effects of the search page, and its steps.
use reachable_web_observator.Common.{
  ◌==◌, if◌then◌else◌, nat_eq, string_eq, ◌+◌, Bool, true, false, ◌&&◌, none, some, List, [], ◌∷◌,
  str_eq,
}
use reachable_web_observator.Js.Number.{Reader}
use reachable_web_observator.Js.Params.{Params}
use reachable_web_observator.Search.Filters.{link, is_active, request, seed}
use reachable_web_observator.Search.State.{State, Event, handle}
use reachable_web_observator.Search.State.Same.{same_query, bool_eq}

-- The fetch effect, which first ends the run before it.
unfoldable pub fetch_effect : Reader → State → State
fetch_effect reader s =
    if is_active s.filters
    then record s {
      loading = true;
      touched = true;
      error = false;
      live =
          some
            (record { id = s.next_id; page = s.page; request = request reader s.filters s.page });
      next_id = s.next_id + 1;
    }
    else record s {
      tiles = [];
      has_more = false;
      total = 0;
      total_hosts = 0;
      error = false;
      live = none;
    }

-- The effect on `q`: a change restarts the timer.
unfoldable pub timer_effect : State → State → State
timer_effect old s = if str_eq old.filters.q s.filters.q then s else record s { timer = true }

-- The effect that writes the URL.
unfoldable pub link_effect : State → State → State
link_effect old s =
    if same_query old.filters s.filters && bool_eq old.filters.group_hosts s.filters.group_hosts
    then s
    else record s { url = link s.filters }

-- Whether the dependencies of the fetch effect are unchanged. `active` depends on the query.
abbrev pub same_fetch : State → State → Bool
same_fetch old s =
    same_query old.filters s.filters && old.page == s.page && old.reload_key == s.reload_key

unfoldable pub refetch_effect : Reader → State → State → State
refetch_effect reader old s = if same_fetch old s then s else fetch_effect reader s

-- `setPage(0)` takes effect in the next render, whose page is then a changed dependency.
unfoldable pub page_effect : Reader → State → State → State
page_effect reader old s =
    if same_query old.filters s.filters
    then s
    else if s.page == 0
    then s
    else fetch_effect reader (record s { page = 0 })

-- The effects after a state change, in the order of their declarations.
unfoldable pub commit : Reader → State → State → State
commit reader old new =
    page_effect reader old (refetch_effect reader old (link_effect old (timer_effect old new)))

unfoldable pub step : Reader → Event → State → State
step reader e s = commit reader s (handle e s)

-- The first render from a URL, and its effects.
unfoldable pub mount : Reader → Params → State
mount reader params = fetch_effect reader (record {
  filters = seed reader params;
  url = link (seed reader params);
  tiles = [];
  page = 0;
  has_more = false;
  total = 0;
  total_hosts = 0;
  announcement = "";
  loading = false;
  touched = false;
  error = false;
  reload_key = 0;
  timer = true;
  live = none;
  next_id = 0;
})

-- A session: the events in order.
unfoldable pub run : Reader → State → List Event → State
run reader s [] = s
run reader s (e ∷ events) = run reader (step reader e s) events
