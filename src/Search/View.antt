-- ===== src/Search/View.antt =====
-- What the search page shows for a state.
pub mod Laws
use reachable_web_observator.Common.{
  ltb, ◌==◌, if◌then◌else◌, length, any, keep, ◌+++◌, nat_eq, string_eq, ℕ, ◌/◌, String, Bool, true,
  false, not, ◌&&◌, Option, none, some, List, [], ◌∷◌, map,
}
use reachable_web_observator.Js.Number.{show, Number, whole, number_eq}
use reachable_web_observator.Api.Query.{show_sort}
use reachable_web_observator.Api.Types.{Tile}
use reachable_web_observator.Search.Filters.{Filters, is_active}
use reachable_web_observator.Search.Grouping.{TileGroup, group_search_tiles}
use reachable_web_observator.Search.State.{State}

-- `windowLabel`; the offered windows are whole days.
unfoldable pub window_label : Option ℕ → String
unfolding show
window_label none = ""
window_label (some hours) =
    if hours == 0
    then "all retained observations"
    else if hours == 1
    then "last hour"
    else if hours == 24
    then "last 24 hours"
    else "last " +++ show (hours / 24) +++ " days"

-- The five panels, of which one is shown.
pub data Panel : Type 0 where
  introduction failed searching no_match results : Panel

unfoldable pub panel : State → Panel
panel s =
    if not (is_active s.filters)
    then introduction
    else if s.error && length s.tiles == 0
    then failed
    else if s.loading && s.page == 0
    then searching
    else if length s.tiles == 0 && s.touched
    then no_match
    else results

-- What stands under the results.
pub data Footer : Type 0 where
  scanning try_again more end_of_results nothing : Footer

unfoldable pub footer : State → Footer
footer s =
    if s.loading
    then scanning
    else if s.error
    then try_again
    else if s.has_more
    then more
    else if ltb 0 (length s.tiles)
    then end_of_results
    else nothing

-- The line over the results; `number` is the locale's form of a number.
unfoldable pub count_line : (ℕ → String) → State → String
unfolding show_sort
count_line number s =
    number s.total
    +++ " matching "
    +++ (if s.total == 1 then "service observation" else "service observations")
    +++ " across "
    +++ number s.total_hosts
    +++ (if s.total_hosts == 1 then " host" else " hosts")
    +++ " · sorted by "
    +++ show_sort s.filters.sort

unfoldable pub grouped_tiles : State → List TileGroup
unfolding group_search_tiles
grouped_tiles s = group_search_tiles s.tiles s.filters.group_hosts

-- The chips of the status filter, and which of them is on.
abbrev pub statuses : List (String × Option ℕ)
statuses =
    ("any", none)
    ∷ ("200", some 200)
    ∷ ("301", some 301)
    ∷ ("403", some 403)
    ∷ ("404", some 404)
    ∷ ("500", some 500)
    ∷ []

abbrev pub is_status : Option Number → Option ℕ → Bool
is_status none none = true
is_status (some n) (some code) = number_eq n (whole code)
is_status _ _ = false

unfoldable pub pressed_statuses : Filters → List String
pressed_statuses f = map (λ chip. chip.0) (keep (λ chip. is_status f.status chip.1) statuses)
