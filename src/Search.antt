-- ===== src/Search.antt =====
-- vibescan-ui/src/pages/Search.tsx and lib/searchGrouping.ts: the search page. `Filters` has the
-- query that the user builds and its deep link, `State` the component's state and handlers,
-- `Grouping` the grouping of results by host, `View` what is shown.
pub mod Grouping
pub mod Filters
pub mod State
pub mod View
