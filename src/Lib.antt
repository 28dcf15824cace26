-- ===== src/Lib.antt =====
-- Verification of the web client of the Reachable Web Observatory (vibescan-ui).
--
-- The client is a single-page application over the read API of the collector. Its pages keep their
-- state in React hooks, fetch through one client module, and pass queries to each other as URL
-- parameters: the statistics page links into the search page, the map page keeps its layer and
-- window in the URL, and the search page keeps its whole query there.
--
-- How the files correspond to the code (paths below vibescan-ui/src):
--   Api: api.ts. `Types` and `Threat` are its interfaces, `Url` apiURL and imageURL, `Query`
--     searchQuery, `Client` the function get with ApiError and isOffline, `Endpoints` the paths of
--     the calls, `Cache` statsCache with api.stats.
--   Search: pages/Search.tsx and lib/searchGrouping.ts. `Filters` is the query with its deep link and
--     its request, `State` the state with its handlers, `State.Steps` the effects, `State.Same` the
--     comparison of their dependencies, `Grouping` groupSearchTiles, `View` the panels. `State.Paging`
--     has no code of its own: it is what the pages of results promise, as sessions and answers.
--   Feed: pages/Feed.tsx, with `Grouping` for its groups and `State` for its state and effects.
--   ObservationMap: components/ObservationMap.tsx. `Points` has its filters and labels, `State` its
--     state, handlers and effects, `Sidebar` what stands around the points.
--   InteractiveWorldMap: components/InteractiveWorldMap.tsx. `Clusters` gathers the markers, `View`
--     is zooming, panning and what a marker does, `Labels` its texts.
--   MapExplorer, ExternalHost: the pages of these names. Time: lib/time.ts.
--   Stats: pages/Stats.tsx. `Rates` computes and ranks, `Window` is the state with its effects,
--     `Csv` the export, `Links` the links into the search page, `Snapshot` the highlights and the
--     tiles, `Bars` the rows of the panels under the tiles, and `Panels` these panels.
--   CrossReference: components/CrossReference.tsx. `Otx` is the summary of community titles, `Rows` the
--     sections of exposure and reputation, `Associations` those of feeds and network, `Cves` CVEGroups,
--     `Panel` the fetch and what the section shows.
--   Fetch: the fetch effect that pages/Signal.tsx and components/CrossReference.tsx share in text.
--   Signal: pages/Signal.tsx. `Page` is its fetch and its panel, `Record` what it shows of a record,
--     `Clipboard` the note of its copy button.
--   Console, Viewport: pages/Console.tsx and components/Viewport.tsx.
--   TimeSeries, TopBar: the components of these names. WorldLand: lib/worldLand.ts.
--   WorldMap: components/WorldMap.tsx with the points that pages/Stats.tsx gives it.
--   SignalCard: components/SignalCard.tsx and components/StatusBadge.tsx.
--   Metadata: lib/meta.ts, and the escaping of ../scripts/prerender.mjs.
--   Prerender: ../scripts/prerender.mjs and entry-server.tsx. `Document` is the replacement of a text
--     or a pattern, `Head` replaceMeta.
--   Js: what the code uses of the platform: insertion-ordered maps, stable sorting, URLSearchParams,
--     grouping loops, rankings, decimal numbers. Common: shared names and lemmas. Int: integers.
--   Tests: the theorems at concrete inputs.
--
-- A component is a record of its state variables, and an event is a handler or the settling of a
-- request. A step runs the handler and then the effects whose dependencies it changed, in the order
-- of their declarations. An effect's closure is a flight with an id; it is alive as long as it is the
-- one that the state names, as the flag of the code is until the cleanup runs. `setPage(0)` inside
-- an effect takes effect in a further render, whose effects run in the same step.
--
-- Parameters stand for the platform: the reader of numbers (`Reader`, with the law that it reads
-- back what was printed), the locale's order (`Locale`), the date parser, lower-casing, slices of a
-- text by code units, the projection of the map, and floating-point numbers (`Float`, with the laws
-- of IEEE 754 that the map relies on in `Order`). Quotients that the code rounds are taken exactly. Instants are
-- natural numbers of milliseconds, coordinates integers in millionths of a degree. Printing a number
-- has one round of fuel for each digit, and `decimal-show` shows that it is enough.
--
-- An acquisition of the console is served by at most three replies, which is the bound that `serve`
-- is run with. What React renders of the application, and the format of JSON, are parameters of the
-- build; the files of the build are values, in the order in which they are written.
--
-- Not modelled: markup and styles, the pages of static text, the shell with its route table, the
-- collector and the agents in Go, the drawing of charts and of the globe, the clock of the navigation
-- bar, and the contents of the downloads.
pub mod Common
pub mod Js
pub mod Int
pub mod Api
pub mod Search
pub mod Time
pub mod ObservationMap
pub mod Feed
pub mod Fetch
pub mod Signal
pub mod Viewport
pub mod Console
pub mod WorldLand
pub mod WorldMap
pub mod TopBar
pub mod TimeSeries
pub mod MapExplorer
pub mod ExternalHost
pub mod Stats
pub mod InteractiveWorldMap
pub mod CrossReference
pub mod SignalCard
pub mod Metadata
pub mod Prerender
pub mod Tests
