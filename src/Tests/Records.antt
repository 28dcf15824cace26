-- ===== src/Tests/Records.antt =====
-- The record page, the console, the charts and the statistics at concrete inputs.
use reachable_web_observator.Common.{
  ltb, truthy, is_some, length, any, All, ◌+++◌, trim, nat_eq, string_eq, ℕ, ◌+◌, ◌≤◌, String, ◌≡◌,
  refl, ◌≢◌, ◌⊎◌, inr, true, false, ◌||◌, none, some, List, [], ◌∷◌, arith, str_eq,
}
use mathlib.Core.List.{Memᴰ}
use reachable_web_observator.Int.{ℤ, pos}
use reachable_web_observator.Js.Map.{lookup, upsert, contains}
use reachable_web_observator.Js.Number.{show}
use reachable_web_observator.Js.Number.Decimal.{decimal_reader}
use reachable_web_observator.Api.Types.{SignalDetail, Counts, MapEntry}
use reachable_web_observator.Api.Threat.{Enrichment}
use reachable_web_observator.Fetch as Fetch
use reachable_web_observator.Signal.Page as Page
use reachable_web_observator.Signal.Page.Laws.{panel-observation}
use reachable_web_observator.Signal.Record.{metadata, location, on_map}
use reachable_web_observator.CrossReference.Rows.{
  Rows, has_exposure, exposure_rows, reputation_rows, flags, text_of,
}
use reachable_web_observator.CrossReference.Rows.Laws.{speaks}
use reachable_web_observator.CrossReference.Associations.{has_feeds, feed_rows, has_net, net_rows}
use reachable_web_observator.Signal.Record.Laws.{coordinates_hidden}
use reachable_web_observator.CrossReference.Cves.{cve_groups}
use reachable_web_observator.CrossReference.Cves.Laws.{IsGrouped, cve_groups-IsGrouped}
use reachable_web_observator.CrossReference.Panel as Panel
use reachable_web_observator.CrossReference.Panel.Laws.{panel-sections}
use reachable_web_observator.CrossReference.Panel.Sections.{is_filled, headings-rows}
use reachable_web_observator.Console as Console
use reachable_web_observator.Console.Settling.{IsSettled, serve, acquisition_settles}
use reachable_web_observator.Console.Drawn.{run-screen}
use reachable_web_observator.Viewport.{screen, message}
use reachable_web_observator.WorldLand as WorldLand
use reachable_web_observator.WorldLand.Laws.{atlas_kept}
use reachable_web_observator.TimeSeries.{points}
use reachable_web_observator.ObservationMap.State as Map
use reachable_web_observator.ObservationMap.Sidebar.{sidebar, details, overlapping}
use reachable_web_observator.ObservationMap.Sidebar.Laws.{sidebar-shown}
use reachable_web_observator.Search.Filters.{seed}
use reachable_web_observator.Stats.Window.{network_hosts}
use reachable_web_observator.Stats.Links.{network_link}
use reachable_web_observator.Stats.Links.Laws.{only}
use reachable_web_observator.Stats.Snapshot.{first_of, highlights}
use reachable_web_observator.Stats.Snapshot.Laws.{highlights-network}
use reachable_web_observator.Stats.Bars.{rows_of}
use reachable_web_observator.Stats.Bars.Laws.{IsDrawn}
use reachable_web_observator.Stats.Panels.{bar_panels, network_rate_lines}
use reachable_web_observator.Stats.Panels.Laws.{
  bar_panels-AreDrawn, IsLinked, IsNetworkLink, bar_panels-AreLinked,
}
use reachable_web_observator.Tests.{
  tile, entry, map_answer, flat_locale, record_of, stats, enrichment,
}

abbrev address : Page.Address
address = ("203.0.113.1", "443")

abbrev page_events : List (Fetch.Event Page.Address)
page_events = Fetch.set_key ("203.0.113.2", "80") ∷ Fetch.resolve 0 ∷ Fetch.resolve 1 ∷ []

abbrev detail_at : ℕ → Page.Address → SignalDetail
detail_at n asked = record_of (tile asked.0 80)

panel-observation_example :
    let s = Page.session detail_at (Page.open_page detail_at address) page_events in
    ((d : SignalDetail) → Page.panel s ≡ Page.observation d → (id : ℕ) × (d ≡ detail_at id s.key))
    × ((flight : Fetch.Flight Page.Address) × (s.live ≡ some flight)
        × (flight.key ≡ s.key)
        × (Page.panel (Page.session detail_at s (Fetch.resolve flight.id ∷ []))
            ≡ Page.observation (detail_at flight.id s.key))
        × (Page.panel (Page.session detail_at s (Fetch.reject flight.id ∷ [])) ≡ Page.not_found))
panel-observation_example = panel-observation detail_at address page_events

abbrev unplaced : SignalDetail
unplaced = record_of (record (tile "203.0.113.1" 443) {
  geo = some (record (entry "203.0.113.1" true).geo { lat = pos 0; lon = pos 0 });
})

coordinates_hidden_example :
    (any (λ r. str_eq r.0 "Coord") (metadata (λ z. "0.0000") show unplaced) ≡ false)
    × ((lat lon : ℤ) (rows : Rows)
        → location (λ z. "0.0000") show unplaced.service ≢ on_map lat lon rows)
coordinates_hidden_example =
    coordinates_hidden (λ z. "0.0000") show unplaced (inr (inr (refl, refl)))

cve_groups-IsGrouped_example :
    IsGrouped flat_locale
      ("CVE-2021-44228" ∷ "CVE-2019-0708" ∷ [])
      (cve_groups flat_locale ("CVE-2021-44228" ∷ "CVE-2019-0708" ∷ []))
cve_groups-IsGrouped_example =
    cve_groups-IsGrouped flat_locale ("CVE-2021-44228" ∷ "CVE-2019-0708" ∷ [])

abbrev enriched : ℕ → String → Enrichment
enriched n ip = record enrichment { ip = ip }

abbrev xref_events : List (Fetch.Event String)
xref_events = Fetch.resolve 0 ∷ []

xref_shown :
    Panel.panel (Panel.session enriched (Panel.open_section enriched "203.0.113.1") xref_events)
    ≡ Panel.sections enrichment
unfolding Panel.panel Panel.session Panel.open_section Panel.has_data has_exposure Fetch.run
    Fetch.step Fetch.mount Fetch.commit Fetch.handle Fetch.fetch_effect Fetch.alive Fetch.resolved
    lookup
xref_shown = refl

panel-sections_example :
    ((id : ℕ) × (enrichment ≡ enriched id "203.0.113.1"))
    × (truthy (text_of enrichment.verdict) || ltb 0 (length (Panel.headings enrichment)) ≡ true)
unfolding Panel.session Panel.open_section Fetch.run Fetch.step Fetch.mount Fetch.commit
    Fetch.handle Fetch.fetch_effect Fetch.alive Fetch.resolved lookup
panel-sections_example = panel-sections enriched "203.0.113.1" xref_events enrichment xref_shown

headings-rows_example :
    (has_exposure enrichment ≡ is_filled (exposure_rows enrichment))
    × (has_feeds enrichment.threat ≡ is_filled (feed_rows show (λ s. s) (λ s. s) enrichment.threat))
    × (has_net enrichment ≡ true → is_filled (net_rows none enrichment) ≡ true)
    × (is_filled (reputation_rows (λ s. s) enrichment.threat)
        ≡ (ltb 0 (length (flags enrichment.threat)) || speaks enrichment.threat))
headings-rows_example = headings-rows show (λ s. s) (λ s. s) none enrichment

abbrev no_answer : Console.Stage → Console.Reply
no_answer stage = Console.failure

first_acquisition : lookup 0 (Console.run Console.mount []).pending ≡ some Console.random_capture
unfolding Console.run Console.mount Console.acquire upsert lookup
first_acquisition = refl

acquisition_settles_example : IsSettled 0 (serve 3 no_answer 0 (Console.run Console.mount []))
acquisition_settles_example =
    acquisition_settles [] no_answer 0 Console.random_capture (λ at. tt) first_acquisition

abbrev drawn : Console.State
drawn = record Console.mount { detail = some (record_of (tile "203.0.113.1" 443)) }

run-screen_example :
    let t = Console.run drawn (Console.reply 0 Console.failure ∷ []) in
    (is_some t.detail ≡ true)
    × (screen "" t.detail t.loading (Console.viewport_error t)
        ≢ message "COULDN'T REACH THE COLLECTOR")
run-screen_example = run-screen "" (Console.reply 0 Console.failure ∷ []) drawn refl

abbrev atlas_events : List WorldLand.Event
atlas_events = WorldLand.load ∷ WorldLand.load ∷ WorldLand.failed 0 ∷ WorldLand.load ∷ []

atlas_asked : contains (WorldLand.run WorldLand.start atlas_events).unsettled 1 ≡ true
unfolding WorldLand.run WorldLand.step WorldLand.load_land WorldLand.without contains
atlas_asked = refl

atlas_kept_example :
    let s = WorldLand.run WorldLand.start atlas_events in
    let loaded = WorldLand.step (WorldLand.parsed 1) s in
    (s.promise ≡ some 1)
    × (s.unsettled ≡ 1 ∷ [])
    × (WorldLand.run loaded (WorldLand.load ∷ []) ≡ loaded)
    × (WorldLand.load_land (WorldLand.run loaded (WorldLand.load ∷ [])) ≡ (loaded, 1))
    × ((WorldLand.load_land (WorldLand.step (WorldLand.failed 1) s)).1 ≡ s.next)
    × ((WorldLand.load_land (WorldLand.step (WorldLand.failed 1) s)).0.next ≡ s.next + 1)
atlas_kept_example = atlas_kept atlas_events (WorldLand.load ∷ []) 1 atlas_asked

abbrev series : Counts
series = ("2026-07-01", 3) ∷ ("2026-07-02", 1) ∷ []

abbrev embedded : Map.Props
embedded = record { full = false; mode = none; hours = none }

abbrev map_events : List Map.Event
map_events = Map.resolve 0 map_answer ∷ Map.select (entry "203.0.113.2" false) ∷ []

sidebar-shown_example :
    let s = Map.run (Map.mount embedded) map_events in
    ((p : MapEntry) → sidebar flat_locale s ≡ details p → Map.shown (Map.visible_points s) p ≡ true)
    × ((points : List MapEntry)
        → sidebar flat_locale s ≡ overlapping points
        → (2 ≤ length points) × All (λ p. Map.shown (Map.visible_points s) p ≡ true) points)
sidebar-shown_example = sidebar-shown flat_locale embedded map_events

some_networks : network_hosts stats ≡ ("EXAMPLE-NET", 2) ∷ ("OTHER-NET", 1) ∷ []
unfolding network_hosts
some_networks = refl

highlights-network_example :
    (label : String) × (count : ℕ) × Memᴰ (label, count) (network_hosts stats)
    × All (λ entry. entry.1 ≤ count) (network_hosts stats)
    × (first_of (highlights flat_locale show stats [])
        ≡ some (record {
          heading = "Largest observed network";
          value = label;
          note = show count +++ " distinct hosts";
          link = some (network_link 24 label);
        }))
    × (seed decimal_reader (network_link 24 label) ≡ record (only 24 true) { network = trim label })
highlights-network_example =
    highlights-network flat_locale show decimal_reader stats [] ("EXAMPLE-NET", 2)
      (("OTHER-NET", 1) ∷ []) (omega arith) some_networks

bar_panels-AreDrawn_example :
    All (λ panel. All IsDrawn (rows_of panel.1)) (bar_panels flat_locale true stats)
bar_panels-AreDrawn_example = bar_panels-AreDrawn flat_locale true stats

bar_panels-AreLinked_example :
    All
      (λ panel.
        (panel.0 ≡ "Response status") ⊎ All (IsLinked decimal_reader 24 panel.0) (rows_of panel.1))
      (bar_panels flat_locale false stats)
    × All (IsNetworkLink decimal_reader 24) (network_rate_lines flat_locale 24 stats)
bar_panels-AreLinked_example =
    bar_panels-AreLinked flat_locale false decimal_reader 24 stats (omega arith)
