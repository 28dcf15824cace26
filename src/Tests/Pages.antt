-- ===== src/Tests/Pages.antt =====
-- The other pages at concrete inputs.
use reachable_web_observator.Common.{
  ◌+++◌, trim, nat_eq, string_eq, ℕ, String, ◌≡◌, refl, ◌⊎◌, true, false, none, some, List, [], ◌∷◌,
  arith,
}
use reachable_web_observator.Js.Number.Decimal.{decimal_reader}
use reachable_web_observator.Js.Map.{contains}
use reachable_web_observator.Api.Types.{at_risk, cleartext}
use reachable_web_observator.Api.Threat.{Otx}
use reachable_web_observator.Search.Filters.{seed}
use reachable_web_observator.Feed.State as Feed
use reachable_web_observator.Feed.State.Laws as FeedLaws
use reachable_web_observator.ObservationMap.State as Map
use reachable_web_observator.ObservationMap.State.Laws as MapLaws
use reachable_web_observator.Stats.Window as Window
use reachable_web_observator.Stats.Window.Laws as WindowLaws
use reachable_web_observator.Stats.Rates.{network_rates}
use reachable_web_observator.Stats.Rates.Laws.{IsRateRanking, network_rates-IsRateRanking}
use reachable_web_observator.Stats.Links.{port_link, text_link, network_link, verdict_link}
use reachable_web_observator.Stats.Links.Laws.{only, seed-links}
use reachable_web_observator.Stats.Csv.{double_quotes}
use reachable_web_observator.Stats.Csv.Laws.{read_quoted, read_quoted-double_quotes}
use reachable_web_observator.MapExplorer.{mode_of, hours_of, update, valid_windows}
use reachable_web_observator.MapExplorer.Laws.{read-update}
use reachable_web_observator.ExternalHost.{destination}
use reachable_web_observator.ExternalHost.Laws.{IsSafe, destination-IsSafe}
use reachable_web_observator.Tests.{tiles, answer_of, entry, map_answer, flat_locale}

abbrev feed_events : List Feed.Event
feed_events = Feed.resolve 0 (answer_of tiles) ∷ Feed.load_more ∷ Feed.set_mode Feed.latest ∷ []

feed-IsValid_example : FeedLaws.IsValid (Feed.run Feed.mount feed_events)
feed-IsValid_example = FeedLaws.feed-IsValid feed_events

abbrev embedded : Map.Props
embedded = record { full = false; mode = none; hours = none }

abbrev map_events : List Map.Event
map_events =
    Map.resolve 0 map_answer
    ∷ Map.select (entry "203.0.113.2" false)
    ∷ Map.toggle_http
    ∷ Map.choose_mode cleartext
    ∷ []

map-IsValid_example : MapLaws.IsValid (Map.run (Map.mount embedded) map_events)
map-IsValid_example = MapLaws.map-IsValid embedded map_events

abbrev window_events : List Window.Event
window_events = Window.set_hours 168 ∷ Window.reject 2 ∷ Window.retry ∷ []

window-IsValid_example : WindowLaws.IsValid (Window.run Window.mount window_events)
window-IsValid_example = WindowLaws.window-IsValid window_events

abbrev hosts : List (String × ℕ)
hosts = ("EXAMPLE-NET", 40) ∷ ("TEST-NET", 8) ∷ ("TINY-NET", 1) ∷ []

abbrev flagged_hosts : List (String × ℕ)
flagged_hosts = ("TEST-NET", 4) ∷ ("EXAMPLE-NET", 10) ∷ []

network_rates-IsRateRanking_example :
    IsRateRanking flagged_hosts hosts 5 (network_rates flat_locale flagged_hosts hosts 5)
network_rates-IsRateRanking_example = network_rates-IsRateRanking flat_locale flagged_hosts hosts 5

seed-links_example :
    (seed decimal_reader (port_link 168 "443") ≡ record (only 168 false) { port = "443" })
    × (seed decimal_reader (text_link 168 "443")
        ≡ record (only 168 false) { q = "443"; debounced = trim "443" })
    × (seed decimal_reader (network_link 168 "443")
        ≡ record (only 168 true) { network = trim "443" })
    × (seed decimal_reader (verdict_link 168 "443") ≡ record (only 168 false) { verdict = "443" })
seed-links_example = seed-links decimal_reader 168 "443" (omega arith)

read_quoted-double_quotes_example :
    read_quoted false (double_quotes "say \"hi\", twice" +++ ("\"" +++ ",80"))
    ≡ some ("say \"hi\", twice", ",80")
read_quoted-double_quotes_example = read_quoted-double_quotes "say \"hi\", twice" ",80" refl

offered : contains valid_windows 168 ≡ true
unfolding contains
offered = refl

read-update_example :
    (mode_of (update at_risk 168) ≡ at_risk) × (hours_of decimal_reader (update at_risk 168) ≡ 168)
read-update_example = read-update decimal_reader at_risk 168 offered

destination-IsSafe_example :
    (destination decimal_reader "203.0.113.7" "8080" [] ≡ "")
    ⊎ IsSafe "203.0.113.7" (destination decimal_reader "203.0.113.7" "8080" [])
destination-IsSafe_example = destination-IsSafe decimal_reader "203.0.113.7" "8080" []

abbrev otx : Otx
otx = record {
  pulse_count = 9;
  unique_pulse_count = some 2;
  pulse_names = some ("Scanner  IPs" ∷ "scannerips" ∷ "Botnet" ∷ []);
}
