-- ===== src/Stats/Links/Laws.antt =====
-- A link of the statistics page opens the search page with the same filter and the same window.
use reachable_web_observator.Common.{
  trim, nat_eq, string_eq, ℕ, ◌≤◌, String, ◌≡◌, refl, Bool, true, false, none, some,
}
use reachable_web_observator.Js.Number.{Reader, show, max_safe}
use reachable_web_observator.Common.Text.Laws.{trim-empty}
use reachable_web_observator.Js.Map.{lookup, upsert}
use reachable_web_observator.Api.Query.{newest}
use reachable_web_observator.Search.Filters.{
  Filters, any_protocol, seed, seed_time_range, seed_sec, seed_status, seed_sort,
}
use reachable_web_observator.Stats.Links.{
  search_params, port_link, text_link, network_link, verdict_link,
}

abbrev pub only : ℕ → Bool → Filters
only hours group_hosts = record {
  q = "";
  debounced = "";
  network = "";
  time_range = some hours;
  port = "";
  sec = any_protocol;
  status = none;
  has_vulns = false;
  verdict = "";
  sort = newest;
  group_hosts = group_hosts;
}

window_lem :
    (reader : Reader) (hours : ℕ)
    → hours ≤ max_safe
    → seed_time_range reader (some (show hours)) ≡ some hours
unfolding seed_time_range
window_lem reader hours h = rw (seed_time_range, reader.to_number-show hours h) refl

-- The links of a port, a text, a network and a verdict open the search page with that filter alone
-- (a text and a network without the white space around them), with the window of the statistics,
-- and a network's results grouped by host.
pub seed-links :
    (reader : Reader) (hours : ℕ) (value : String)
    → hours ≤ max_safe
    → (seed reader (port_link hours value) ≡ record (only hours false) { port = value })
      × (seed reader (text_link hours value)
          ≡ record (only hours false) { q = value; debounced = trim value })
      × (seed reader (network_link hours value) ≡ record (only hours true) { network = trim value })
      × (seed reader (verdict_link hours value) ≡ record (only hours false) { verdict = value })
unfolding seed port_link text_link network_link verdict_link search_params seed_sec seed_status
    seed_sort lookup upsert
seed-links reader hours value h = (
  rw (seed, window_lem reader hours h, trim-empty) refl,
  rw (seed, window_lem reader hours h, trim-empty) refl,
  rw (seed, window_lem reader hours h, trim-empty) refl,
  rw (seed, window_lem reader hours h, trim-empty) refl,
)
