-- ===== src/Stats/Csv.antt =====
-- `downloadStatsTables`: the tables of the page as comma-separated values.
pub mod Laws
use Prim.Native.Char.{Char, code}
use Prim.Native.String
use reachable_web_observator.Common.{
  ◌==◌, if◌then◌else◌, or_else, ◌+++◌, join, nat_eq, string_eq, String, Option, none, some, List,
  [], ◌∷◌, ◌++◌, map,
}
use reachable_web_observator.Js.Number.{show}
use reachable_web_observator.Api.Types.{Counts, Coverage, Stats}

-- `cell.replaceAll('"', '""')`
unfoldable pub double_quotes : String → String
double_quotes String.[] = ""
double_quotes (String.◌∷◌ c s) =
    let rest = double_quotes s in
    if code c == b'"' then String.◌∷◌ c (String.◌∷◌ c rest) else String.◌∷◌ c rest

abbrev pub quote : String → String
quote cell = "\"" +++ double_quotes cell +++ "\""

unfoldable pub csv_row : List String → String
unfolding double_quotes
csv_row cells = join "," (map quote cells)

unfoldable pub csv : List (List String) → String
unfolding csv_row
csv rows = join "\n" (map csv_row rows)

abbrev pub table_rows : String → Counts → List (List String)
table_rows table values = map (λ entry. table ∷ entry.0 ∷ show entry.1 ∷ []) values

abbrev pub coverage_counts : Option Coverage → Counts
coverage_counts none =
    ("network_attributed", 0) ∷ ("geolocated", 0) ∷ ("reputation_assessed", 0) ∷ []
coverage_counts (some c) =
    ("network_attributed", c.network_attributed)
    ∷ ("geolocated", c.geolocated)
    ∷ ("reputation_assessed", c.reputation_assessed)
    ∷ []

unfoldable pub stats_rows : Stats → List (List String)
unfolding show
stats_rows s =
    ("table" ∷ "label" ∷ "value" ∷ []) ∷ table_rows "services_by_port" s.services_by_port
    ++ table_rows "status_code_counts" s.status_code_counts
    ++ table_rows "secure_capture_counts" s.secure_capture_counts
    ++ table_rows "products" s.top_banners
    ++ table_rows "host_associated_cves" s.top_cves
    ++ table_rows "services_by_country" s.services_by_country
    ++ table_rows "provider_verdicts" s.verdicts
    ++ table_rows "hosts_by_network" (or_else s.hosts_by_network [])
    ++ table_rows "flagged_hosts_by_network" (or_else s.flagged_hosts_by_network [])
    ++ table_rows "hosts_by_organization" (or_else s.hosts_by_organization [])
    ++ table_rows "coverage" (coverage_counts s.coverage)

unfoldable pub stats_csv : Stats → String
unfolding stats_rows csv
stats_csv s = csv (stats_rows s)
