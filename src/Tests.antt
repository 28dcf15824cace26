-- ===== src/Tests.antt =====
-- The theorems at concrete inputs, and the data of these tests.
mod Search
mod Paging
mod Records
mod Build
mod Pages
mod Client
use reachable_web_observator.Common.{
  ◌==◌, nat_eq, string_eq, ℕ, String, refl, Bool, true, false, none, some, List, [], ◌∷◌,
}
use reachable_web_observator.Int.{ℤ, pos}
use reachable_web_observator.Api.Types.{
  Tile, MapEntry, Geo, MapResponse, ListResponse, observations, SignalDetail, Stats,
}
use reachable_web_observator.Api.Threat.{Enrichment}
use reachable_web_observator.Js.Ranking.{Locale}

-- A service of the host `ip`.
abbrev pub tile : String → ℕ → Tile
tile ip port = record {
  ip = ip;
  port = port;
  banner = "";
  product = "nginx";
  product_version = none;
  http_status = some 200;
  secured = port == 443;
  whois = "";
  image_url = "/captures/a.png";
  thumb_url = none;
  capture_hash = "a1";
  capture_ext = "png";
  has_fulltext = false;
  screenshot_phash = none;
  dom_hash = none;
  cert_cn = none;
  updated_at = "2026-07-25T00:00:00Z";
  geo = none;
  vuln_count = some 2;
  tags = none;
  extra_ports = none;
  verdict = some "suspicious";
  sources = some ("Shodan" ∷ []);
  enriched_at = none;
  match_reason = none;
}

abbrev pub tiles : List Tile
tiles = tile "203.0.113.1" 443 ∷ tile "203.0.113.2" 80 ∷ tile "203.0.113.1" 80 ∷ []

abbrev pub answer_of : List Tile → ListResponse
answer_of entries = record {
  entries = entries;
  has_more = true;
  query = none;
  total = some 40;
  total_hosts = none;
}

abbrev pub entry : String → Bool → MapEntry
entry ip secured = record {
  ip = ip;
  port = 80;
  product = "";
  product_version = none;
  http_status = none;
  secured = secured;
  network = some "EXAMPLE-NET";
  updated_at = "";
  geo = record {
    ip = ip;
    lat = pos 31200000;
    lon = pos 121500000;
    city = "Shanghai";
    region = "";
    country = "China";
    country_iso = "CN";
    accuracy_radius_km = none;
  };
  vuln_count = 0;
  verdict = none;
}

abbrev pub map_answer : MapResponse
map_answer = record {
  entries = entry "203.0.113.1" true ∷ entry "203.0.113.2" false ∷ entry "203.0.113.3" false ∷ [];
  total_hosts = 3;
  displayed_hosts = 3;
  countries = ("CN", 3) ∷ [];
  networks = ("EXAMPLE-NET", 3) ∷ [];
  mode = observations;
  time_range_hours = 24;
  generated_at = "";
}

-- An order that tells no two labels apart.
abbrev pub flat_locale : Locale
flat_locale = record { lt = λ a b. false; lt_asym = λ a b h. refl; lt_trans = λ a b c h k. refl }

abbrev pub record_of : Tile → SignalDetail
record_of t = record {
  service = t;
  fulltext = "";
  favicon_hash = "";
  submitted_by = "0.0.0.0";
  anon = true;
  timestamp = none;
  received_at = none;
}

abbrev pub stats : Stats
stats = record {
  time_range_hours = 24;
  totals = record { hosts = 3; services = 4 };
  services_by_port = ("80", 3) ∷ ("443", 1) ∷ [];
  status_code_counts = ("200", 4) ∷ [];
  secure_capture_counts = ("secured", 1) ∷ ("insecure", 3) ∷ [];
  top_banners = [];
  submissions_by_client = [];
  submissions_over_time = [];
  exposed_services = 0;
  top_tags = [];
  verdicts = [];
  flagged_services = 1;
  flagged_by_port = [];
  flagged_by_product = [];
  flagged_by_org = [];
  flagged_by_country = [];
  top_cves = [];
  services_by_country = [];
  total_by_org = [];
  hosts_by_network = some (("EXAMPLE-NET", 2) ∷ ("OTHER-NET", 1) ∷ []);
  flagged_hosts_by_network = none;
  hosts_by_organization = none;
  network_count = 2;
  organization_count = 0;
  coverage = none;
  flagged_points = none;
}

abbrev pub enrichment : Enrichment
enrichment = record {
  ip = "203.0.113.1";
  ports = some (80 ∷ 443 ∷ []);
  vulns = some ("CVE-2021-44228" ∷ "CVE-2019-0708" ∷ []);
  tags = none;
  hostnames = some ("host.example" ∷ []);
  cpes = none;
  org = none;
  isp = none;
  asn = none;
  country = none;
  city = none;
  products = some [];
  last_seen = none;
  sources = none;
  fetched_at = "";
  verdict = none;
  threat = none;
}
