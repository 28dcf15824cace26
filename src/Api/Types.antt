-- ===== src/Api/Types.antt =====
-- The wire format of api.ts: one record for each interface, an optional or nullable field as an
-- `Option`, a string-keyed object as the list of its entries in `Object.entries` order.
use reachable_web_observator.Common.{nat_eq, string_eq, ℕ, String, Bool, Option, List}
use reachable_web_observator.Int.{ℤ}

-- `Record<string, number>`
abbrev pub Counts : Type 0
Counts = List (String × ℕ)

-- Latitude and longitude in millionths of a degree.
pub record Geo : Type 0 where
  pub ip : String
  pub lat : ℤ
  pub lon : ℤ
  pub city : String
  pub region : String
  pub country : String
  pub country_iso : String
  pub accuracy_radius_km : Option ℕ

pub record Tile : Type 0 where
  pub ip : String
  pub port : ℕ
  pub banner : String
  pub product : String
  pub product_version : Option String
  pub http_status : Option ℕ
  pub secured : Bool
  pub whois : String
  pub image_url : String
  pub thumb_url : Option String
  pub capture_hash : String
  pub capture_ext : String
  pub has_fulltext : Bool
  pub screenshot_phash : Option String
  pub dom_hash : Option String
  pub cert_cn : Option String
  pub updated_at : String
  pub geo : Option Geo
  pub vuln_count : Option ℕ
  pub tags : Option (List String)
  pub extra_ports : Option (List ℕ)
  pub verdict : Option String
  pub sources : Option (List String)
  pub enriched_at : Option String
  pub match_reason : Option String

pub record ListResponse : Type 0 where
  pub entries : List Tile
  pub has_more : Bool
  pub query : Option String
  pub total : Option ℕ
  pub total_hosts : Option ℕ

pub data MapMode : Type 0 where
  observations cleartext at_risk : MapMode

pub record MapEntry : Type 0 where
  pub ip : String
  pub port : ℕ
  pub product : String
  pub product_version : Option String
  pub http_status : Option ℕ
  pub secured : Bool
  pub network : Option String
  pub updated_at : String
  pub geo : Geo
  pub vuln_count : ℕ
  pub verdict : Option String

pub record MapResponse : Type 0 where
  pub entries : List MapEntry
  pub total_hosts : ℕ
  pub displayed_hosts : ℕ
  pub countries : Counts
  pub networks : Counts
  pub mode : MapMode
  pub time_range_hours : ℕ
  pub generated_at : String

pub record RandomCapture : Type 0 where
  pub image_url : String
  pub ip : String
  pub port : ℕ
  pub product_name : String
  pub whois : String

pub record SignalDetail : Type 0 where
  pub service : Tile
  pub fulltext : String
  pub favicon_hash : String
  pub submitted_by : String
  pub anon : Bool
  pub timestamp : Option String
  pub received_at : Option String

pub record Totals : Type 0 where
  pub hosts : ℕ
  pub services : ℕ

pub record Coverage : Type 0 where
  pub network_attributed : ℕ
  pub geolocated : ℕ
  pub reputation_assessed : ℕ

pub record FlaggedPoint : Type 0 where
  pub lat : ℤ
  pub lon : ℤ
  pub insecure : Bool

-- The fields that the page reads with `??` may be missing in an older server's answer.
pub record Stats : Type 0 where
  pub time_range_hours : ℕ
  pub totals : Totals
  pub services_by_port : Counts
  pub status_code_counts : Counts
  pub secure_capture_counts : Counts
  pub top_banners : Counts
  pub submissions_by_client : Counts
  pub submissions_over_time : Counts
  pub exposed_services : ℕ
  pub top_tags : Counts
  pub verdicts : Counts
  pub flagged_services : ℕ
  pub flagged_by_port : Counts
  pub flagged_by_product : Counts
  pub flagged_by_org : Counts
  pub flagged_by_country : Counts
  pub top_cves : Counts
  pub services_by_country : Counts
  pub total_by_org : Counts
  pub hosts_by_network : Option Counts
  pub flagged_hosts_by_network : Option Counts
  pub hosts_by_organization : Option Counts
  pub network_count : ℕ
  pub organization_count : ℕ
  pub coverage : Option Coverage
  pub flagged_points : Option (List FlaggedPoint)

pub record DailyRollup : Type 0 where
  pub date : String
  pub services : ℕ
  pub hosts : ℕ
  pub cleartext : ℕ
  pub secure : ℕ
  pub flagged : ℕ
  pub exposed : ℕ
  pub malicious : ℕ
  pub suspicious : ℕ
