-- ===== src/Api/Threat.antt =====
-- The wire format of the host enrichment in api.ts: what each provider reported.
use reachable_web_observator.Common.{nat_eq, string_eq, ℕ, String, Bool, Option, List}

pub record IpApi : Type 0 where
  pub country : Option String
  pub region : Option String
  pub city : Option String
  pub isp : Option String
  pub org : Option String
  pub asn : Option String

pub record Bgp : Type 0 where
  pub asn : Option ℕ
  pub asn_name : Option String
  pub asn_description : Option String
  pub rir : Option String
  pub prefixes : Option (List String)

pub record AbuseIpDb : Type 0 where
  pub abuse_confidence : ℕ
  pub total_reports : ℕ
  pub country : Option String
  pub domain : Option String
  pub isp : Option String
  pub usage_type : Option String
  pub last_reported_at : Option String
  pub is_tor : Bool
  pub is_whitelisted : Bool

pub record VirusTotal : Type 0 where
  pub malicious : ℕ
  pub suspicious : ℕ
  pub harmless : ℕ
  pub undetected : ℕ
  pub last_analysis_date : Option String

pub record GreyNoise : Type 0 where
  pub noise : Bool
  pub riot : Bool
  pub classification : Option String
  pub name : Option String
  pub last_seen : Option String

pub record Otx : Type 0 where
  pub pulse_count : ℕ
  pub unique_pulse_count : Option ℕ
  pub pulse_names : Option (List String)

pub record Ioc : Type 0 where
  pub ioc : String
  pub threat_type : Option String
  pub malware : Option String
  pub confidence_level : ℕ
  pub first_seen : Option String
  pub last_seen : Option String

pub record ThreatFox : Type 0 where
  pub ioc_count : ℕ
  pub iocs : Option (List Ioc)

pub record Ipqs : Type 0 where
  pub fraud_score : ℕ
  pub proxy : Bool
  pub vpn : Bool
  pub tor : Bool
  pub bot_status : Bool
  pub recent_abuse : Bool
  pub abuse_velocity : Option String
  pub isp : Option String
  pub country_code : Option String

pub record Pulsedive : Type 0 where
  pub risk : Option String
  pub last_seen : Option String
  pub threats : Option (List String)
  pub feeds : Option (List String)

pub record IpInfo : Type 0 where
  pub hostname : Option String
  pub city : Option String
  pub region : Option String
  pub country : Option String
  pub org : Option String
  pub timezone : Option String
  pub is_vpn : Bool
  pub is_proxy : Bool
  pub is_tor : Bool
  pub is_hosting : Bool

pub record ThreatIntel : Type 0 where
  pub ipapi : Option IpApi
  pub bgp : Option Bgp
  pub abuseipdb : Option AbuseIpDb
  pub virustotal : Option VirusTotal
  pub greynoise : Option GreyNoise
  pub otx : Option Otx
  pub threatfox : Option ThreatFox
  pub ipqs : Option Ipqs
  pub pulsedive : Option Pulsedive
  pub ipinfo : Option IpInfo

-- The lists that the page reads with `?.length` may be missing.
pub record Enrichment : Type 0 where
  pub ip : String
  pub ports : Option (List ℕ)
  pub vulns : Option (List String)
  pub tags : Option (List String)
  pub hostnames : Option (List String)
  pub cpes : Option (List String)
  pub org : Option String
  pub isp : Option String
  pub asn : Option String
  pub country : Option String
  pub city : Option String
  pub products : Option (List String)
  pub last_seen : Option String
  pub sources : Option (List String)
  pub fetched_at : String
  pub verdict : Option String
  pub threat : Option ThreatIntel
