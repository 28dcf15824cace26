-- ===== src/CrossReference/Rows.antt =====
-- The four sections of the component: when each is there, and its rows as labels and texts.
pub mod Laws
use reachable_web_observator.Common.{
  ltb, ◌==◌, if◌then◌else◌, truthy, is_some, or_else, length, keep, ◌+++◌, join, nat_eq, string_eq,
  ℕ, ◌/◌, ◌%◌, String, Bool, true, false, not, ◌&&◌, ◌||◌, Option, none, some, List, [], ◌∷◌, map,
  str_eq,
}
use reachable_web_observator.Js.Number.{show}
use reachable_web_observator.Api.Threat.{
  Enrichment, ThreatIntel, VirusTotal, AbuseIpDb, GreyNoise, Ipqs, Pulsedive, Ioc, Bgp, IpApi,
  IpInfo,
}

abbrev pub Rows : Type 0
Rows = List (String × String)

-- `parts.filter(Boolean).join(" · ")`
unfoldable pub joind : List String → String
joind parts = join " · " (keep truthy parts)

abbrev pub text_of : Option String → String
text_of o = or_else o ""

abbrev pub items_of {ℓ} : {A : Type ℓ} → Option (List A) → List A
items_of o = or_else o []

-- `a && text`
abbrev pub when : Bool → String → String
when b text = if b then text else ""

abbrev pub with_prefix : String → Option String → String
with_prefix start o = when (truthy (text_of o)) (start +++ text_of o)

-- `PORT_NAME`
unfoldable pub port_name : ℕ → String
port_name p =
    if p == 21
    then "ftp"
    else if p == 22
    then "ssh"
    else if p == 23
    then "telnet"
    else if p == 25
    then "smtp"
    else if p == 53
    then "dns"
    else if p == 80
    then "http"
    else if p == 110
    then "pop3"
    else if p == 143
    then "imap"
    else if p == 161
    then "snmp"
    else if p == 389
    then "ldap"
    else if p == 443
    then "https"
    else if p == 445
    then "smb"
    else if p == 465
    then "smtps"
    else if p == 587
    then "smtp"
    else if p == 993
    then "imaps"
    else if p == 995
    then "pop3s"
    else if p == 1433
    then "mssql"
    else if p == 1521
    then "oracle"
    else if p == 2049
    then "nfs"
    else if p == 3306
    then "mysql"
    else if p == 3389
    then "rdp"
    else if p == 5432
    then "postgres"
    else if p == 5900
    then "vnc"
    else if p == 6379
    then "redis"
    else if p == 8080
    then "http"
    else if p == 8443
    then "https"
    else if p == 9200
    then "elastic"
    else if p == 11211
    then "memcached"
    else if p == 27017
    then "mongodb"
    else ""

unfoldable pub verdict_label : String → String
verdict_label v =
    if str_eq v "malicious"
    then "Derived summary: multiple adverse signals"
    else if str_eq v "suspicious"
    then "Derived summary: limited adverse evidence"
    else "Derived summary: no adverse signals observed"

-- A flag of one of the two providers.
abbrev pub by_ipqs : (Ipqs → Bool) → Option ThreatIntel → Bool
by_ipqs f none = false
by_ipqs f (some t) = elim t.ipqs [ none ↦ false | some q ↦ f q ]

abbrev pub by_ipinfo : (IpInfo → Bool) → Option ThreatIntel → Bool
by_ipinfo f none = false
by_ipinfo f (some t) = elim t.ipinfo [ none ↦ false | some i ↦ f i ]

unfoldable pub flags : Option ThreatIntel → List String
flags t = keep truthy (
    when (by_ipqs (λ q. q.tor) t || by_ipinfo (λ i. i.is_tor) t) "tor"
    ∷ when (by_ipqs (λ q. q.vpn) t || by_ipinfo (λ i. i.is_vpn) t) "vpn"
    ∷ when (by_ipqs (λ q. q.proxy) t || by_ipinfo (λ i. i.is_proxy) t) "proxy"
    ∷ when (by_ipqs (λ q. q.bot_status) t) "bot"
    ∷ when (by_ipinfo (λ i. i.is_hosting) t) "hosting"
    ∷ when (by_ipqs (λ q. q.recent_abuse) t) "recent-abuse"
    ∷ [])

abbrev pub filled {ℓ} : {A : Type ℓ} → Option (List A) → Bool
filled o = ltb 0 (length (items_of o))

-- `hasExposure`
unfoldable pub has_exposure : Enrichment → Bool
has_exposure e =
    filled e.ports || filled e.vulns || filled e.cpes || filled e.products || filled e.tags

abbrev pub row : Bool → String → String → Rows → Rows
row b label text rest = if b then (label, text) ∷ rest else rest

abbrev pub port_chip : ℕ → String
port_chip p = show p +++ when (truthy (port_name p)) ("/" +++ port_name p)

unfoldable pub exposure_rows : Enrichment → Rows
unfolding show port_name
exposure_rows e = row (filled e.ports) "Open ports" (join " " (map port_chip (items_of e.ports))) (
    row (filled e.vulns) ("Host CVE records · " +++ show (length (items_of e.vulns)))
      (join " " (items_of e.vulns))
      (row (filled e.products) "Products" (join " · " (items_of e.products)) (
        row (filled e.cpes) "CPEs" (join " " (items_of e.cpes))
          (row (filled e.tags) "Tags" (join " " (items_of e.tags)) []))))

unfoldable pub virustotal_text : VirusTotal → String
unfolding show
virustotal_text v =
    show v.malicious
    +++ " malicious · "
    +++ show v.suspicious
    +++ " suspicious · "
    +++ show v.harmless
    +++ " harmless · "
    +++ show v.undetected
    +++ " undetected"
    +++ with_prefix " — last scan " v.last_analysis_date

-- A row of a provider that has reported something to show.
abbrev pub provider_row {ℓ} :
    {A : Type ℓ} → (A → Bool) → String → (A → String) → Option A → Rows → Rows
provider_row shown label text none rest = rest
provider_row shown label text (some a) rest = row (shown a) label (text a) rest

abbrev pub known_risk : Pulsedive → Bool
known_risk p = truthy (text_of p.risk) && not (str_eq (text_of p.risk) "unknown")

-- `s.slice(0, 10)` is a parameter here: the length of a text counts code units.
module _ (d10 : String → String) where
  abbrev pub dated : String → Option String → String
  dated start o = when (truthy (text_of o)) (start +++ d10 (text_of o))

  unfoldable pub abuseipdb_text : AbuseIpDb → String
  unfolding show joind
  abuseipdb_text a =
      show a.abuse_confidence
      +++ "% confidence · "
      +++ show a.total_reports
      +++ " reports"
      +++ when
          (truthy (text_of a.usage_type)
            || truthy (text_of a.domain)
            || truthy (text_of a.last_reported_at)
            || a.is_tor
            || a.is_whitelisted)
          (" — "
            +++ joind (
                text_of a.usage_type
                ∷ text_of a.domain
                ∷ dated "last reported " a.last_reported_at
                ∷ when a.is_tor "Tor"
                ∷ when a.is_whitelisted "whitelisted"
                ∷ []))

  unfoldable pub greynoise_text : GreyNoise → String
  unfolding joind
  greynoise_text g = joind (
      (if truthy (text_of g.classification) then text_of g.classification else "unknown")
      ∷ when g.noise "internet noise"
      ∷ when g.riot "benign infra"
      ∷ text_of g.name
      ∷ dated "last seen " g.last_seen
      ∷ [])

  unfoldable pub ipqs_text : Ipqs → String
  unfolding show joind
  ipqs_text q =
      let velocity =
        truthy (text_of q.abuse_velocity) && not (str_eq (text_of q.abuse_velocity) "none") in
      show q.fraud_score
      +++ "/100 fraud"
      +++ when (velocity || truthy (text_of q.country_code)) (
          " — "
          +++ joind (
              when velocity ("abuse velocity " +++ text_of q.abuse_velocity)
              ∷ text_of q.country_code
              ∷ []))

  unfoldable pub pulsedive_text : Pulsedive → String
  pulsedive_text p =
      text_of p.risk
      +++ when (filled p.threats) (" · threats: " +++ join ", " (items_of p.threats))
      +++ when (filled p.feeds) (" — feeds: " +++ join ", " (items_of p.feeds))
      +++ with_prefix " — last seen " p.last_seen

  unfoldable pub intel_rows : Option ThreatIntel → Rows
  unfolding virustotal_text abuseipdb_text greynoise_text ipqs_text pulsedive_text
  intel_rows none = []
  intel_rows (some t) =
      provider_row (λ _. true) "VirusTotal" virustotal_text t.virustotal
        (provider_row (λ _. true) "AbuseIPDB" abuseipdb_text t.abuseipdb
          (provider_row (λ _. true) "GreyNoise" greynoise_text t.greynoise
            (provider_row (λ _. true) "IPQualityScore" ipqs_text t.ipqs
              (provider_row known_risk "Pulsedive" pulsedive_text t.pulsedive []))))

  unfoldable pub reputation_rows : Option ThreatIntel → Rows
  unfolding flags intel_rows
  reputation_rows t =
      row (ltb 0 (length (flags t))) "Network flags" (join " " (flags t)) (intel_rows t)

abbrev pub reported : Option ThreatIntel → Bool
reported none = false
reported (some t) =
    is_some t.virustotal
    || is_some t.abuseipdb
    || is_some t.greynoise
    || is_some t.ipqs
    || is_some t.pulsedive

-- `hasRep`
unfoldable pub has_rep : Option ThreatIntel → Bool
unfolding flags
has_rep t = reported t || ltb 0 (length (flags t))
