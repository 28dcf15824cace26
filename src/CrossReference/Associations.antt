-- ===== src/CrossReference/Associations.antt =====
-- The sections of threat feeds and of network ownership, as labels and texts.
pub mod Laws
use reachable_web_observator.Common.{
  ltb, ◌==◌, if◌then◌else◌, truthy, is_some, or_else, length, any, keep, ◌+++◌, join, nat_eq,
  string_eq, ℕ, ◌+◌, ◌%◌, String, Bool, true, false, ◌&&◌, ◌||◌, Option, none, some, List, [], ◌∷◌,
  map,
}
use reachable_web_observator.Js.Number.{show}
use reachable_web_observator.Api.Threat.{
  Enrichment, ThreatIntel, Otx, ThreatFox, Ioc, Bgp, IpApi, IpInfo,
}
use reachable_web_observator.CrossReference.Otx.{Summary, summarize_otx}
use reachable_web_observator.CrossReference.Rows.{
  Rows, joind, text_of, items_of, when, with_prefix, filled, row, provider_row,
}

-- `number` is the locale's form of a number, `lower` its lower-casing.
module _ (number : ℕ → String) (lower d10 : String → String) where
  abbrev pub summary_text : Summary → String
  summary_text s =
      number s.pulse_count
      +++ " pulse "
      +++ (if s.pulse_count == 1 then "match" else "matches")
      +++ when (ltb 0 s.unique_count) (
          " · "
          +++ number s.unique_count
          +++ " unique "
          +++ (if s.unique_count == 1 then "title" else "titles"))
      +++ when (ltb 0 (length s.visible_titles)) (" " +++ join " " s.visible_titles)
      +++ when (ltb 0 s.remaining) (" +" +++ number s.remaining +++ " more unique titles")

  unfoldable pub otx_text : Otx → String
  unfolding summarize_otx
  otx_text otx = summary_text (summarize_otx lower otx)

  -- The details of an indicator.
  abbrev pub ioc_details : Ioc → String
  ioc_details i = joind (
      when (truthy (text_of i.threat_type) && truthy (text_of i.malware)) (text_of i.threat_type)
      ∷ when (ltb 0 i.confidence_level) (show i.confidence_level +++ "% conf")
      ∷ when (truthy (text_of i.first_seen)) ("seen " +++ d10 (text_of i.first_seen))
      ∷ [])

  unfoldable pub ioc_text : Ioc → String
  unfolding joind show
  ioc_text i =
      (if truthy (text_of i.malware)
        then text_of i.malware
        else if truthy (text_of i.threat_type)
        then text_of i.threat_type
        else "IOC")
      +++ when (truthy (ioc_details i)) (" · " +++ ioc_details i)
      +++ " "
      +++ i.ioc

  abbrev pub threatfox_row : Option ThreatFox → Rows
  threatfox_row none = []
  threatfox_row (some f) =
      row (ltb 0 f.ioc_count) ("ThreatFox · " +++ show f.ioc_count)
        (join "\n" (map ioc_text (items_of f.iocs))) []

  unfoldable pub feed_rows : Option ThreatIntel → Rows
  unfolding otx_text ioc_text
  feed_rows none = []
  feed_rows (some t) =
      provider_row (λ o. ltb 0 o.pulse_count) "AlienVault OTX" otx_text t.otx
        (threatfox_row t.threatfox)

-- `hasFeeds`
unfoldable pub has_feeds : Option ThreatIntel → Bool
has_feeds none = false
has_feeds (some t) =
    elim t.otx [ none ↦ false | some o ↦ ltb 0 o.pulse_count ]
    || elim t.threatfox [ none ↦ false | some f ↦ ltb 0 f.ioc_count ]

abbrev pub intel_of {ℓ} : {A : Type ℓ} → (ThreatIntel → Option A) → Option ThreatIntel → Option A
intel_of f none = none
intel_of f (some t) = f t

abbrev pub has_asn : Bgp → Bool
has_asn b = ltb 0 (or_else b.asn 0)

-- `hasNet`
unfoldable pub has_net : Enrichment → Bool
has_net e =
    truthy (text_of e.org)
    || elim (intel_of (λ t. t.bgp) e.threat) [ none ↦ false | some b ↦ has_asn b ]
    || is_some (intel_of (λ t. t.ipapi) e.threat)
    || is_some (intel_of (λ t. t.ipinfo) e.threat)
    || filled e.hostnames

abbrev pub places : List (Option String) → String
places parts = join ", " (keep truthy (map text_of parts))

unfoldable pub bgp_text : Bgp → String
unfolding joind show
bgp_text b =
    joind (
      ("AS" +++ show (or_else b.asn 0))
      ∷ text_of b.asn_name
      ∷ text_of b.asn_description
      ∷ with_prefix "RIR " b.rir
      ∷ [])
    +++ when (filled b.prefixes) (" — " +++ join ", " (items_of b.prefixes))

unfoldable pub ipapi_text : IpApi → String
unfolding joind
ipapi_text a = joind (text_of a.isp ∷ places (a.city ∷ a.region ∷ a.country ∷ []) ∷ [])

unfoldable pub ipinfo_text : IpInfo → String
unfolding joind
ipinfo_text i =
    let text = joind (
      text_of i.hostname
      ∷ text_of i.org
      ∷ places (i.city ∷ i.region ∷ i.country ∷ [])
      ∷ text_of i.timezone
      ∷ []) in
    if truthy text then text else "—"

-- The row of ip-api, or else of the origin in the enrichment itself.
abbrev pub origin_row : Enrichment → Option IpApi → Rows → Rows
origin_row e (some a) rest = ("ip-api", ipapi_text a) ∷ rest
origin_row e none rest =
    row (truthy (text_of e.city) || truthy (text_of e.country)) "Origin"
      (places (e.city ∷ e.country ∷ [])) rest

-- `last_seen` is the text that `shodanLastSeen` makes of the time, if any.
unfoldable pub net_rows : Option String → Enrichment → Rows
unfolding joind bgp_text ipapi_text ipinfo_text
net_rows last_seen e =
    row (truthy (text_of e.org)) "Operator" (joind (text_of e.org ∷ text_of e.asn ∷ [])) (
      provider_row has_asn "ASN (BGP)" bgp_text (intel_of (λ t. t.bgp) e.threat) (
        origin_row e (intel_of (λ t. t.ipapi) e.threat) (
          provider_row (λ _. true) "IPinfo" ipinfo_text (intel_of (λ t. t.ipinfo) e.threat)
            (row (filled e.hostnames) "Hostnames" (join ", " (items_of e.hostnames))
              (row (is_some last_seen) "Last seen" (or_else last_seen "") [])))))
