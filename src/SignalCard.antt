-- ===== src/SignalCard.antt =====
-- components/SignalCard.tsx and components/StatusBadge.tsx: the texts of a card.
pub mod Laws
use reachable_web_observator.Common.{
  ltb, leb, ◌==◌, if◌then◌else◌, truthy, or_else, length, ◌+++◌, join, nat_eq, string_eq, ℕ, ◌/◌,
  String, Bool, not, ◌&&◌, ◌||◌, Option, none, some, [], ◌∷◌, str_eq,
}
use reachable_web_observator.Js.Number.{show}
use reachable_web_observator.Js.Map.{contains}
use reachable_web_observator.Api.Types.{Tile, Geo}
use reachable_web_observator.Api.Url.{image_url}
use reachable_web_observator.Time.{time_ago}

abbrev pub text_of : Option String → String
text_of o = or_else o ""

abbrev pub verdict_is : String → Tile → Bool
verdict_is name t = str_eq (text_of t.verdict) name

unfoldable pub flagged : Tile → Bool
flagged t = verdict_is "malicious" t || verdict_is "suspicious" t

abbrev pub cves : Tile → ℕ
cves t = or_else t.vuln_count 0

unfoldable pub provenance : Tile → Bool
unfolding flagged
provenance t = flagged t || ltb 0 (cves t)

unfoldable pub source_label : Tile → String
source_label t =
    if ltb 0 (length (or_else t.sources []))
    then join ", " (or_else t.sources [])
    else "third-party feeds"

unfoldable pub protocol_transition : Tile → Bool
protocol_transition t = t.secured && contains (80 ∷ 8000 ∷ 8080 ∷ []) t.port

unfoldable pub card_class : Tile → String
card_class t =
    "card hud"
    +++ (if verdict_is "malicious" t
        then " card--flagged"
        else if verdict_is "suspicious" t
        then " card--suspect"
        else "")

unfoldable pub record_path : Tile → String
unfolding show
record_path t = "/signal/" +++ t.ip +++ "/" +++ show t.port

unfoldable pub callsign : Tile → String
unfolding show protocol_transition
callsign t = t.ip +++ ":" +++ show t.port +++ (if protocol_transition t then " → HTTPS" else "")

-- The addresses of the picture: the source and the source set.
unfoldable pub picture : String → Tile → Option (String × String)
unfolding image_url
picture base t =
    if truthy t.image_url
    then some (
      image_url base (if truthy (text_of t.thumb_url) then text_of t.thumb_url else t.image_url),
      (if truthy (text_of t.thumb_url)
          then image_url base (text_of t.thumb_url)
            +++ " 480w, "
            +++ image_url base t.image_url
            +++ " 1147w"
          else ""),
    )
    else none

unfoldable pub verdict_badge : Tile → Option String
unfolding flagged
verdict_badge t =
    if flagged t
    then some (
        if verdict_is "malicious" t
        then "provider reputation: malicious"
        else "provider reputation: suspicious")
    else none

unfoldable pub cve_badge : Tile → Option String
unfolding show
cve_badge t =
    if ltb 0 (cves t)
    then some
        (show (cves t) +++ " host-associated CVE record" +++ (if ltb 1 (cves t) then "s" else ""))
    else none

abbrev pub city_of : Option Geo → String
city_of none = ""
city_of (some g) = if truthy g.city then g.city else g.country

unfoldable pub place : Tile → String
place t =
    if truthy t.whois && not (str_eq t.whois "unknown")
    then t.whois
    else if truthy (city_of t.geo)
    then city_of t.geo
    else "—"

unfoldable pub product_text : Tile → String
product_text t =
    (if truthy t.product then t.product else "unknown")
    +++ (if truthy (text_of t.product_version) then " " +++ text_of t.product_version else "")

unfoldable pub protocol_text : Tile → String
unfolding protocol_transition
protocol_text t =
    if t.secured then (if protocol_transition t then "→ HTTPS" else "HTTPS") else "HTTP"

unfoldable pub observed_text : (String → Option ℕ) → ℕ → Tile → String
unfolding time_ago
observed_text parse now t =
    let ago = time_ago parse now (some t.updated_at) in
    "observed "
    +++ (if truthy ago
        then ago
        else if truthy t.updated_at
        then t.updated_at
        else "at an unknown time")

-- The line that names where reputation and CVE data come from.
unfoldable pub provenance_text : (String → Option ℕ) → ℕ → Tile → Option String
unfolding provenance source_label time_ago
provenance_text parse now t =
    let enriched = time_ago parse now t.enriched_at in
    if provenance t
    then some (
        source_label t +++ (if truthy enriched then " · " +++ enriched else "") +++ " · unverified")
    else none

-- `statusClass`
unfoldable pub status_class : Option ℕ → String
status_class none = "badge-mute"
status_class (some s) =
    if s == 200
    then "badge-ok"
    else if leb 300 s && ltb s 400
    then "badge-redir"
    else if leb 400 s
    then "badge-err"
    else "badge-mute"
