-- ===== src/Signal/Record.antt =====
-- What the page shows of a record, as labels and texts. Coordinates are millionths of a degree;
-- `fixed` is `toFixed(4)`, `number` the locale's form of a number, `slice8` is `slice(0, 8)`, and
-- `upper` is `toUpperCase`.
pub mod Laws
use Prim.Native.Char.{Char, code}
use Prim.Native.String
use mathlib.Core.Option
use reachable_web_observator.Common.{
  ltb, leb, ◌==◌, if◌then◌else◌, truthy, is_some, or_else, keep, ◌+++◌, join, nat_eq, string_eq, ℕ,
  ◌-◌, ◌/◌, String, Bool, true, false, not, ◌&&◌, ◌||◌, Option, none, some, List, [], ◌∷◌, map,
  str_eq,
}
use reachable_web_observator.Int.{ℤ, pos, negsuc, distance, is_zero}
use reachable_web_observator.Js.Number.{show}
use reachable_web_observator.Js.Map.{contains}
use reachable_web_observator.Api.Types.{Geo, Tile, SignalDetail}
use reachable_web_observator.Api.Url.{image_url}
use reachable_web_observator.CrossReference.Rows.{Rows, row, text_of}

-- `Note`: its row, unless it hides what is missing or unknown.
abbrev pub is_blank : Option String → Bool
is_blank none = true
is_blank (some value) = str_eq value "" || str_eq value "unknown"

pub record Note : Type 0 where
  pub label : String
  pub value : Option String
  pub hide_empty : Bool

abbrev pub note : String → Option String → Bool → Note
note label value hide_empty = record { label = label; value = value; hide_empty = hide_empty }

unfoldable pub rows_of : List Note → Rows
rows_of [] = []
rows_of (n ∷ notes) =
    let rest = rows_of notes in
    row (not (n.hide_empty && is_blank n.value)) n.label (or_else n.value "—") rest

-- `value.replace(mark, text)` for a mark of one character: the first one is replaced.
unfoldable pub replace_first : ℕ → String → String → String
replace_first mark text String.[] = ""
replace_first mark text (String.◌∷◌ c s) =
    let rest = replace_first mark text s in if code c == mark then text +++ s else String.◌∷◌ c rest

-- `seen`
unfoldable pub seen : Tile → String
unfolding replace_first
seen s = replace_first b'Z' " UTC" (replace_first b'T' " " s.updated_at)

abbrev pub place : String → Geo → String
place separator g = join separator (keep truthy (g.city ∷ g.region ∷ g.country ∷ []))

abbrev pub of_geo {ℓ} : {A : Type ℓ} → (Geo → A) → Option Geo → Option A
of_geo f none = none
of_geo f (some g) = some (f g)

-- `submitter`
unfoldable pub submitter : SignalDetail → String
submitter d = if d.anon || str_eq d.submitted_by "0.0.0.0" then "anonymous" else d.submitted_by

-- The centre of the country that providers give for an unknown place, and a coarse position.
unfoldable pub is_coarse : Geo → Bool
unfolding distance
is_coarse g =
    ltb (distance g.lat (pos 37751000)) 1000 && ltb (distance g.lon (negsuc 97821999)) 1000
    || leb 500 (or_else g.accuracy_radius_km 0)

-- `isFallbackGeo`
unfoldable pub is_fallback_geo : Option Geo → Bool
unfolding is_coarse
is_fallback_geo none = false
is_fallback_geo (some g) = is_coarse g

abbrev pub off_origin : Option Geo → Bool
off_origin none = false
off_origin (some g) = not (is_zero g.lat) || not (is_zero g.lon)

-- `showCoordinates`
unfoldable pub show_coordinates : Option Geo → Bool
unfolding is_fallback_geo
show_coordinates geo = is_some geo && not (is_fallback_geo geo) && off_origin geo

-- `protocolTransition`, and the class of the record.
unfoldable pub protocol_transition : Tile → Bool
protocol_transition s = s.secured && contains (80 ∷ 8000 ∷ 8080 ∷ []) s.port

unfoldable pub protocol_label : Tile → String
unfolding protocol_transition show
protocol_label s =
    if s.secured
    then (if protocol_transition s
        then "Final HTTPS · observed on :" +++ show s.port
        else "Final protocol · HTTPS/TLS")
    else "Final protocol · cleartext HTTP"

unfoldable pub external_path : Tile → String
unfolding show
external_path s =
    "/external/"
    +++ s.ip
    +++ "/"
    +++ show s.port
    +++ "?protocol="
    +++ (if s.secured then "https" else "http")

-- The picture's address, or none for a record without a capture.
unfoldable pub exhibit : String → Tile → Option String
unfolding image_url
exhibit base s = if truthy s.image_url then some (image_url base s.image_url) else none

unfoldable pub caption : (String → String) → (String → String) → Tile → String × String
caption slice8 upper s = (
  "Capture" +++ (if truthy s.capture_hash then " · " +++ slice8 s.capture_hash else ""),
  (if truthy s.capture_ext then upper s.capture_ext else ""),
)

module _ (fixed : ℤ → String) (number : ℕ → String) where
  abbrev pub coordinates : Geo → String
  coordinates g = fixed g.lat +++ ", " +++ fixed g.lon

  -- The service metadata.
  abbrev pub notes : SignalDetail → List Note
  notes d =
      let s = d.service in
      note "Operator" (some s.whois) true
      ∷ note "Origin" (of_geo (place " · ") s.geo) true
      ∷ note "Coord" (if show_coordinates s.geo then of_geo coordinates s.geo else none) true
      ∷ note "Country" (of_geo (λ g. g.country_iso) s.geo) true
      ∷ note "Server" (some s.product) true
      ∷ note "Protocol"
          (some (if s.secured then "HTTPS · TLS" else "HTTP — no transport encryption")) false
      ∷ note "Status" (Option.map show s.http_status) false
      ∷ note "Cert CN" s.cert_cn true
      ∷ note "pHash" s.screenshot_phash true
      ∷ note "DOM" s.dom_hash true
      ∷ note "Submitter" (some (submitter d)) false
      ∷ []

  unfoldable pub metadata : SignalDetail → Rows
  unfolding rows_of show_coordinates submitter show
  metadata d = rows_of (notes d)

  -- The section of the location: the map with its facts, or the country alone.
  pub data Location : Type 0 where
    unlocated : Location
    on_map : ℤ → ℤ → Rows → Location
    country_only : String → Location

  abbrev pub radius_text : Option ℕ → Option String
  radius_text none = none
  radius_text (some km) = if km == 0 then none else some ("~" +++ number km +++ " km radius")

  abbrev pub facts : Tile → Geo → Rows
  facts s g = rows_of (
      note "Place" (some (place ", " g)) true
      ∷ note "Coordinates" (some (coordinates g)) false
      ∷ note "Accuracy" (radius_text g.accuracy_radius_km) true
      ∷ note "Country" (some g.country_iso) true
      ∷ note "Network" (some s.whois) true
      ∷ [])

  abbrev pub country_text : Geo → String
  country_text g =
      if truthy g.country
      then g.country
      else if truthy g.country_iso
      then g.country_iso
      else "unknown country"

  abbrev pub location_of : Tile → Option Geo → Location
  location_of s none = unlocated
  location_of s (some g) =
      if show_coordinates (some g)
      then on_map g.lat g.lon (facts s g)
      else if is_fallback_geo (some g)
      then country_only (country_text g)
      else unlocated

  unfoldable pub location : Tile → Location
  unfolding rows_of show_coordinates
  location s = location_of s s.geo

-- The names of the downloaded files.
unfoldable pub record_file : Tile → String
unfolding show
record_file s = "rwo-" +++ s.ip +++ "-" +++ show s.port +++ ".json"

unfoldable pub text_file : Tile → String
unfolding show
text_file s = "rwo-" +++ s.ip +++ "-" +++ show s.port +++ "-captured-text.txt"

unfoldable pub banner_text : Tile → String
banner_text s = if truthy s.banner then s.banner else "— no banner —"
