-- ===== src/Viewport.antt =====
-- components/Viewport.tsx: the screen of the console, as texts. `fixed` is `toFixed(3)`.
use mathlib.Core.Option
use reachable_web_observator.Common.{
  if◌then◌else◌, truthy, keep, ◌+++◌, join, nat_eq, string_eq, ℕ, String, Bool, true, false, Option,
  none, some, List, [], ◌∷◌,
}
use reachable_web_observator.Int.{ℤ}
use reachable_web_observator.Js.Number.{show}
use reachable_web_observator.Api.Types.{Tile, SignalDetail}
use reachable_web_observator.Api.Url.{image_url}
use reachable_web_observator.CrossReference.Rows.{Rows}
use reachable_web_observator.Signal.Record.{Note, note, rows_of, of_geo, protocol_transition}

abbrev pub service_of : Option SignalDetail → Option Tile
service_of none = none
service_of (some d) = some d.service

unfoldable pub callsign : Tile → String
unfolding show
callsign s = s.ip +++ ":" +++ show s.port

-- What stands in the screen: the address of a picture, or a message.
pub data Screen : Type 0 where
  picture : String → Screen
  message : String → Screen

abbrev pub empty_screen : Bool → Bool → Screen
empty_screen loading error = message (
    if loading
    then "LOADING…"
    else if error
    then "COULDN'T REACH THE COLLECTOR"
    else "NO OBSERVATION")

unfoldable pub screen : String → Option SignalDetail → Bool → Bool → Screen
unfolding image_url
screen base none loading error = empty_screen loading error
screen base (some d) loading error =
    if truthy d.service.image_url
    then picture (image_url base d.service.image_url)
    else empty_screen loading error

-- The lines over and under the screen.
unfoldable pub overlay : Option SignalDetail → Bool → String × String × String
unfolding callsign
overlay none loading = ((if loading then "LOADING" else "STORED"), "— — —", "")
overlay (some d) loading = (
  (if loading then "LOADING" else "STORED"),
  callsign d.service,
  (if truthy d.service.product then d.service.product else "unknown service"),
)

unfoldable pub final_protocol : Tile → String
unfolding protocol_transition show
final_protocol s =
    if s.secured
    then (if protocol_transition s then ":" +++ show s.port +++ " → HTTPS" else "HTTPS")
    else "HTTP"

abbrev pub of_service {ℓ} : {A : Type ℓ} → (Tile → Option A) → Option Tile → Option A
of_service f none = none
of_service f (some s) = f s

module _ (fixed : ℤ → String) where
  -- `Line` hides what is missing or unknown as `Note` of the record page does.
  abbrev pub lines : Option Tile → List Note
  lines s =
      note "HOST" (of_service (λ t. some (callsign t)) s) false
      ∷ note "FINAL PROTOCOL" (of_service (λ t. some (final_protocol t)) s) false
      ∷ note "STATUS" (of_service (λ t. Option.map show t.http_status) s) false
      ∷ note "SERVER" (of_service (λ t. some t.product) s) true
      ∷ note "OPERATOR" (of_service (λ t. some t.whois) s) true
      ∷ note "ORIGIN"
          (of_service
            (λ t. of_geo (λ g. join " · " (keep truthy (g.city ∷ g.country_iso ∷ []))) t.geo) s)
          true
      ∷ note "COORD" (of_service (λ t. of_geo (λ g. fixed g.lat +++ ", " +++ fixed g.lon) t.geo) s)
          true
      ∷ note "pHASH" (of_service (λ t. t.screenshot_phash) s) true
      ∷ note "DOM" (of_service (λ t. t.dom_hash) s) true
      ∷ []

  unfoldable pub telemetry : Option SignalDetail → Rows
  unfolding rows_of callsign final_protocol show
  telemetry detail = rows_of (lines (service_of detail))

-- The buttons, and the link to the record.
unfoldable pub draw_label : Bool → Bool → String
draw_label loading error =
    if loading then "◌ drawing" else if error then "↻ retry" else "▸ draw a random observation"

unfoldable pub auto_label : Bool → ℕ → String
unfolding show
auto_label auto seconds = if auto then "❚❚ pause auto" else "▶ auto · " +++ show seconds +++ "s"

unfoldable pub inspect_path : Option SignalDetail → Option String
unfolding show
inspect_path none = none
inspect_path (some d) = some ("/signal/" +++ d.service.ip +++ "/" +++ show d.service.port)
