-- ===== src/MapExplorer.antt =====
-- pages/MapExplorer.tsx: the layer and the window of the map in the URL.
pub mod Laws
use reachable_web_observator.Common.{
  ◌==◌, if◌then◌else◌, nat_eq, string_eq, ℕ, String, Bool, true, false, not, ◌&&◌, Option, none,
  some, List, [], ◌∷◌, map, str_eq,
}
use reachable_web_observator.Js.Map.{contains}
use reachable_web_observator.Js.Number.{Number, whole, other, Reader, show}
use reachable_web_observator.Js.Params.{Params, get, set_if}
use reachable_web_observator.Api.Types.{MapMode, observations, cleartext, at_risk}

unfoldable pub mode_name : MapMode → String
mode_name observations = "observations"
mode_name cleartext = "cleartext"
mode_name at_risk = "at-risk"

-- `VALID_WINDOWS`
abbrev pub valid_windows : List ℕ
valid_windows = 0 ∷ 24 ∷ 168 ∷ 720 ∷ []

-- `requestedMode && VALID_MODES.has(requestedMode) ? requestedMode : "observations"`
unfoldable pub read_mode : Option String → MapMode
read_mode none = observations
read_mode (some name) =
    if str_eq name "cleartext"
    then cleartext
    else if str_eq name "at-risk"
    then at_risk
    else observations

abbrev pub valid_window : Number → ℕ
valid_window (whole n) = if contains valid_windows n then n else 24
valid_window (other s) = 24

unfoldable pub read_hours : Reader → Option String → ℕ
read_hours reader none = 24
read_hours reader (some text) = valid_window (reader.to_number text)

unfoldable pub mode_of : Params → MapMode
unfolding read_mode
mode_of params = read_mode (get "layer" params)

unfoldable pub hours_of : Reader → Params → ℕ
unfolding read_hours
hours_of reader params = read_hours reader (get "window" params)

abbrev pub is_observations : MapMode → Bool
is_observations observations = true
is_observations _ = false

-- The parameters that `update` writes.
unfoldable pub update : MapMode → ℕ → Params
unfolding mode_name
update mode hours =
    let layered = set_if (not (is_observations mode)) "layer" (mode_name mode) [] in
    set_if (not (hours == 24)) "window" (show hours) layered
