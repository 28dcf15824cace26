-- ===== src/MapExplorer/Laws.antt =====
-- The map's URL.
use reachable_web_observator.Common.{
  ◌==◌, if◌then◌else◌, Bool-cases, nat_eq, string_eq, ℕ, ◌≤◌, String, ◌≡◌, refl, ap, ◌∙◌, inl, inr,
  true, not, Option, none, some, arith,
}
use reachable_web_observator.Js.Map.{contains}
use reachable_web_observator.Js.Number.{Number, whole, other, max_safe, Reader, show}
use reachable_web_observator.Js.Params.{Params, get}
use reachable_web_observator.Js.Params.Laws.{params_laws}
use reachable_web_observator.Api.Types.{MapMode, observations, cleartext, at_risk}
use reachable_web_observator.MapExplorer.{
  is_observations, mode_name, valid_windows, valid_window, read_mode, read_hours, mode_of, hours_of,
  update,
}

get_layer-update :
    (mode : MapMode) (hours : ℕ)
    → get "layer" (update mode hours)
      ≡ (if not (is_observations mode) then some (mode_name mode) else none)
unfolding update
get_layer-update mode hours = simp params_laws

get_window-update :
    (mode : MapMode) (hours : ℕ)
    → get "window" (update mode hours) ≡ (if not (hours == 24) then some (show hours) else none)
unfolding update
get_window-update mode hours = simp params_laws

mode_lem :
    (mode : MapMode)
    → read_mode (if not (is_observations mode) then some (mode_name mode) else none) ≡ mode
unfolding read_mode mode_name
mode_lem observations = refl
mode_lem cleartext = refl
mode_lem at_risk = refl

mode_of-update : (mode : MapMode) (hours : ℕ) → mode_of (update mode hours) ≡ mode
unfolding mode_of
mode_of-update mode hours = ap read_mode (get_layer-update mode hours) ∙ mode_lem mode

max_lem : (hours : ℕ) → contains valid_windows hours ≡ true → hours ≤ max_safe
unfolding contains
max_lem hours h = ground arith

hours_lem :
    (reader : Reader) (hours : ℕ)
    → contains valid_windows hours ≡ true
    → read_hours reader (if not (hours == 24) then some (show hours) else none) ≡ hours
unfolding read_hours
hours_lem reader hours h = elim (Bool-cases (hours == 24)) [
  | inl default ↦ rw default (ground arith)
  | inr shown ↦ rw (shown, reader.to_number-show hours (max_lem hours h), h) refl
]

hours_of-update :
    (reader : Reader) (mode : MapMode) (hours : ℕ)
    → contains valid_windows hours ≡ true
    → hours_of reader (update mode hours) ≡ hours
unfolding hours_of
hours_of-update reader mode hours h =
    ap (read_hours reader) (get_window-update mode hours) ∙ hours_lem reader hours h

-- The page reads back the layer and the window that it wrote to the URL, for each window that it
-- offers.
pub read-update :
    (reader : Reader) (mode : MapMode) (hours : ℕ)
    → contains valid_windows hours ≡ true
    → (mode_of (update mode hours) ≡ mode) × (hours_of reader (update mode hours) ≡ hours)
read-update reader mode hours h = (mode_of-update mode hours, hours_of-update reader mode hours h)

contains-default : contains valid_windows 24 ≡ true
unfolding contains
contains-default = refl

valid_window-IsWindow : (n : Number) → contains valid_windows (valid_window n) ≡ true
valid_window-IsWindow (whole n) = elim (Bool-cases (contains valid_windows n)) [
  | inl ok ↦ rw ok ok
  | inr bad ↦ rw bad (contains-default)
]
valid_window-IsWindow (other s) = contains-default

read_hours-IsWindow :
    (reader : Reader) (o : Option String) → contains valid_windows (read_hours reader o) ≡ true
unfolding read_hours
read_hours-IsWindow reader none = contains-default
read_hours-IsWindow reader (some text) = valid_window-IsWindow (reader.to_number text)

-- Whatever the URL holds, the window of the map is one of the four that the server is asked for.
hours_of-IsWindow :
    (reader : Reader) (params : Params) → contains valid_windows (hours_of reader params) ≡ true
unfolding hours_of
hours_of-IsWindow reader params = read_hours-IsWindow reader (get "window" params)
