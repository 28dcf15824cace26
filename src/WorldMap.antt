-- ===== src/WorldMap.antt =====
-- components/WorldMap.tsx: the map of flagged services on the statistics page. The projection is a
-- parameter: a pair of numbers, or nothing.
use reachable_web_observator.Common.{
  if◌then◌else◌, or_else, length, keep, length-keep, ◌+++◌, nat_eq, string_eq, ℕ, ◌+◌, ◌-◌, ◌*◌,
  ◌%◌, ◌≤◌, String, ◌≡◌, Bool, ◌||◌, Option, List, [], ◌∷◌, map, arith,
}
use reachable_web_observator.Int.{ℤ}
use reachable_web_observator.Js.Number.{show}
use reachable_web_observator.Api.Types.{FlaggedPoint, Stats}
use reachable_web_observator.Stats.Rates.{flagged_map_points}

pub record MapPoint : Type 0 where
  pub ip : String
  pub port : ℕ
  pub lat : ℤ
  pub lon : ℤ
  pub insecure : Bool

abbrev pub map_point : FlaggedPoint → MapPoint
map_point p = record { ip = ""; port = 0; lat = p.lat; lon = p.lon; insecure = p.insecure }

-- The points of the statistics page, which shows a text in place of an empty map.
unfoldable pub stats_points : Stats → List MapPoint
unfolding flagged_map_points
stats_points s = map map_point (flagged_map_points (or_else s.flagged_points []))

unfoldable pub http_count : List MapPoint → ℕ
http_count points = length (keep (λ p. p.insecure) points)

unfoldable pub https_count : List MapPoint → ℕ
unfolding http_count
https_count points = length points - http_count points

unfoldable pub summary : List MapPoint → String
unfolding http_count https_count show
summary points =
    "Map of "
    +++ show (length points)
    +++ " geolocated service observations: "
    +++ show (https_count points)
    +++ " captured over HTTPS and "
    +++ show (http_count points)
    +++ " over cleartext HTTP."

unfoldable pub origins : List MapPoint → String
unfolding show
origins points = show (length points) +++ " origins"

-- A circle on the map; the delay is in tenths of a second.
pub record Marker (X : Type 0) : Type 0 where
  pub key : String
  pub x : X
  pub y : X
  pub color : String
  pub delay : ℕ

-- `zero_x` is the number 0, and `is_falsy` holds of it and of NaN.
module _ {X : Type 0} (zero_x : X) (is_falsy : X → Bool) (project : ℤ → ℤ → Option (X × X)) where
  -- `projection([lon, lat]) ?? [0, 0]`
  abbrev pub place : MapPoint → X × X
  place p = or_else (project p.lon p.lat) (zero_x, zero_x)

  abbrev pub marker : ℕ → MapPoint → Marker X
  marker i p = record {
    key = p.ip +++ ":" +++ show p.port +++ ":" +++ show i;
    x = (place p).0;
    y = (place p).1;
    color = if p.insecure then "var(--red)" else "var(--cyan)";
    delay = 3 * (i % 7);
  }

  -- A point that is projected to a zero or to no number is not drawn.
  unfoldable pub markers_from : ℕ → List MapPoint → List (Marker X)
  unfolding show
  markers_from i [] = []
  markers_from i (p ∷ points) =
      let rest = markers_from (i + 1) points in
      if is_falsy (place p).0 || is_falsy (place p).1 then rest else marker i p ∷ rest

  unfoldable pub markers : List MapPoint → List (Marker X)
  unfolding markers_from
  markers points = markers_from 0 points

-- Every observation is counted once: as captured over HTTPS or over cleartext HTTP.
http_https_count : (points : List MapPoint) → http_count points + https_count points ≡ length points
unfolding http_count https_count
http_https_count points = let some_ = length-keep (λ p. p.insecure) points in omega arith

-- At most one marker is drawn for a point.
length-markers_from :
    {X : Type 0} (zero_x : X) (is_falsy : X → Bool) (project : ℤ → ℤ → Option (X × X)) (i : ℕ)
    (points : List MapPoint)
    → length (markers_from zero_x is_falsy project i points) ≤ length points
unfolding markers_from
length-markers_from zero_x is_falsy project i [] = omega arith
length-markers_from zero_x is_falsy project i (p ∷ points) =
    let rest = length-markers_from zero_x is_falsy project (i + 1) points in ground (arith, rest)
