-- ===== src/InteractiveWorldMap/Clusters.antt =====
-- The markers of the map: projected points, gathered by the cells of a grid on the screen.
pub mod Laws
use reachable_web_observator.Common.{
  ltb, leb, if◌then◌else◌, truthy, or_else, length, take, keep, ◌+++◌, join, nat_eq, string_eq, ◌-◌,
  ◌/◌, String, Bool, false, not, ◌||◌, Option, none, some, List, [], ◌∷◌, ◌++◌, map, str_eq,
}
use reachable_web_observator.Js.Float.{Float}
use reachable_web_observator.Js.Number.{show}
use reachable_web_observator.Js.Map.{unique}
use reachable_web_observator.Js.Grouping.{group_by}
use reachable_web_observator.Int.{ℤ}
use reachable_web_observator.Api.Types.{MapEntry}

unfoldable pub point_key : MapEntry → String
unfolding show
point_key p = p.ip +++ ":" +++ show p.port

abbrev pub verdict_is : String → Option String → Bool
verdict_is name none = false
verdict_is name (some verdict) = str_eq verdict name

unfoldable pub is_risk : MapEntry → Bool
is_risk p =
    ltb 0 p.vuln_count || verdict_is "suspicious" p.verdict || verdict_is "malicious" p.verdict

unfoldable pub point_place : MapEntry → String
point_place p =
    let place = join ", " (keep truthy (p.geo.city ∷ p.geo.country_iso ∷ [])) in
    if truthy place
    then place
    else if truthy p.geo.country
    then p.geo.country
    else "unknown location"

unfoldable pub marker_label : MapEntry → String
unfolding show point_place is_risk
marker_label p =
    p.ip
    +++ ":"
    +++ show p.port
    +++ ", "
    +++ (if p.secured then "HTTPS" else "HTTP")
    +++ ", "
    +++ point_place p
    +++ (if is_risk p
        then ", "
          +++ show p.vuln_count
          +++ " host-associated CVEs, "
          +++ (if truthy (or_else p.verdict "") then or_else p.verdict "" else "flagged")
        else "")

module _ (float : Float) where
  open float use {F}

  pub record Projected : Type 0 where
    pub point : MapEntry
    pub key : String
    pub x : F
    pub y : F

  pub record Cluster : Type 0 where
    pub id : String
    pub x : F
    pub y : F
    pub points : List Projected

  -- The projection gives no finite position to some points; these are not shown.
  unfoldable pub projected : (ℤ → ℤ → Option (F × F)) → List MapEntry → List Projected
  unfolding point_key
  projected project [] = []
  projected project (point ∷ points) =
      let rest = projected project points in
      elim (project point.geo.lon point.geo.lat) [
        | none ↦ rest
        | some (x, y) ↦ record { point = point; key = point_key point; x = x; y = y } ∷ rest
      ]

  -- `${Math.floor(item.x / cell)}:${Math.floor(item.y / cell)}` with `cell = 34 / scale`
  unfoldable pub cell_id : F → Projected → String
  cell_id scale item =
      let cell = float.div (float.of_nat 34) scale in
      float.floor_text (float.div item.x cell) +++ ":" +++ float.floor_text (float.div item.y cell)

  abbrev pub add_item : List Projected → Projected → List Projected
  add_item bucket item = bucket ++ item ∷ []

  unfoldable pub buckets : F → List Projected → List (String × List Projected)
  buckets scale items = group_by (cell_id scale) (λ item. item ∷ []) add_item items

  unfoldable pub sum_by : (Projected → F) → F → List Projected → F
  sum_by f total [] = total
  sum_by f total (item ∷ items) = sum_by f (float.add total (f item)) items

  unfoldable pub centre : String × List Projected → Cluster
  unfolding sum_by
  centre (id, items) = record {
    id = id;
    x = float.div (sum_by (λ i. i.x) (float.of_nat 0) items) (float.of_nat (length items));
    y = float.div (sum_by (λ i. i.y) (float.of_nat 0) items) (float.of_nat (length items));
    points = items;
  }

  unfoldable pub clusters : F → List Projected → List Cluster
  unfolding centre buckets
  clusters scale items = map centre (buckets scale items)

  unfoldable pub cluster_places : Cluster → List String
  unfolding point_place
  cluster_places cluster = unique (map (λ item. point_place item.point) cluster.points)

  -- The places in a marker's label: three of them, and the number of the others.
  unfoldable pub place_summary : List String → String
  unfolding show
  place_summary places =
      if leb (length places) 3
      then join "; " places
      else join "; " (take 3 places) +++ "; and " +++ show (length places - 3) +++ " more"
