-- ===== src/InteractiveWorldMap/Labels.antt =====
-- The summary, the markers and the tooltip of the map, as texts.
use reachable_web_observator.Common.{
  ltb, ◌==◌, if◌then◌else◌, truthy, length, take, any, keep, ◌+++◌, join, nat_eq, string_eq, ℕ, ◌-◌,
  String, Bool, false, not, ◌&&◌, Option, none, some, List, [], ◌∷◌, str_eq,
}
use reachable_web_observator.Js.Float.{Float}
use reachable_web_observator.Js.Number.{show}
use reachable_web_observator.Api.Types.{MapEntry}
use reachable_web_observator.InteractiveWorldMap.Clusters.{
  Cluster, is_risk, point_place, marker_label, cluster_places, place_summary,
}
use reachable_web_observator.InteractiveWorldMap.View.{View, nearly_max}

unfoldable pub http_points : List MapEntry → ℕ
http_points points = length (keep (λ p. not p.secured) points)

unfoldable pub risk_points : List MapEntry → ℕ
unfolding is_risk
risk_points points = length (keep is_risk points)

unfoldable pub summary : List MapEntry → String
unfolding http_points risk_points show
summary points =
    show (length points)
    +++ " mapped hosts: "
    +++ show (length points - http_points points)
    +++ " HTTPS, "
    +++ show (http_points points)
    +++ " cleartext HTTP, "
    +++ show (risk_points points)
    +++ " at-risk. Drag to pan; use the controls or mouse wheel to zoom."

module _ (float : Float) where
  unfoldable pub cluster_label : View float → Cluster float → String
  unfolding cluster_places place_summary show
  cluster_label view cluster =
      show (length cluster.points)
      +++ " nearby mapped hosts near "
      +++ place_summary float (cluster_places float cluster)
      +++ ". Activate to "
      +++ (if not (float.lt view.scale (nearly_max float))
          then "inspect the host list"
          else "zoom in")
      +++ "."

  -- The label, and the style classes, of a marker.
  unfoldable pub label : View float → Cluster float → String
  unfolding cluster_label marker_label
  label view cluster = elim cluster.points [
    | [] ↦ ""
    | item ∷ rest ↦
        if ltb 1 (length cluster.points)
        then cluster_label view cluster
        else marker_label item.point
  ]

  unfoldable pub is_selected : Option String → Cluster float → Bool
  is_selected selected cluster = elim cluster.points [
    | [] ↦ false
    | item ∷ rest ↦
        length cluster.points == 1
        && elim selected [ none ↦ false | some key ↦ str_eq key item.key ]
  ]

  unfoldable pub is_risky : Cluster float → Bool
  unfolding is_risk
  is_risky cluster = any (λ item. is_risk item.point) cluster.points

  unfoldable pub marker_colour : Cluster float → String
  marker_colour cluster = elim cluster.points [
    | [] ↦ ""
    | item ∷ rest ↦
        if ltb 1 (length cluster.points)
        then "var(--violet)"
        else if item.point.secured
        then "var(--cyan)"
        else "var(--red)"
  ]

  -- `clusters.find((cluster) => cluster.id === hoveredID) ?? null`
  unfoldable pub hovered_cluster : Option String → List (Cluster float) → Option (Cluster float)
  hovered_cluster none clusters = none
  hovered_cluster (some id) [] = none
  hovered_cluster (some id) (cluster ∷ clusters) =
      let rest = hovered_cluster (some id) clusters in
      if str_eq cluster.id id then some cluster else rest

  -- The lines of the tooltip.
  unfoldable pub tooltip : Cluster float → List String
  unfolding cluster_places point_place show
  tooltip cluster =
      let places = cluster_places float cluster in
      elim cluster.points [
        | [] ↦ []
        | item ∷ rest ↦
            if ltb 1 (length cluster.points)
            then (show (length cluster.points) +++ " nearby hosts")
              ∷ join " · " (take 4 places)
              ∷ (if ltb 4 (length places)
                  then ("+" +++ show (length places - 4) +++ " more locations")
                    ∷ "activate to separate markers"
                    ∷ []
                  else "activate to separate markers" ∷ [])
            else (item.point.ip +++ ":" +++ show item.point.port)
              ∷ point_place item.point
              ∷ ((if item.point.secured then "HTTPS" else "HTTP")
                  +++ (if truthy item.point.product then " · " +++ item.point.product else ""))
              ∷ []
      ]
