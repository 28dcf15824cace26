-- ===== src/InteractiveWorldMap/View.antt =====
-- The view of the map: zooming, panning and what a marker does.
pub mod Laws
use reachable_web_observator.Common.{
  ltb, ◌==◌, if◌then◌else◌, length, nat_eq, string_eq, ℕ, ◌*◌, min, max, String, Bool, true, false,
  not, ◌&&◌, Option, none, some, List, [], ◌∷◌, map,
}
use reachable_web_observator.Js.Float.{Float}
use reachable_web_observator.Api.Types.{MapEntry}
use reachable_web_observator.InteractiveWorldMap.Clusters.{Projected, Cluster}

-- `W` and `H`
abbrev pub width : ℕ
width = 960

abbrev pub height : ℕ
height = 480

module _ (float : Float) where
  open float use {F}

  abbrev pub min_zoom : F
  min_zoom = float.of_nat 1

  abbrev pub max_zoom : F
  max_zoom = float.of_nat 8

  pub record View : Type 0 where
    pub scale : F
    pub x : F
    pub y : F

  -- The pointer that drags the map, with the place where it was last seen.
  pub record Drag : Type 0 where
    pub id : ℕ
    pub x : F
    pub y : F

  -- `getBoundingClientRect`
  pub record Rect : Type 0 where
    pub left : F
    pub top : F
    pub width : F
    pub height : F

  pub record State : Type 0 where
    pub view : View
    pub hovered : Option String
    pub dragging : Bool
    pub drag : Option Drag

  -- `Math.min(MAX_ZOOM, Math.max(MIN_ZOOM, nextScale))`
  unfoldable pub clamp : F → F
  clamp scale = float.lowest max_zoom (float.greatest min_zoom scale)

  unfoldable pub zoom_at : F → F → F → View → View
  unfolding clamp
  zoom_at next anchor_x anchor_y current =
      let scale = clamp next in
      let ratio = float.div scale current.scale in
      record {
        scale = scale;
        x = float.sub anchor_x (float.mul (float.sub anchor_x current.x) ratio);
        y = float.sub anchor_y (float.mul (float.sub anchor_y current.y) ratio);
      }

  abbrev pub half : ℕ → F
  half n = float.div (float.of_nat n) (float.of_nat 2)

  unfoldable pub set_zoom : F → F → F → State → State
  unfolding zoom_at
  set_zoom next x y s = record s { view = zoom_at next x y s.view; hovered = none }

  unfoldable pub reset_view : State → State
  reset_view s = record s {
    view = record { scale = float.of_nat 1; x = float.of_nat 0; y = float.of_nat 0 };
    hovered = none;
  }

  -- `Math.min(MAX_ZOOM, Math.max(view.scale * 1.9, 2))`
  unfoldable pub zoom_cluster : Cluster float → State → State
  zoom_cluster cluster s =
      let step = float.div (float.of_nat 19) (float.of_nat 10) in
      let scale =
        float.lowest max_zoom (float.greatest (float.mul s.view.scale step) (float.of_nat 2)) in
      record s {
        view = record {
          scale = scale;
          x = float.sub (half width) (float.mul cluster.x scale);
          y = float.sub (half height) (float.mul cluster.y scale);
        };
        hovered = none;
      }

  unfoldable pub event_point : Option Rect → F → F → F × F
  event_point none client_x client_y = (half width, half height)
  event_point (some rect) client_x client_y = (
    float.mul (float.div (float.sub client_x rect.left) rect.width) (float.of_nat width),
    float.mul (float.div (float.sub client_y rect.top) rect.height) (float.of_nat height),
  )

  pub data Event : Type 0 where
    zoom_in zoom_out reset : Event
    wheel : Bool → Option Rect → F → F → Event
    double_click : Option Rect → F → F → Event
    pointer_down : ℕ → ℕ → F → F → Event
    pointer_move : Option Rect → ℕ → F → F → Event
    pointer_end : ℕ → Event
    hover : Option String → Event
    activate : Cluster float → Event

  unfoldable pub on_wheel : Bool → F × F → State → State
  unfolding set_zoom
  on_wheel up (x, y) s =
      let factor =
        if up
        then float.div (float.of_nat 5) (float.of_nat 4)
        else float.div (float.of_nat 4) (float.of_nat 5) in
      set_zoom (float.mul s.view.scale factor) x y s

  unfoldable pub on_double_click : F × F → State → State
  unfolding set_zoom
  on_double_click (x, y) s =
      set_zoom (float.mul s.view.scale (float.div (float.of_nat 17) (float.of_nat 10))) x y s

  unfoldable pub on_pointer_down : ℕ → ℕ → F → F → State → State
  on_pointer_down button id x y s =
      if button == 0
      then record s { drag = some (record { id = id; x = x; y = y }); dragging = true }
      else s

  abbrev pub moved : Option Drag → Option Rect → ℕ → F → F → State → State
  moved none rect id x y s = s
  moved (some drag) none id x y s = s
  moved (some drag) (some rect) id x y s =
      if drag.id == id
      then record s {
        drag = some (record { id = id; x = x; y = y });
        view = record s.view {
          x =
              float.add s.view.x
                (float.mul (float.div (float.sub x drag.x) rect.width) (float.of_nat width));
          y =
              float.add s.view.y
                (float.mul (float.div (float.sub y drag.y) rect.height) (float.of_nat height));
        };
        hovered = none;
      }
      else s

  abbrev pub ended : Option Drag → ℕ → State → State
  ended none id s = s
  ended (some drag) id s = if drag.id == id then record s { drag = none; dragging = false } else s

  -- What a marker does: it opens one host, lists the hosts of a cluster at the greatest zoom, and
  -- zooms to a cluster before that.
  pub data Action : Type 0 where
    select : MapEntry → Action
    select_cluster : List MapEntry → Action
    zoom : Action

  abbrev pub nearly_max : F
  nearly_max = float.sub max_zoom (float.div (float.of_nat 1) (float.of_nat 100))

  unfoldable pub action : Cluster float → State → Option Action
  action cluster s =
      if ltb 1 (length cluster.points) && not (float.lt s.view.scale nearly_max)
      then some (select_cluster (map (λ i. i.point) cluster.points))
      else if ltb 1 (length cluster.points)
      then some zoom
      else elim cluster.points [ [] ↦ none | i ∷ rest ↦ some (select i.point) ]

  abbrev pub zooms : Option Action → Bool
  zooms (some zoom) = true
  zooms _ = false

  unfoldable pub handle : Event → State → State
  unfolding set_zoom reset_view zoom_cluster event_point on_wheel on_double_click on_pointer_down
      action
  handle zoom_in s =
      set_zoom (float.mul s.view.scale (float.div (float.of_nat 3) (float.of_nat 2))) (half width)
        (half height) s
  handle zoom_out s =
      set_zoom (float.div s.view.scale (float.div (float.of_nat 3) (float.of_nat 2))) (half width)
        (half height) s
  handle reset s = reset_view s
  handle (wheel up rect x y) s = on_wheel up (event_point rect x y) s
  handle (double_click rect x y) s = on_double_click (event_point rect x y) s
  handle (pointer_down button id x y) s = on_pointer_down button id x y s
  handle (pointer_move rect id x y) s = moved s.drag rect id x y s
  handle (pointer_end id) s = ended s.drag id s
  handle (hover id) s = record s { hovered = id }
  handle (activate cluster) s = if zooms (action cluster s) then zoom_cluster cluster s else s

  unfoldable pub mount : State
  mount = record {
    view = record { scale = float.of_nat 1; x = float.of_nat 0; y = float.of_nat 0 };
    hovered = none;
    dragging = false;
    drag = none;
  }

  unfoldable pub run : State → List Event → State
  unfolding handle
  run s [] = s
  run s (e ∷ events) = run (handle e s) events
