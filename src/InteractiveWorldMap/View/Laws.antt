-- ===== src/InteractiveWorldMap/View/Laws.antt =====
-- The zoom of the map stays within its bounds.
use reachable_web_observator.Common.{
  ◌==◌, if◌then◌else◌, is_some, Bool-cases, nat_eq, string_eq, ℕ, ◌≤◌, ◌≡◌, refl, ◌∙◌, inl, inr,
  Bool, true, false, Option, none, some, List, [], ◌∷◌, arith,
}
use reachable_web_observator.Js.Float.{Float, Order, IsAtMost, IsNumber, IsSmall}
use reachable_web_observator.InteractiveWorldMap.Clusters.{Cluster}
use reachable_web_observator.InteractiveWorldMap.View.{
  wheel, double_click, pointer_down, pointer_move, pointer_end, hover, activate, zoom_in, zoom_out,
  reset, State, Event, Drag, Rect, clamp, zoom_at, set_zoom, reset_view, zoom_cluster, on_wheel,
  on_double_click, on_pointer_down, moved, ended, action, zooms, handle, mount, run,
}

module _ (float : Float) (order : Order float) where
  pub record IsValid (s : State float) : Type 0 where
    pub low : IsAtMost float (float.of_nat 1) s.view.scale
    pub high : IsAtMost float s.view.scale (float.of_nat 8)
    pub dragged : s.dragging ≡ is_some s.drag

  IsNumber-of_nat : (n : ℕ) → n ≤ 1000 → IsNumber float (float.of_nat n)
  IsNumber-of_nat n h = order.of_nat_mono n n (omega arith) h

  -- The zoom of a valid view is a small number, and so are the factors that it is changed by.
  IsSmall-scale : (s : State float) → IsValid s → IsSmall float s.view.scale
  IsSmall-scale s v = (
    order.at_most_trans _ (float.of_nat 1) _ (order.of_nat_mono 0 1 (omega arith) (omega arith))
        v.low,
    order.at_most_trans _ (float.of_nat 8) _ v.high
        (order.of_nat_mono 8 1000 (omega arith) (omega arith)),
  )

  scaled-IsNumber :
      (m n : ℕ) (s : State float)
      → IsValid s
      → 1 ≤ n
      → m ≤ 1000
      → n ≤ 1000
      → IsNumber float (float.mul s.view.scale (float.div (float.of_nat m) (float.of_nat n)))
  scaled-IsNumber m n s v one hm hn =
      order.mul_number _ _ (IsSmall-scale s v) (order.ratio_small m n one hm hn)

  between-lowest :
      (a : float.F)
      → IsNumber float a
      → IsAtMost float (float.of_nat 1) a
      → IsAtMost float (float.of_nat 1) (float.lowest (float.of_nat 8) a)
        × IsAtMost float (float.lowest (float.of_nat 8) a) (float.of_nat 8)
  between-lowest a number above = (
    order.lowest_of_bounds _ _ _ (order.of_nat_mono 1 8 (omega arith) (omega arith)) above,
    order.lowest_left _ _ (IsNumber-of_nat 8 (omega arith)) number,
  )

  between-clamp :
      (a : float.F)
      → IsNumber float a
      → IsAtMost float (float.of_nat 1) (clamp float a)
        × IsAtMost float (clamp float a) (float.of_nat 8)
  unfolding clamp
  between-clamp a number =
      let one = IsNumber-of_nat 1 (omega arith) in
      between-lowest _ (order.greatest_number _ a one number) (order.greatest_left _ a one number)

  set_zoom-IsValid :
      (next x y : float.F) (s : State float)
      → IsNumber float next
      → IsValid s
      → IsValid (set_zoom float next x y s)
  unfolding set_zoom zoom_at
  set_zoom-IsValid next x y s number v = record {
    low = (between-clamp next number).0;
    high = (between-clamp next number).1;
    dragged = v.dragged;
  }

  zoom_cluster-IsValid :
      (c : Cluster float) (s : State float) → IsValid s → IsValid (zoom_cluster float c s)
  unfolding zoom_cluster
  zoom_cluster-IsValid c s v =
      let product = scaled-IsNumber 19 10 s v (omega arith) (omega arith) (omega arith) in
      let two = IsNumber-of_nat 2 (omega arith) in
      let above =
        order.at_most_trans _ (float.of_nat 2) _ (order.of_nat_mono 1 2 (omega arith) (omega arith))
          (order.greatest_right _ _ product two) in
      let within = between-lowest _ (order.greatest_number _ _ product two) above in
      record { low = within.0; high = within.1; dragged = v.dragged }

  wheel-IsNumber :
      (up : Bool) (s : State float)
      → IsValid s
      → IsNumber float (
          float.mul s.view.scale (
            if up
            then float.div (float.of_nat 5) (float.of_nat 4)
            else float.div (float.of_nat 4) (float.of_nat 5)))
  wheel-IsNumber true s v = scaled-IsNumber 5 4 s v (omega arith) (omega arith) (omega arith)
  wheel-IsNumber false s v = scaled-IsNumber 4 5 s v (omega arith) (omega arith) (omega arith)

  on_pointer_down-IsValid :
      (button id : ℕ) (x y : float.F) (s : State float)
      → IsValid s
      → IsValid (on_pointer_down float button id x y s)
  unfolding on_pointer_down
  on_pointer_down-IsValid button id x y s v = elim (Bool-cases (button == 0)) [
    | inl main ↦ rw main (record { low = v.low; high = v.high; dragged = refl })
    | inr side ↦ rw side v
  ]

  moved-IsValid :
      (d : Option (Drag float)) (r : Option (Rect float)) (id : ℕ) (x y : float.F) (s : State float)
      → s.drag ≡ d
      → IsValid s
      → IsValid (moved float d r id x y s)
  moved-IsValid none r id x y s e v = v
  moved-IsValid (some d) none id x y s e v = v
  moved-IsValid (some d) (some r) id x y s e v = elim (Bool-cases (d.id == id)) [
    | inl mine ↦ rw mine (record { low = v.low; high = v.high; dragged = v.dragged ∙ rw e refl })
    | inr foreign ↦ rw foreign v
  ]

  ended-IsValid :
      (d : Option (Drag float)) (id : ℕ) (s : State float)
      → IsValid s
      → IsValid (ended float d id s)
  ended-IsValid none id s v = v
  ended-IsValid (some d) id s v = elim (Bool-cases (d.id == id)) [
    | inl mine ↦ rw mine (record { low = v.low; high = v.high; dragged = refl })
    | inr foreign ↦ rw foreign v
  ]

  IsValid-of_if :
      {s t : State float} (b : Bool) → IsValid s → IsValid t → IsValid (if b then s else t)
  IsValid-of_if true h k = h
  IsValid-of_if false h k = k

  reset_view-IsValid : (s : State float) → IsValid s → IsValid (reset_view float s)
  unfolding reset_view
  reset_view-IsValid s v = record {
    low = IsNumber-of_nat 1 (omega arith);
    high = order.of_nat_mono 1 8 (omega arith) (omega arith);
    dragged = v.dragged;
  }

  handle-IsValid : (e : Event float) (s : State float) → IsValid s → IsValid (handle float e s)
  unfolding handle on_wheel on_double_click
  handle-IsValid zoom_in s v =
      set_zoom-IsValid _ _ _ s (scaled-IsNumber 3 2 s v (omega arith) (omega arith) (omega arith)) v
  handle-IsValid zoom_out s v =
      set_zoom-IsValid _ _ _ s
        (order.div_number _ _ (IsSmall-scale s v)
          (order.ratio_small 3 2 (omega arith) (omega arith) (omega arith))
          (order.ratio_above 3 2 (omega arith) (omega arith) (omega arith)))
        v
  handle-IsValid reset s v = reset_view-IsValid s v
  handle-IsValid (wheel up rect x y) s v = set_zoom-IsValid _ _ _ s (wheel-IsNumber up s v) v
  handle-IsValid (double_click rect x y) s v =
      set_zoom-IsValid _ _ _ s (scaled-IsNumber 17 10 s v (omega arith) (omega arith) (omega arith))
        v
  handle-IsValid (pointer_down button id x y) s v = on_pointer_down-IsValid button id x y s v
  handle-IsValid (pointer_move rect id x y) s v = moved-IsValid s.drag rect id x y s refl v
  handle-IsValid (pointer_end id) s v = ended-IsValid s.drag id s v
  handle-IsValid (hover id) s v = record { low = v.low; high = v.high; dragged = v.dragged }
  handle-IsValid (activate c) s v =
      IsValid-of_if (zooms float (action float c s)) (zoom_cluster-IsValid c s v) v

  mount-IsValid : IsValid (mount float)
  unfolding mount
  mount-IsValid = record {
    low = IsNumber-of_nat 1 (omega arith);
    high = order.of_nat_mono 1 8 (omega arith) (omega arith);
    dragged = refl;
  }

  run-IsValid :
      (events : List (Event float)) (s : State float) → IsValid s → IsValid (run float s events)
  unfolding run
  run-IsValid [] s v = v
  run-IsValid (e ∷ events) s v = run-IsValid events (handle float e s) (handle-IsValid e s v)

  -- With floating-point numbers, the zoom is a number from 1 to 8, and not NaN, after any events,
  -- and the map counts as dragged exactly while a pointer drags it.
  pub view-IsValid : (events : List (Event float)) → IsValid (run float (mount float) events)
  view-IsValid events = run-IsValid events (mount float) mount-IsValid
