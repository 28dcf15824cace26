-- ===== src/TopBar/Laws.antt =====
-- The menu closes, and a closed menu leaves the keyboard and the focus alone.
use reachable_web_observator.Common.{
  nat_eq, string_eq, String, ◌≡◌, refl, false, List, [], ◌∷◌, arith, str_eq, eq_iff,
}
use reachable_web_observator.TopBar.{
  State, Event, navigate, escape, pointer_down, handle, route_effect, listen_effect, step, mount,
  run,
}

step-listening : (e : Event) (s : State) → (step e s).listening ≡ (step e s).menu_open
unfolding step listen_effect
step-listening e s = refl

run-listening :
    (events : List Event) (s : State)
    → s.listening ≡ s.menu_open
    → (run s events).listening ≡ (run s events).menu_open
unfolding run
run-listening [] s h = h
run-listening (e ∷ events) s h = run-listening events (step e s) (step-listening e s)

closes :
    (path : String) (s : State)
    → s.listening ≡ s.menu_open
    → (str_eq s.pathname path ≡ false → (step (navigate path) s).menu_open ≡ false)
      × ((step escape s).menu_open ≡ false)
      × ((step (pointer_down false) s).menu_open ≡ false)
      × (s.menu_open ≡ false
          → ((step escape s).focus_requests ≡ s.focus_requests)
            × ((step (pointer_down false) s).focus_requests ≡ s.focus_requests))
unfolding step handle route_effect listen_effect
closes path s h = ground (arith, (eq_iff s.pathname s.pathname).1 refl)

-- In every session the menu is closed by a navigation to another path, by the escape key and by a
-- pointer outside of it, and while it is closed neither the key nor the pointer moves the focus.
menu_closes :
    (start path : String) (events : List Event)
    → let s = run (mount start) events in
      (str_eq s.pathname path ≡ false → (step (navigate path) s).menu_open ≡ false)
      × ((step escape s).menu_open ≡ false)
      × ((step (pointer_down false) s).menu_open ≡ false)
      × (s.menu_open ≡ false
          → ((step escape s).focus_requests ≡ s.focus_requests)
            × ((step (pointer_down false) s).focus_requests ≡ s.focus_requests))
unfolding mount
menu_closes start path events =
    closes path (run (mount start) events) (run-listening events (mount start) refl)
