-- ===== src/TopBar.antt =====
-- components/TopBar.tsx: the navigation bar, its menu and its counts.
pub mod Laws
use reachable_web_observator.Common.{
  if◌then◌else◌, or_else, ◌+++◌, nat_eq, string_eq, ℕ, ◌+◌, ◌/◌, String, Bool, true, false, not,
  ◌&&◌, Option, none, some, List, [], ◌∷◌, str_eq,
}
use reachable_web_observator.Api.Types.{Stats}
use reachable_web_observator.Js.Map.{lookup}

-- `NAV`
abbrev pub nav : List (String × String)
nav =
    ("/", "OVERVIEW")
    ∷ ("/feed", "FEED")
    ∷ ("/map", "MAP")
    ∷ ("/search", "SEARCH")
    ∷ ("/stats", "STATS")
    ∷ ("/data", "DATA")
    ∷ ("/methodology", "METHODS")
    ∷ []

pub record State : Type 0 where
  pub pathname : String
  pub menu_open : Bool
  pub listening : Bool
  pub focus_requests : ℕ
  pub insecure : Option ℕ
  pub hosts : Option ℕ

pub data Event : Type 0 where
  navigate : String → Event
  toggle_menu escape : Event
  pointer_down : Bool → Event
  loaded : Stats → Event
  failed : Event

abbrev pub close : Bool → State → State
close restore_focus s = record s {
  menu_open = false;
  focus_requests = if restore_focus then s.focus_requests + 1 else s.focus_requests;
}

-- The handlers. The listeners of the document are there while `listening`; `pointer_down` says
-- whether the pointer is in the menu or on its button.
unfoldable pub handle : Event → State → State
handle (navigate path) s = record s { pathname = path }
handle toggle_menu s = record s { menu_open = not s.menu_open }
handle escape s = if s.listening then close true s else s
handle (pointer_down inside) s = if s.listening && not inside then close false s else s
handle (loaded stats) s = record s {
  insecure = some (or_else (lookup "insecure" stats.secure_capture_counts) 0);
  hosts = some stats.totals.hosts;
}
handle failed s = record s { insecure = none; hosts = none }

-- The effect of the route, and then the one that listens while the menu is open.
unfoldable pub route_effect : State → State → State
route_effect old s = if str_eq old.pathname s.pathname then s else record s { menu_open = false }

unfoldable pub listen_effect : State → State
listen_effect s = record s { listening = s.menu_open }

unfoldable pub step : Event → State → State
unfolding handle route_effect listen_effect
step e s = listen_effect (route_effect s (handle e s))

unfoldable pub mount : String → State
mount path = record {
  pathname = path;
  menu_open = false;
  listening = false;
  focus_requests = 0;
  insecure = none;
  hosts = none;
}

unfoldable pub run : State → List Event → State
unfolding step
run s [] = s
run s (e ∷ events) = run (step e s) events

abbrev pub count_of : (ℕ → String) → Option ℕ → Option ℕ → Option String
count_of number (some hosts) (some insecure) =
    some ("◇ " +++ number hosts +++ " hosts · ▲ " +++ number insecure +++ " cleartext")
count_of number hosts insecure = none

unfoldable pub counts_line : (ℕ → String) → State → Option String
counts_line number s = count_of number s.hosts s.insecure
