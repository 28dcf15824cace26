-- ===== src/Signal/Page.antt =====
-- The fetch of the record, whose key is the address and the port, and what the page shows.
pub mod Laws
use reachable_web_observator.Common.{
  if◌then◌else◌, truthy, ◌+++◌, nat_eq, string_eq, ℕ, String, Bool, true, false, ◌&&◌, Option, none,
  some, List, str_eq,
}
use reachable_web_observator.Api.Types.{SignalDetail}
use reachable_web_observator.Metadata.{RouteMeta}
use reachable_web_observator.Fetch as Fetch
use reachable_web_observator.Fetch.{Status, loading, ok, error}

abbrev pub Address : Type 0
Address = String × String

-- The comparison of the dependencies `ip` and `port`.
abbrev pub same_address : Address → Address → Bool
same_address a b = str_eq a.0 b.0 && str_eq a.1 b.1

abbrev pub State : Type 0
State = Fetch.State Address SignalDetail

unfoldable pub open_page : (ℕ → Address → SignalDetail) → Address → State
open_page reply address = Fetch.mount same_address reply address

unfoldable pub session : (ℕ → Address → SignalDetail) → State → List (Fetch.Event Address) → State
session reply s events = Fetch.run same_address reply s events

unfoldable pub meta : Address → RouteMeta
meta (ip, port) = record {
  title =
      if truthy ip && truthy port
      then ip +++ ":" +++ port +++ " — Reachable Web Observatory record"
      else "Record — Reachable Web Observatory";
  description = some "A point-in-time capture and telemetry record for a discovered web service.";
  path = none;
  no_index = true;
  follow_when_no_index = false;
}

pub data Panel : Type 0 where
  waiting not_found : Panel
  observation : SignalDetail → Panel

abbrev pub panel_of : Status → Option SignalDetail → Panel
panel_of loading answer = waiting
panel_of error answer = not_found
panel_of ok none = not_found
panel_of ok (some d) = observation d

unfoldable pub panel : State → Panel
panel s = panel_of s.status s.answer
