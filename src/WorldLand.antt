-- ===== src/WorldLand.antt =====
-- lib/worldLand.ts: the world atlas, fetched once and shared by the maps. A promise is the number
-- of the request that made it.
pub mod Laws
use reachable_web_observator.Common.{
  ◌==◌, if◌then◌else◌, nat_eq, string_eq, ℕ, ◌+◌, not, Option, none, some, List, [], ◌∷◌,
}
use reachable_web_observator.Js.Map.{contains}

-- `landPromise`, and the promises that have not settled.
pub record State : Type 0 where
  pub promise : Option ℕ
  pub unsettled : List ℕ
  pub next : ℕ

pub data Event : Type 0 where
  load : Event
  parsed failed : ℕ → Event

abbrev pub land_of : Option ℕ → State → State × ℕ
land_of (some p) s = (s, p)
land_of none s =
    (record { promise = some s.next; unsettled = s.next ∷ s.unsettled; next = s.next + 1 }, s.next)

-- `loadLand`: the new state and the promise that is returned.
unfoldable pub load_land : State → State × ℕ
load_land s = land_of s.promise s

unfoldable pub without : ℕ → List ℕ → List ℕ
without p [] = []
without p (q ∷ qs) = let rest = without p qs in if q == p then rest else q ∷ rest

-- The `catch` forgets the promise. A promise settles once.
unfoldable pub step : Event → State → State
unfolding load_land without
step load s = (load_land s).0
step (parsed p) s =
    if contains s.unsettled p then record s { unsettled = without p s.unsettled } else s
step (failed p) s =
    if contains s.unsettled p
    then record s { promise = none; unsettled = without p s.unsettled }
    else s

unfoldable pub run : State → List Event → State
unfolding step
run s [] = s
run s (e ∷ events) = run (step e s) events

abbrev pub start : State
start = record { promise = none; unsettled = []; next = 0 }
