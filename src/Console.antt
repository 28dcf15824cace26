-- ===== src/Console.antt =====
-- pages/Console.tsx: the page that draws random observations. An acquisition is one call of
-- `acquire`, which awaits up to three requests; several can be in flight.
pub mod Laws
pub mod Settling
pub mod Drawn
use reachable_web_observator.Common.{
  ◌==◌, if◌then◌else◌, truthy, is_some, length, take, any, ◌+++◌, nat_eq, string_eq, ℕ, zero, suc,
  ◌+◌, ◌*◌, ◌%◌, String, Bool, true, false, not, ◌&&◌, Option, none, some, List, [], ◌∷◌, map,
}
use mathlib.Core.Option
use reachable_web_observator.Js.Number.{show}
use reachable_web_observator.Js.Map.{lookup, put, delete}
use reachable_web_observator.Api.Types.{
  Tile, ListResponse, RandomCapture, SignalDetail, Stats, Counts,
}
use reachable_web_observator.Stats.Rates.{rounded}

-- `AUTO_SECONDS`
abbrev pub auto_seconds : ℕ
auto_seconds = 6

-- What an acquisition awaits.
pub data Stage : Type 0 where
  random_capture gallery : Stage
  signal : String → ℕ → Stage

pub record State : Type 0 where
  pub detail : Option SignalDetail
  pub loading : Bool
  pub auto : Bool
  pub error : Bool
  pub recent : List Tile
  pub latest : List Tile
  pub stats : Option Stats
  pub pending : List (ℕ × Stage)
  pub next_id : ℕ

-- What a request of an acquisition comes to; a gallery comes with the index that
-- `Math.floor(Math.random() * gal.entries.length)` gives.
pub data Reply : Type 0 where
  capture : RandomCapture → Reply
  entries : ListResponse → ℕ → Reply
  observation : SignalDetail → Reply
  failure : Reply

pub data Event : Type 0 where
  draw toggle_auto tick : Event
  reply : ℕ → Reply → Event
  recent_loaded latest_loaded : ListResponse → Event
  stats_loaded : Stats → Event

abbrev pub nth {ℓ} : {A : Type ℓ} → ℕ → List A → Option A
nth n [] = none
nth zero (x ∷ xs) = some x
nth (suc n) (x ∷ xs) = nth n xs

unfoldable pub acquire : State → State
acquire s = record s {
  loading = true;
  pending = put s.next_id random_capture s.pending;
  next_id = s.next_id + 1;
}

abbrev pub await_stage : ℕ → Stage → State → State
await_stage id stage s = record s { pending = put id stage s.pending }

-- `finally`
abbrev pub settle : ℕ → State → State
settle id s = record s { loading = false; pending = delete id s.pending }

abbrev pub fail : ℕ → State → State
fail id s = settle id (record s { error = true })

abbrev pub draw_from : ℕ → Option Tile → State → State
draw_from id none s = fail id s
draw_from id (some pick) s = await_stage id (signal pick.ip pick.port) s

-- The rest of `acquire`, from what it awaited.
unfoldable pub receive : ℕ → Option Stage → Reply → State → State
receive id (some random_capture) (capture c) s = await_stage id (signal c.ip c.port) s
receive id (some random_capture) failure s = await_stage id gallery s
receive id (some gallery) (entries r i) s = draw_from id (nth i r.entries) s
receive id (some gallery) failure s = fail id s
receive id (some (signal ip port)) (observation d) s =
    settle id (record s { detail = some d; error = false })
receive id (some (signal ip port)) failure s = fail id s
receive id stage r s = s

-- The button is disabled while the page loads, and the timer runs while `auto` is on.
unfoldable pub step : Event → State → State
unfolding acquire receive
step draw s = if s.loading then s else acquire s
step toggle_auto s = record s { auto = not s.auto }
step tick s = if s.auto then acquire s else s
step (reply id r) s = receive id (lookup id s.pending) r s
step (recent_loaded r) s = record s { recent = r.entries }
step (latest_loaded r) s = record s { latest = r.entries }
step (stats_loaded stats) s = record s { stats = some stats }

unfoldable pub mount : State
unfolding acquire
mount = acquire (record {
  detail = none;
  loading = true;
  auto = false;
  error = false;
  recent = [];
  latest = [];
  stats = none;
  pending = [];
  next_id = 0;
})

unfoldable pub run : State → List Event → State
unfolding step
run s [] = s
run s (e ∷ events) = run (step e s) events

-- What the page passes to the viewport as its error.
unfoldable pub viewport_error : State → Bool
viewport_error s = s.error && not (is_some s.detail)

-- `insecureShare`; `Math.round` of a quotient as in the statistics.
abbrev pub share : Option ℕ → ℕ → Option ℕ
share none services = none
share (some insecure) services = if services == 0 then none else some (rounded insecure services)

unfoldable pub insecure_share : Option Stats → Option ℕ
insecure_share none = none
insecure_share (some s) = share (lookup "insecure" s.secure_capture_counts) s.totals.services

-- The strips show four cards each, the latest one only when there are any.
unfoldable pub latest_strip : State → List Tile
latest_strip s = take 4 s.latest

unfoldable pub recent_strip : State → List Tile
recent_strip s = take 4 s.recent

-- The metrics over the page as number and label. `clock` and `day` print an instant's time and day
-- in UTC.
module _ (number : ℕ → String) (clock day : String → String) where
  -- `latest[0]?.updated_at`, where an empty text counts as none.
  abbrev pub latest_observed : List Tile → Option String
  latest_observed [] = none
  latest_observed (tile ∷ rest) = if truthy tile.updated_at then some tile.updated_at else none

  abbrev pub printed : String → (ℕ → String) → Option ℕ → String
  printed missing print none = missing
  printed missing print (some n) = print n

  abbrev pub printed_instant : String → (String → String) → Option String → String
  printed_instant missing print none = missing
  printed_instant missing print (some at) = print at

  abbrev pub insecure_count : Option Stats → Option ℕ
  insecure_count none = none
  insecure_count (some s) = lookup "insecure" s.secure_capture_counts

  unfoldable pub metrics : State → List (String × String)
  unfolding insecure_share show
  metrics s =
      (printed "—" number (Option.map (λ d. d.totals.hosts) s.stats), "distinct hosts")
      ∷ (printed "—" number (Option.map (λ d. d.totals.services) s.stats), "service records")
      ∷ (
        printed "—" show (insecure_share s.stats) +++ "%",
        "cleartext · " +++ printed "—" number (insecure_count s.stats) +++ " services",
      )
      ∷ (
        printed_instant "—" clock (latest_observed s.latest),
        "latest · " +++ printed_instant "not available" day (latest_observed s.latest) +++ " UTC",
      )
      ∷ []

  unfoldable pub browse_text : State → String
  browse_text s =
      "browse all "
      +++ printed "" number (Option.map (λ d. d.totals.hosts) s.stats)
      +++ " hosts observed to date →"
