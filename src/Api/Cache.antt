-- ===== src/Api/Cache.antt =====
-- `statsCache` and `api.stats` of api.ts. A promise is the number of the request that made it; the
-- clock is an argument, in milliseconds.
pub mod Laws
use reachable_web_observator.Common.{
  ltb, if◌then◌else◌, nat_eq, string_eq, ℕ, ◌+◌, ◌-◌, ◌<◌, ◌&&◌, Option, none, some, List, [], ◌∷◌,
}
use reachable_web_observator.Js.Map.{lookup, put, delete}

abbrev pub stats_ttl_ms : ℕ
stats_ttl_ms = 30000

pub record Entry : Type 0 where
  pub at : ℕ
  pub promise : ℕ

-- `sent` lists the requests that were sent, newest first, each with its promise and time range.
pub record Cache : Type 0 where
  pub entries : List (ℕ × Entry)
  pub next : ℕ
  pub sent : List (ℕ × ℕ)

-- `hit && Date.now() - hit.at < STATS_TTL_MS`
unfoldable pub fresh : ℕ → Option Entry → Option ℕ
fresh now none = none
fresh now (some hit) = if ltb (now - hit.at) stats_ttl_ms then some hit.promise else none

-- The rest of `api.stats`, from the promise of a fresh entry.
unfoldable pub answer : ℕ → ℕ → Cache → Option ℕ → Cache × ℕ
answer now range c (some promise) = (c, promise)
answer now range c none = (
  record {
    entries = put range (record { at = now; promise = c.next }) c.entries;
    next = c.next + 1;
    sent = (c.next, range) ∷ c.sent;
  },
  c.next,
)

-- `api.stats(range)`: the new state and the promise that is returned.
abbrev pub fresh_hit : ℕ → ℕ → Cache → Option ℕ
fresh_hit now range c = fresh now (lookup range c.entries)

unfoldable pub stats : ℕ → ℕ → Cache → Cache × ℕ
unfolding fresh answer
stats now range c = answer now range c (fresh_hit now range c)

-- The `catch` of a request for `range`.
unfoldable pub fail : ℕ → Cache → Cache
fail range c = record c { entries = delete range c.entries }

abbrev pub empty : Cache
empty = record { entries = []; next = 0; sent = [] }

-- What the callers see over time: a call at a time, and the failure of a request for a range.
pub data Event : Type 0 where
  call : ℕ → ℕ → Event
  failure : ℕ → Event

unfoldable pub step : Event → Cache → Cache
unfolding stats fail
step (call at range) c = (stats at range c).0
step (failure range) c = fail range c

unfoldable pub run : Cache → List Event → Cache
unfolding step
run c [] = c
run c (e ∷ events) = run (step e c) events
