-- ===== src/Api/Cache/Laws.antt =====
-- What the cache of `api.stats` guarantees.
use reachable_web_observator.Common.{
  ◌==◌, if◌then◌else◌, Bool-cases, All, nat_eq, string_eq, ℕ, ◌+◌, ◌<◌, ◌≡◌, refl, sym, ap, ◌∙◌,
  subst, ◌≢◌, inl, inr, false, Option, none, some, List, [], ◌∷◌, arith,
}
use reachable_web_observator.Js.Map.{put, lookup}
use reachable_web_observator.Js.Map.Laws.{
  lookup-upsert, lookup-delete, IsDistinct, upsert-IsDistinct, delete-IsDistinct,
}
use reachable_web_observator.Api.Cache.{
  Cache, stats_ttl_ms, fresh_hit, fresh, answer, stats, fail, Event, call, failure, step, run,
}

-- A range stands at most once in the cache.
abbrev pub IsValid : Cache → Type 0
IsValid c = IsDistinct c.entries

answer-IsValid :
    (now range : ℕ) (c : Cache) (hit : Option ℕ) → IsValid c → IsValid (answer now range c hit).0
unfolding answer
answer-IsValid now range c (some p) v = v
answer-IsValid now range c none v =
    upsert-IsDistinct range (λ _. record { at = now; promise = c.next }) c.entries v

-- Calls and failures keep the cache valid.
stats-IsValid : (now range : ℕ) (c : Cache) → IsValid c → IsValid (stats now range c).0
unfolding stats
stats-IsValid now range c v = answer-IsValid now range c (fresh_hit now range c) v

fail-IsValid : (range : ℕ) (c : Cache) → IsValid c → IsValid (fail range c)
unfolding fail
fail-IsValid range c v = delete-IsDistinct range c.entries v

lookup-put :
    (now range other p : ℕ) (c : Cache)
    → lookup other (put range (record { at = now; promise = p }) c.entries)
      ≡ (if range == other then some (record { at = now; promise = p }) else lookup other c.entries)
lookup-put now range other p c =
    lookup-upsert range other (λ _. record { at = now; promise = p }) c.entries

-- What happens before the entry made at `now` expires, without a failure of its range.
abbrev pub IsQuiet : ℕ → ℕ → Event → Type 0
IsQuiet now range (call at other) = at < now + stats_ttl_ms
IsQuiet now range (failure other) = other ≢ range

-- The cache has the promise that was made for the range.
abbrev Keeps : ℕ → ℕ → ℕ → Cache → Type 0
Keeps now range p c = IsValid c × (lookup range c.entries ≡ some (record { at = now; promise = p }))

fresh_hit-Keeps :
    (now later range p : ℕ) (c : Cache)
    → Keeps now range p c
    → later < now + stats_ttl_ms
    → fresh_hit later range c ≡ some p
unfolding fresh
fresh_hit-Keeps now later range p c (v, kept) soon = rw kept (ground arith)

answer-Keeps :
    (now range p at other : ℕ) (c : Cache) (hit : Option ℕ)
    → (other == range) ≡ false
    → Keeps now range p c
    → Keeps now range p (answer at other c hit).0
unfolding answer
answer-Keeps now range p at other c (some q) apart k = k
answer-Keeps now range p at other c none apart (v, kept) = (
  upsert-IsDistinct other (λ _. record { at = at; promise = c.next }) c.entries v,
  lookup-put at other range c.next c ∙ rw apart kept,
)

step-Keeps :
    (now range p : ℕ) (e : Event) (c : Cache)
    → IsQuiet now range e
    → Keeps now range p c
    → Keeps now range p (step e c)
unfolding step stats answer fail
step-Keeps now range p (call at other) c soon k = elim (Bool-cases (other == range)) [
  | inl same ↦
      let equal : range ≡ other = ground arith in
      let hit : fresh_hit at other c ≡ some p =
        subst (λ r. fresh_hit at r c ≡ some p) equal (fresh_hit-Keeps now at range p c k soon) in
      rw (step, hit) k
  | inr apart ↦ answer-Keeps now range p at other c (fresh_hit at other c) apart k
]
step-Keeps now range p (failure other) c apart (v, kept) = (
  delete-IsDistinct other c.entries v,
  lookup-delete other range c.entries v ∙ ground (arith, kept),
)

run-Keeps :
    (now range p : ℕ) (events : List Event) (c : Cache)
    → All (IsQuiet now range) events
    → Keeps now range p c
    → Keeps now range p (run c events)
unfolding run
run-Keeps now range p [] c quiet k = k
run-Keeps now range p (e ∷ events) c (q, quiet) k =
    run-Keeps now range p events (step e c) quiet (step-Keeps now range p e c q k)

-- A call that sends a request shares its promise with a later call for the same range within the
-- time to live: whatever calls, for any ranges, and whatever failures of other ranges come between,
-- within that time, the later call gets the promise and sends nothing.
pub stats_shared :
    (now later range : ℕ) (c : Cache) (events : List Event)
    → IsValid c
    → fresh_hit now range c ≡ none
    → All (IsQuiet now range) events
    → later < now + stats_ttl_ms
    → stats later range (run (stats now range c).0 events)
      ≡ (run (stats now range c).0 events, (stats now range c).1)
unfolding stats answer
stats_shared now later range c events v miss quiet soon =
    let first : Keeps now range c.next (stats now range c).0 = rw miss (
      upsert-IsDistinct range (λ _. record { at = now; promise = c.next }) c.entries v,
      lookup-put now range range c.next c ∙ ground arith,
    ) in
    let last = run-Keeps now range c.next events (stats now range c).0 quiet first in
    let promise : (stats now range c).1 ≡ c.next = rw miss refl in
    let after : Cache = run (stats now range c).0 events in
    rw (fresh_hit-Keeps now later range c.next after last soon) (ap (λ p. (after, p)) (sym promise))

-- Once a request has failed, the next call for its range sends a new one, however fresh the entry
-- was.
pub stats-fail :
    (now range : ℕ) (c : Cache)
    → IsValid c
    → (stats now range (fail range c)).0.sent ≡ (c.next, range) ∷ c.sent
unfolding stats answer fresh fail
stats-fail now range c v = rw (lookup-delete range range c.entries v) (ground arith)

fresh_hit-answer_of_other :
    (now later range other : ℕ) (c : Cache) (hit : Option ℕ)
    → range ≢ other
    → fresh_hit later other (answer now range c hit).0 ≡ fresh_hit later other c
unfolding answer
fresh_hit-answer_of_other now later range other c (some p) ne = refl
fresh_hit-answer_of_other now later range other c none ne =
    ap (fresh later) (rw (lookup-put now range other c.next c) (ground arith))

-- Neither a call nor a failure for one range changes what a call for another one finds.
fresh_hit_of_other :
    (now later range other : ℕ) (c : Cache)
    → IsValid c
    → range ≢ other
    → (fresh_hit later other (stats now range c).0 ≡ fresh_hit later other c)
      × (fresh_hit later other (fail range c) ≡ fresh_hit later other c)
unfolding fail stats
fresh_hit_of_other now later range other c v ne = (
  fresh_hit-answer_of_other now later range other c (fresh_hit now range c) ne,
  ap (fresh later) (rw (lookup-delete range other c.entries v) (ground arith)),
)
