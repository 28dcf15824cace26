-- ===== src/Fetch.antt =====
-- The fetch effect of a page that shows the answer for a key: pages/Signal.tsx, whose key is the
-- address and the port, and components/CrossReference.tsx, whose key is the address.
pub mod Laws
use reachable_web_observator.Js.Map.{lookup}
use reachable_web_observator.Common.{
  ◌==◌, if◌then◌else◌, nat_eq, string_eq, ℕ, ◌+◌, Bool, Option, none, some, List, [], ◌∷◌,
}

pub data Status : Type 0 where
  loading ok error : Status

-- One run of the effect. It is alive as long as the state names it.
pub record Flight (K : Type 0) : Type 0 where
  pub id : ℕ
  pub key : K

-- `sent` lists the requests that were sent, newest first, each with its key.
pub record State (K D : Type 0) : Type 0 where
  pub key : K
  pub answer : Option D
  pub status : Status
  pub live : Option (Flight K)
  pub next_id : ℕ
  pub sent : List (ℕ × K)

pub data Event (K : Type 0) : Type 0 where
  set_key : K → Event K
  resolve reject : ℕ → Event K

-- `same` is the comparison of the dependencies, and `reply n k` is what the server answers to the
-- request `n`, which asks for `k`.
module _ {K D : Type 0} (same : K → K → Bool) (reply : ℕ → K → D) where
  unfoldable pub alive : ℕ → State K D → Option (Flight K)
  alive id s = elim s.live [ none ↦ none | some run ↦ if run.id == id then some run else none ]

  -- What the server answers goes by the key that the request `id` was sent with.
  unfoldable pub resolved : ℕ → Option (Flight K) → Option K → State K D → State K D
  resolved id (some run) (some asked) s = record s { answer = some (reply id asked); status = ok }
  resolved id run asked s = s

  unfoldable pub rejected : Option (Flight K) → State K D → State K D
  rejected none s = s
  rejected (some run) s = record s { status = error }

  unfoldable pub handle : Event K → State K D → State K D
  unfolding alive resolved rejected
  handle (set_key k) s = record s { key = k }
  handle (resolve id) s = resolved id (alive id s) (lookup id s.sent) s
  handle (reject id) s = rejected (alive id s) s

  unfoldable pub fetch_effect : State K D → State K D
  fetch_effect s = record s {
    status = loading;
    live = some (record { id = s.next_id; key = s.key });
    next_id = s.next_id + 1;
    sent = (s.next_id, s.key) ∷ s.sent;
  }

  unfoldable pub commit : State K D → State K D → State K D
  unfolding fetch_effect
  commit old s = if same old.key s.key then s else fetch_effect s

  unfoldable pub step : Event K → State K D → State K D
  unfolding commit handle
  step e s = commit s (handle e s)

  unfoldable pub mount : K → State K D
  unfolding fetch_effect
  mount k =
      fetch_effect
        (record { key = k; answer = none; status = loading; live = none; next_id = 0; sent = [] })

  unfoldable pub run : State K D → List (Event K) → State K D
  unfolding step
  run s [] = s
  run s (e ∷ events) = run (step e s) events
