-- ===== src/Api/Client/Laws.antt =====
-- How a request is classified.
use reachable_web_observator.Common.{
  nat_eq, string_eq, ℕ, ◌≤◌, String, ◌≡◌, refl, ◌↔◌, ◌⊎◌, inl, inr, true, false, none, some, arith,
}
use reachable_web_observator.Api.Client.{
  Body, not_json, json, Reply, unreachable, response, rejected, ApiError, is_ok, get, is_offline,
}

-- The answers that mean that the collector is down: none at all, or an error answer whose status
-- is 500 or more or whose body says so.
pub data MeansDown {ℓ} {T : Type ℓ} : Reply T → Type ℓ where
  no_answer : MeansDown unreachable
  server_error : (status : ℕ) (body : Body T) → 500 ≤ status → MeansDown (response status body)
  reported :
      (status : ℕ) (value : T)
      → is_ok status ≡ false
      → MeansDown (response status (json true value))

module _ {ℓ} {T : Type ℓ} (path : String) where
  MeansDown_of_offline : (reply : Reply T) → is_offline (get path reply) ≡ true → MeansDown reply
  unfolding get is_offline
  MeansDown_of_offline unreachable h = no_answer
  MeansDown_of_offline (response status not_json) h = server_error status not_json (ground arith)
  MeansDown_of_offline (response status (json true value)) h = reported status value (ground arith)
  MeansDown_of_offline (response status (json false value)) h =
      server_error status (json false value) (ground arith)

  offline_of_MeansDown : {reply : Reply T} → MeansDown reply → is_offline (get path reply) ≡ true
  unfolding get is_offline
  offline_of_MeansDown no_answer = refl
  offline_of_MeansDown (server_error status not_json h) = ground arith
  offline_of_MeansDown (server_error status (json offline value) h) = ground arith
  offline_of_MeansDown (reported status value h) = ground arith

  -- A request is reported offline exactly when its answer means that the collector is down; every
  -- other failure stays an ordinary error.
  pub is_offline-get_iff :
      (reply : Reply T) → (is_offline (get path reply) ≡ true) ↔ MeansDown reply
  is_offline-get_iff reply = (MeansDown_of_offline reply, offline_of_MeansDown)

-- A failed request that was answered carries the status of the answer, and one that was not has none.
pub status-get {ℓ} :
    {T : Type ℓ} (path : String) (reply : Reply T) (e : ApiError)
    → get path reply ≡ rejected e
    → ((reply ≡ unreachable) × (e.status ≡ none))
      ⊎ ((status : ℕ) × (body : Body T) × (reply ≡ response status body)
          × (e.status ≡ some status)
          × (is_ok status ≡ false))
unfolding get
status-get path unreachable e h = inl (refl, cc)
status-get path (response status not_json) e h =
    inr (status, not_json, refl, ground arith, ground arith)
status-get path (response status (json offline value)) e h =
    inr (status, json offline value, refl, ground arith, ground arith)
