-- ===== src/Api/Client.antt =====
-- `ApiError`, `isOffline` and `get` of api.ts. What the network answers is an input; a decoded
-- JSON body is whether it says `offline: true`, and the value that it stands for.
pub mod Laws
use reachable_web_observator.Common.{
  ltb, leb, if◌then◌else◌, ◌+++◌, nat_eq, string_eq, ℕ, String, Bool, true, false, ◌&&◌, ◌||◌,
  Option, none, some,
}
use reachable_web_observator.Js.Number.{show}

pub record ApiError : Type 0 where
  pub message : String
  pub offline : Bool
  pub status : Option ℕ

pub data Body {ℓ} (T : Type ℓ) : Type ℓ where
  not_json : Body T
  json : Bool → T → Body T

-- What `fetch` does: it rejects, or it answers with a status and a body.
pub data Reply {ℓ} (T : Type ℓ) : Type ℓ where
  unreachable : Reply T
  response : ℕ → Body T → Reply T

-- A promise that is settled: `SyntaxError` is what `res.json()` rejects with.
pub data Settled {ℓ} (T : Type ℓ) : Type ℓ where
  resolved : T → Settled T
  rejected : ApiError → Settled T
  syntax_error : Settled T

-- `res.ok`
abbrev pub is_ok : ℕ → Bool
is_ok status = leb 200 status && ltb status 300

-- `body && body.offline === true`
abbrev pub says_offline {ℓ} : {T : Type ℓ} → Body T → Bool
says_offline not_json = false
says_offline (json offline value) = offline

unfoldable pub get {ℓ} : {T : Type ℓ} → String → Reply T → Settled T
get path unreachable =
    rejected (record { message = path +++ " → unreachable"; offline = true; status = none })
get path (response status body) =
    if is_ok status
    then elim body [ not_json ↦ syntax_error | json offline value ↦ resolved value ]
    else rejected (record {
      message = path +++ " → " +++ show status;
      offline = leb 500 status || says_offline body;
      status = some status;
    })

-- `isOffline(e)` on what a request rejected with.
unfoldable pub is_offline {ℓ} : {T : Type ℓ} → Settled T → Bool
is_offline (resolved value) = false
is_offline (rejected e) = e.offline
is_offline syntax_error = false
