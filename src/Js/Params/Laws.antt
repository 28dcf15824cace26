-- ===== src/Js/Params/Laws.antt =====
-- Reading back what was set.
use reachable_web_observator.Common.{
  if◌then◌else◌, nat_eq, string_eq, String, ◌≡◌, refl, Bool, true, false, none, some, [], arith,
  str_eq,
}
use reachable_web_observator.Js.Map.{lookup}
use reachable_web_observator.Js.Map.Laws.{lookup-upsert}
use reachable_web_observator.Js.Params.{Params, get, set, set_if}

pub get-set :
    (name other value : String) (params : Params)
    → get other (set name value params)
      ≡ (if str_eq name other then some value else get other params)
get-set name other value params = lookup-upsert name other (λ _. value) params

pub get-set_if :
    (guard : Bool) (name other value : String) (params : Params)
    → get other (set_if guard name value params) ≡ (
        if str_eq name other
        then (if guard then some value else get other params)
        else get other params)
unfolding set_if
get-set_if true name other value params = get-set name other value params
get-set_if false name other value params = ground arith

pub get-empty : (name : String) → get name [] ≡ none
unfolding lookup
get-empty name = refl

pub ruleset params_laws = (get-set, get-set_if, get-empty)
