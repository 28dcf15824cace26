-- ===== src/Js/Params.antt =====
-- `URLSearchParams` as the program uses it: pairs in order, where `set` replaces the value of a
-- present name and appends a new one.
pub mod Laws
use reachable_web_observator.Common.{string_eq, String, Bool, Option, List, is_some, if◌then◌else◌}
use reachable_web_observator.Js.Map.{lookup, upsert}

abbrev pub Params : Type 0
Params = List (String × String)

-- `params.get(name)`
abbrev pub get : String → Params → Option String
get name params = lookup name params

-- `params.has(name)`
abbrev pub has : String → Params → Bool
has name params = is_some (lookup name params)

-- `params.set(name, value)`
abbrev pub set : String → String → Params → Params
set name value params = upsert name (λ _. value) params

-- `if (guard) params.set(name, value)`
unfoldable pub set_if : Bool → String → String → Params → Params
set_if guard name value params = if guard then set name value params else params
