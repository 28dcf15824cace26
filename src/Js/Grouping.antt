-- ===== src/Js/Grouping.antt =====
-- The loop that groups items in a `Map`: the first item of a key makes a group, each later one
-- extends it.
pub mod Laws
use reachable_web_observator.Common.{nat_eq, string_eq, String, Option, none, some, List, [], ◌∷◌}
use reachable_web_observator.Js.Map.{upsert}

module _ {ℓ κ} {A : Type ℓ} {G : Type κ} (key : A → String) (fresh : A → G) (grow : G → A → G) where
  -- What the group of an item's key becomes.
  abbrev pub extend : A → Option G → G
  extend a none = fresh a
  extend a (some g) = grow g a

  unfoldable pub group_from : List (String × G) → List A → List (String × G)
  group_from groups [] = groups
  group_from groups (a ∷ rest) = group_from (upsert (key a) (extend a) groups) rest

  abbrev pub group_by : List A → List (String × G)
  group_by items = group_from [] items
