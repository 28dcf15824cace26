-- ===== src/Search/Grouping.antt =====
-- lib/searchGrouping.ts
pub mod Laws
use reachable_web_observator.Common.{
  if◌then◌else◌, nat_eq, string_eq, ℕ, String, Bool, not, List, [], ◌∷◌, ◌++◌, map,
}
use reachable_web_observator.Js.Map.{values, unique}
use reachable_web_observator.Js.Ascending.{ascending}
use reachable_web_observator.Js.Grouping.{group_by}
use reachable_web_observator.Api.Types.{Tile}

pub record TileGroup : Type 0 where
  pub tile : Tile
  pub ports : List ℕ

abbrev pub tile_key : Tile → String
tile_key tile = tile.ip

abbrev pub new_group : Tile → TileGroup
new_group tile = record { tile = tile; ports = tile.port ∷ [] }

-- `existing.ports.push(tile.port)`
abbrev pub push_port : TileGroup → Tile → TileGroup
push_port group tile = record group { ports = group.ports ++ tile.port ∷ [] }

abbrev pub sort_ports : TileGroup → TileGroup
sort_ports group = record group { ports = ascending (unique group.ports) }

unfoldable pub group_search_tiles : List Tile → Bool → List TileGroup
group_search_tiles tiles group_hosts =
    if not group_hosts
    then map (λ tile. record { tile = tile; ports = [] }) tiles
    else map sort_ports (values (group_by tile_key new_group push_port tiles))
