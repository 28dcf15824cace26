-- ===== src/Feed/Grouping.antt =====
-- The groups of the feed: services of one host with the same stored capture, or all of a host.
pub mod Laws
use reachable_web_observator.Common.{
  if◌then◌else◌, truthy, or_else, length, ◌+++◌, nat_eq, string_eq, ℕ, ◌-◌, String, Bool, ◌||◌,
  List, [], ◌∷◌, ◌++◌, map,
}
use reachable_web_observator.Js.Map.{values, contains}
use reachable_web_observator.Js.Number.{show}
use reachable_web_observator.Js.Ascending.{ascending}
use reachable_web_observator.Js.Grouping.{group_by}
use reachable_web_observator.Api.Types.{Tile}
use reachable_web_observator.Search.Grouping.{TileGroup, new_group}

-- `tile.dom_hash || tile.capture_hash || `${tile.port}``
unfoldable pub capture_identity : Tile → String
unfolding show
capture_identity tile =
    let dom_hash = or_else tile.dom_hash "" in
    if truthy dom_hash
    then dom_hash
    else if truthy tile.capture_hash
    then tile.capture_hash
    else show tile.port

abbrev pub group_key : Bool → Tile → String
group_key group_hosts tile =
    tile.ip +++ ":" +++ (if group_hosts then "host" else capture_identity tile)

-- `if (!existing.ports.includes(tile.port)) existing.ports.push(tile.port)`
abbrev pub add_port : TileGroup → Tile → TileGroup
add_port group tile =
    if contains group.ports tile.port
    then group
    else record group { ports = group.ports ++ tile.port ∷ [] }

abbrev pub in_order : TileGroup → TileGroup
in_order group = record group { ports = ascending group.ports }

unfoldable pub feed_groups : List Tile → Bool → List TileGroup
feed_groups tiles group_hosts =
    map in_order (values (group_by (group_key group_hosts) new_group add_port tiles))

unfoldable pub collapsed_count : List Tile → Bool → ℕ
unfolding feed_groups
collapsed_count tiles group_hosts = length tiles - length (feed_groups tiles group_hosts)
