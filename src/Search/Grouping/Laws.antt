-- ===== src/Search/Grouping/Laws.antt =====
-- What grouping the results by host guarantees.
use mathlib.Core.List.{Memᴰ}
use reachable_web_observator.Common.{
  ◌==◌, Bool-cases, some_inj, any, All, nat_eq, string_eq, ℕ, String, ◌≡◌, refl, sym, ap, ◌∙◌, ◌≢◌,
  inl, inr, Bool, true, false, ◌&&◌, ◌||◌, Option, none, some, List, [], ◌∷◌, ◌++◌, map, arith,
  str_eq, eq_iff,
}
use reachable_web_observator.Js.Map.{lookup, contains, values}
use reachable_web_observator.Js.Map.Laws.{IsDistinct, IsFresh, lookup_of_entry}
use reachable_web_observator.Js.Ascending.{IsAscending, ascending-unique}
use reachable_web_observator.Js.Grouping.{extend, group_by}
use reachable_web_observator.Js.Grouping.Laws.{
  group_from-IsDistinct, group_from-IsKeyed, group_from-Covers, lookup-group_from, collect,
}
use reachable_web_observator.Api.Types.{Tile}
use reachable_web_observator.Search.Grouping.{
  TileGroup, tile_key, new_group, push_port, sort_ports, group_search_tiles,
}

-- Some tile shows the host `ip` at `port`.
abbrev pub is_served : String → ℕ → List Tile → Bool
is_served ip port tiles = any (λ t. str_eq t.ip ip && t.port == port) tiles

has_port : ℕ → Option TileGroup → Bool
has_port port none = false
has_port port (some g) = contains g.ports port

contains-append :
    (xs ys : List ℕ) (x : ℕ) → contains (xs ++ ys) x ≡ (contains xs x || contains ys x)
unfolding contains
contains-append [] ys x = refl
contains-append (z ∷ zs) ys x = ground (arith, contains-append zs ys x)

has_port-push :
    (port : ℕ) (o : Option TileGroup) (t : Tile)
    → has_port port (some (elim o [ none ↦ new_group t | some g ↦ push_port g t ]))
      ≡ (has_port port o || t.port == port)
unfolding has_port contains
has_port-push port none t = ground arith
has_port-push port (some g) t = ground (arith, contains-append g.ports (t.port ∷ []) port)

has_port-collect :
    (ip : String) (port : ℕ) (o : Option TileGroup) (tiles : List Tile)
    → has_port port (collect tile_key new_group push_port ip o tiles)
      ≡ (has_port port o || is_served ip port tiles)
has_port-collect ip port o [] = ground arith
has_port-collect ip port o (t ∷ tiles) = elim (Bool-cases (str_eq t.ip ip)) [
  | inl found ↦ rw found (
      has_port-collect ip port (some (extend tile_key new_group push_port t o)) tiles
      ∙ ground (arith, has_port-push port o t))
  | inr other ↦ rw other (has_port-collect ip port o tiles)
]

-- The groups before their ports are sorted.
abbrev host_groups : List Tile → List (String × TileGroup)
host_groups tiles = group_by tile_key new_group push_port tiles

host_groups-IsDistinct : (tiles : List Tile) → IsDistinct (host_groups tiles)
host_groups-IsDistinct tiles = group_from-IsDistinct tile_key new_group push_port [] tiles tt

host_groups-IsKeyed : (tiles : List Tile) → All (λ p. p.1.tile.ip ≡ p.0) (host_groups tiles)
host_groups-IsKeyed tiles =
    group_from-IsKeyed tile_key new_group push_port (λ g. g.tile.ip) (λ t. refl) (λ g t. refl) []
      tiles tt

contains-host_groups :
    (ip : String) (port : ℕ) (g : TileGroup) (tiles : List Tile)
    → lookup ip (host_groups tiles) ≡ some g
    → contains g.ports port ≡ is_served ip port tiles
unfolding has_port lookup
contains-host_groups ip port g tiles found =
    ap (has_port port) (sym found ∙ lookup-group_from tile_key new_group push_port ip [] tiles)
    ∙ has_port-collect ip port none tiles

-- No host has two groups.
abbrev pub HasDistinctHosts : List TileGroup → Type 0
HasDistinctHosts [] = Unit
HasDistinctHosts (g ∷ gs) = All (λ h. h.tile.ip ≢ g.tile.ip) gs × HasDistinctHosts gs

pub record IsGrouping (tiles : List Tile) (groups : List TileGroup) : Type 0 where
  pub one_per_host : HasDistinctHosts groups
  pub sorted : All (λ g. IsAscending g.ports) groups
  pub exact : All (λ g. (port : ℕ) → contains g.ports port ≡ is_served g.tile.ip port tiles) groups
  pub complete : All (λ t. (g : TileGroup) × Memᴰ g groups × (g.tile.ip ≡ t.ip)) tiles

module _ (P : TileGroup → Type 0) where
  All-sorted_values :
      (m : List (String × TileGroup))
      → All (λ e. P (sort_ports e.1)) m
      → All P (map sort_ports (values m))
  All-sorted_values [] h = tt
  All-sorted_values ((k, g) ∷ m) (p, h) = (p, All-sorted_values m h)

All-sorted : (m : List (String × TileGroup)) → All (λ e. IsAscending (sort_ports e.1).ports) m
All-sorted [] = tt
All-sorted ((k, g) ∷ m) = ((ascending-unique g.ports).0, All-sorted m)

All-exact :
    (tiles : List Tile) (m : List (String × TileGroup))
    → All (λ e. lookup e.0 (host_groups tiles) ≡ some e.1) m
    → All (λ e. e.1.tile.ip ≡ e.0) m
    → All
        (λ e. (port : ℕ) → contains (sort_ports e.1).ports port ≡ is_served e.1.tile.ip port tiles)
        m
All-exact tiles [] h k = tt
All-exact tiles ((ip, g) ∷ m) (found, h) (keyed, k) = (
  λ port. (ascending-unique g.ports).1 port ∙ contains-host_groups ip port g tiles found ∙ rw keyed,
  All-exact tiles m h k,
)

HasDistinctHosts-of_IsDistinct :
    (m : List (String × TileGroup))
    → IsDistinct m
    → All (λ e. e.1.tile.ip ≡ e.0) m
    → HasDistinctHosts (map sort_ports (values m))
HasDistinctHosts-of_IsDistinct [] h k = tt
HasDistinctHosts-of_IsDistinct ((ip, g) ∷ m) (fresh, h) (keyed, k) =
    (others m fresh k, HasDistinctHosts-of_IsDistinct m h k)
  where
    others :
        (xs : List (String × TileGroup))
        → IsFresh ip xs
        → All (λ e. e.1.tile.ip ≡ e.0) xs
        → All (λ h. h.tile.ip ≢ g.tile.ip) (map sort_ports (values xs))
    others [] f q = tt
    others ((j, x) ∷ xs) (ne, f) (q, qs) = (λ e. ne (sym q ∙ e ∙ keyed), others xs f qs)

mem_of_lookup :
    (ip : String) (g : TileGroup) (m : List (String × TileGroup))
    → lookup ip m ≡ some g
    → Memᴰ (sort_ports g) (map sort_ports (values m))
unfolding lookup
mem_of_lookup ip g [] h = cc
mem_of_lookup ip g ((k, x) ∷ m) h = elim (Bool-cases (str_eq k ip)) [
  | inl found ↦ Memᴰ.head (ap sort_ports (sym (some_inj (rw found at h))))
  | inr other ↦ Memᴰ.tail (mem_of_lookup ip g m (rw other at h))
]

keyed_of_lookup :
    (ip : String) (g : TileGroup) (m : List (String × TileGroup))
    → All (λ e. e.1.tile.ip ≡ e.0) m
    → lookup ip m ≡ some g
    → g.tile.ip ≡ ip
unfolding lookup
keyed_of_lookup ip g [] k h = cc
keyed_of_lookup ip g ((j, x) ∷ m) (keyed, k) h = elim (Bool-cases (str_eq j ip)) [
  | inl found ↦ ap (λ y. y.tile.ip) (sym (some_inj (rw found at h))) ∙ keyed ∙ (eq_iff j ip).0 found
  | inr other ↦ keyed_of_lookup ip g m k (rw other at h)
]

-- Grouped by host, each host of the results has exactly one group; its ports are those at which
-- some result shows the host, strictly ascending.
pub group_search_tiles-IsGrouping :
    (tiles : List Tile) → IsGrouping tiles (group_search_tiles tiles true)
unfolding group_search_tiles
group_search_tiles-IsGrouping tiles = record {
  one_per_host =
      HasDistinctHosts-of_IsDistinct groups (host_groups-IsDistinct tiles)
        (host_groups-IsKeyed tiles);
  sorted = All-sorted_values (λ g. IsAscending g.ports) groups (All-sorted groups);
  exact =
      All-sorted_values (λ g. (port : ℕ) → contains g.ports port ≡ is_served g.tile.ip port tiles)
        groups
        (All-exact tiles groups (lookup_of_entry groups (host_groups-IsDistinct tiles))
          (host_groups-IsKeyed tiles));
  complete = complete tiles (
      group_from-Covers tile_key new_group push_port (λ g t. Unit {0}) (λ t. tt) (λ g t. tt)
        (λ g t u h. tt) [] tiles);
}
  where
    groups : List (String × TileGroup)
    groups = host_groups tiles

    complete :
        (ts : List Tile)
        → All (λ t. (g : TileGroup) × (lookup t.ip groups ≡ some g) × Unit {0}) ts
        → All
            (λ t. (g : TileGroup) × Memᴰ g (map sort_ports (values groups)) × (g.tile.ip ≡ t.ip))
            ts
    complete [] h = tt
    complete (t ∷ ts) ((g, found, u), h) = (
      (
        sort_ports g,
        mem_of_lookup t.ip g groups found,
        keyed_of_lookup t.ip g groups (host_groups-IsKeyed tiles) found,
      ),
      complete ts h,
    )

-- Without grouping every result is shown by itself, in its place.
group_search_tiles_ungrouped :
    (tiles : List Tile) → map (λ g. g.tile) (group_search_tiles tiles false) ≡ tiles
unfolding group_search_tiles
group_search_tiles_ungrouped [] = refl
group_search_tiles_ungrouped (t ∷ tiles) = ap (t ∷◌) (group_search_tiles_ungrouped tiles)
