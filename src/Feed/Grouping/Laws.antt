-- ===== src/Feed/Grouping/Laws.antt =====
-- Grouping the feed by host against grouping the search results by host.
use reachable_web_observator.Common.{
  if◌then◌else◌, Bool-cases, ◌+++◌, nat_eq, string_eq, ℕ, String, ◌≡◌, refl, sym, ap₂, ◌∙◌, inl,
  inr, true, ◌||◌, List, [], ◌∷◌, ◌++◌, map, arith, str_eq, eq_iff,
}
use text.Mathlib.TextLemmas.{append_cancel_right}
use reachable_web_observator.Js.Map.{values, contains, unique, unique_from, upsert}
use reachable_web_observator.Js.Ascending.{ascending, contains-unique_from}
use reachable_web_observator.Js.Grouping.{extend, group_from}
use reachable_web_observator.Api.Types.{Tile}
use reachable_web_observator.Search.Grouping.{
  TileGroup, tile_key, new_group, push_port, sort_ports, group_search_tiles,
}
use reachable_web_observator.Feed.Grouping.{group_key, add_port, in_order, feed_groups}

host_suffix_eq : (a b : String) → str_eq (a +++ ":" +++ "host") (b +++ ":" +++ "host") ≡ str_eq a b
host_suffix_eq a b = elim (Bool-cases (str_eq a b)) [
  | inl same ↦
      (rw ((eq_iff a b).0 same) ((eq_iff (b +++ ":" +++ "host") (b +++ ":" +++ "host")).1 refl))
      ∙ sym same
  | inr ne ↦ elim (Bool-cases (str_eq (a +++ ":" +++ "host") (b +++ ":" +++ "host"))) [
    | inl e ↦
        let h = (eq_iff (a +++ ":" +++ "host") (b +++ ":" +++ "host")).0 e in
        e
        ∙ sym (
            (eq_iff a b).1
              (append_cancel_right a b ":" (append_cancel_right (a +++ ":") (b +++ ":") "host" h)))
    | inr f ↦ f ∙ sym ne
  ]
]

unique_from-snoc :
    (seen xs : List ℕ) (p : ℕ)
    → unique_from seen (xs ++ p ∷ []) ≡ (
        if contains seen p || contains xs p
        then unique_from seen xs
        else unique_from seen xs ++ p ∷ [])
unfolding unique_from contains
unique_from-snoc seen [] p = ground arith
unique_from-snoc seen (x ∷ xs) p =
    ground (arith, unique_from-snoc seen xs p, unique_from-snoc (x ∷ seen) xs p)

-- The feed's groups are the search page's, with the ports already without repetition.
Related : List (String × TileGroup) → List (String × TileGroup) → Type 0
Related [] [] = Unit
Related ((k, g) ∷ gs) ((j, h) ∷ hs) =
    (k ≡ j +++ ":" +++ "host") × (g.tile ≡ h.tile) × (g.ports ≡ unique h.ports) × Related gs hs
Related _ _ = ⊥

ports-add_port :
    (t : Tile) (g h : TileGroup)
    → g.ports ≡ unique h.ports
    → (add_port g t).ports ≡ unique (push_port h t).ports
unfolding contains
ports-add_port t g h e =
    ground (arith, contains-unique_from [] h.ports t.port, unique_from-snoc [] h.ports t.port)

tile-add_port : (t : Tile) (g : TileGroup) → (add_port g t).tile ≡ g.tile
tile-add_port t g = ground arith

upsert-Related :
    (t : Tile) (gs hs : List (String × TileGroup))
    → Related gs hs
    → Related
        (upsert (group_key true t) (extend (group_key true) new_group add_port t) gs)
        (upsert t.ip (extend tile_key new_group push_port t) hs)
unfolding Related upsert unique_from contains
upsert-Related t [] [] r = (refl, refl, refl, tt)
upsert-Related t [] (h ∷ hs) r = elim r [ ]
upsert-Related t (g ∷ gs) [] r = elim r [ ]
upsert-Related t ((k, g) ∷ gs) ((j, h) ∷ hs) (rk, rt, rp, r) = elim (Bool-cases (str_eq j t.ip)) [
  | inl same ↦
      rw (rk, host_suffix_eq j t.ip, same)
        (refl, tile-add_port t g ∙ rt, ports-add_port t g h rp, r)
  | inr ne ↦ rw (rk, host_suffix_eq j t.ip, ne) (refl, rt, rp, upsert-Related t gs hs r)
]

group_from-Related :
    (tiles : List Tile) (gs hs : List (String × TileGroup))
    → Related gs hs
    → Related
        (group_from (group_key true) new_group add_port gs tiles)
        (group_from tile_key new_group push_port hs tiles)
unfolding group_from
group_from-Related [] gs hs r = r
group_from-Related (t ∷ tiles) gs hs r = group_from-Related tiles _ _ (upsert-Related t gs hs r)

values-Related :
    (gs hs : List (String × TileGroup))
    → Related gs hs
    → map in_order (values gs) ≡ map sort_ports (values hs)
unfolding Related
values-Related [] [] r = refl
values-Related [] (h ∷ hs) r = elim r [ ]
values-Related (g ∷ gs) [] r = elim r [ ]
values-Related ((k, g) ∷ gs) ((j, h) ∷ hs) (rk, rt, rp, r) =
    ap₂ ◌∷◌ (ap₂ (λ x y. record { tile = x; ports = ascending y }) rt rp) (values-Related gs hs r)

-- Grouped by host, the feed shows the same groups as the search page does for the same tiles: the
-- same hosts in the same order, with the same ports.
pub feed_groups_by_host :
    (tiles : List Tile) → feed_groups tiles true ≡ group_search_tiles tiles true
unfolding feed_groups group_search_tiles Related
feed_groups_by_host tiles = values-Related _ _ (group_from-Related tiles [] [] tt)
