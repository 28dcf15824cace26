-- ===== src/InteractiveWorldMap/Clusters/Laws.antt =====
-- The clusters of the map against the cells of the grid.
use reachable_web_observator.Common.{
  Bool-cases, length, length-append, length-map, All, All-append, ◌+++◌, nat_eq, string_eq, ℕ, ◌+◌,
  String, ◌≡◌, refl, sym, ap, ap₂, ◌∙◌, subst, inl, inr, some, List, [], ◌∷◌, ◌++◌, map, arith,
  str_eq, eq_iff,
}
use reachable_web_observator.Js.Float.{Float}
use reachable_web_observator.Js.Map.Laws.{IsDistinct}
use mathlib.Core.List.{Memᴰ}
use reachable_web_observator.Js.Map.{upsert, lookup}
use reachable_web_observator.Js.Grouping.{extend, group_by, group_from}
use reachable_web_observator.Js.Grouping.Laws.{
  group_from-IsDistinct, Covers, group_from-Covers, total_size, total_size-group_from,
}
use reachable_web_observator.InteractiveWorldMap.Clusters.{
  Projected, Cluster, cell_id, add_item, buckets, sum_by, centre, clusters,
}

module _ (float : Float) (scale : float.F) where
  InCell : String × List (Projected float) → Type 0
  InCell (id, items) = All (λ i. cell_id float scale i ≡ id) items

  upsert-InCell :
      (a : Projected float) (groups : List (String × List (Projected float)))
      → All InCell groups
      → All InCell (
          upsert
            (cell_id float scale a)
            (extend (cell_id float scale) (λ i. i ∷ []) (add_item float) a)
            groups)
  unfolding upsert InCell
  upsert-InCell a [] h = ((refl, tt), tt)
  upsert-InCell a ((id, items) ∷ groups) (h, hs) =
      elim (Bool-cases (str_eq id (cell_id float scale a))) [
        | inl found ↦ rw found (
          All-append (λ i. cell_id float scale i ≡ id) items (a ∷ []) h
              (sym ((eq_iff id (cell_id float scale a)).0 found), tt),
          hs,
        )
        | inr free ↦ rw free (h, upsert-InCell a groups hs)
      ]

  group_from-InCell :
      (items : List (Projected float)) (groups : List (String × List (Projected float)))
      → All InCell groups
      → All InCell (group_from (cell_id float scale) (λ i. i ∷ []) (add_item float) groups items)
  unfolding group_from
  group_from-InCell [] groups h = h
  group_from-InCell (a ∷ items) groups h = group_from-InCell items _ (upsert-InCell a groups h)

  -- The number of points of all clusters.
  abbrev pub size_of : List (Cluster float) → ℕ
  size_of [] = 0
  size_of (c ∷ cs) = length c.points + size_of cs

  -- The cell of the grid: its sides are 34 units of the screen, whatever the scale.
  abbrev pub cell_of : Projected float → String
  cell_of i =
      let side = float.div (float.of_nat 34) scale in
      float.floor_text (float.div i.x side) +++ ":" +++ float.floor_text (float.div i.y side)

  abbrev pub total : float.F → List float.F → float.F
  total sum [] = sum
  total sum (a ∷ rest) = total (float.add sum a) rest

  abbrev pub mean : List float.F → float.F
  mean values = float.div (total (float.of_nat 0) values) (float.of_nat (length values))

  -- The marker stands in the middle of its points.
  abbrev pub IsCentred : Cluster float → Type 0
  IsCentred c = (c.x ≡ mean (map (λ i. i.x) c.points)) × (c.y ≡ mean (map (λ i. i.y) c.points))

  -- The cluster of the point's cell has the point.
  abbrev pub IsShown : List (Cluster float) → Projected float → Type 0
  IsShown cs i =
      (points : List (Projected float)) × (lookup (cell_of i) (map (λ c. (c.id, c.points)) cs)
        ≡ some points)
      × Memᴰ i points

  -- No cell has two clusters, each point is in the cluster of its cell and each cluster has points
  -- of its cell only, as many in all as there are items; and a cluster stands in their middle.
  pub record IsClustering (items : List (Projected float)) (cs : List (Cluster float))
      : Type 0 where
    pub distinct : IsDistinct (map (λ c. (c.id, c.points)) cs)
    pub shown : All (IsShown cs) items
    pub placed : All (λ c. All (λ i. cell_of i ≡ c.id) c.points) cs
    pub complete : size_of cs ≡ length items
    pub centred : All IsCentred cs

  sum_by-total :
      (f : Projected float → float.F) (sum : float.F) (items : List (Projected float))
      → sum_by float f sum items ≡ total sum (map f items)
  unfolding sum_by
  sum_by-total f sum [] = refl
  sum_by-total f sum (i ∷ items) = sum_by-total f (float.add sum (f i)) items

  mean-centre :
      (f : Projected float → float.F) (items : List (Projected float))
      → float.div (sum_by float f (float.of_nat 0) items) (float.of_nat (length items))
        ≡ mean (map f items)
  mean-centre f items =
      ap₂ (λ a n. float.div a (float.of_nat n)) (sum_by-total f (float.of_nat 0) items)
        (sym (length-map f items))

  IsCentred-centre :
      (groups : List (String × List (Projected float))) → All IsCentred (map (centre float) groups)
  unfolding centre
  IsCentred-centre [] = tt
  IsCentred-centre ((id, items) ∷ groups) =
      ((mean-centre (λ i. i.x) items, mean-centre (λ i. i.y) items), IsCentred-centre groups)

  entries-centre :
      (groups : List (String × List (Projected float)))
      → map (λ c. (c.id, c.points)) (map (centre float) groups) ≡ groups
  unfolding centre
  entries-centre [] = refl
  entries-centre ((id, items) ∷ groups) = ap ((id, items) ∷◌) (entries-centre groups)

  placed-centre :
      (groups : List (String × List (Projected float)))
      → All InCell groups
      → All (λ c. All (λ i. cell_id float scale i ≡ c.id) c.points) (map (centre float) groups)
  unfolding centre InCell
  placed-centre [] h = tt
  placed-centre ((id, items) ∷ groups) (h, hs) = (h, placed-centre groups hs)

  size_of-centre :
      (groups : List (String × List (Projected float)))
      → size_of (map (centre float) groups)
        ≡ total_size
            (cell_id float scale)
            (λ i. i ∷ [])
            (add_item float)
            length
            (λ a. refl)
            (λ g a. length-append g (a ∷ []) ∙ omega arith)
            groups
  unfolding centre
  size_of-centre [] = refl
  size_of-centre ((id, items) ∷ groups) = ap (length items +◌) (size_of-centre groups)

  mem-append_last :
      (a : Projected float) (items : List (Projected float)) → Memᴰ a (items ++ a ∷ [])
  mem-append_last a [] = Memᴰ.head refl
  mem-append_last a (b ∷ items) = Memᴰ.tail (mem-append_last a items)

  mem-append :
      (a b : Projected float) (items : List (Projected float))
      → Memᴰ b items
      → Memᴰ b (items ++ a ∷ [])
  mem-append a b [] m = elim m [ ]
  mem-append a b (c ∷ items) (Memᴰ.head e) = Memᴰ.head e
  mem-append a b (c ∷ items) (Memᴰ.tail m) = Memᴰ.tail (mem-append a b items m)

  shown-entries :
      (groups : List (String × List (Projected float))) (items : List (Projected float))
      → All
          (Covers
            (cell_id float scale)
            (λ i. i ∷ [])
            (add_item float)
            (λ g i. Memᴰ i g)
            (λ a. Memᴰ.head refl)
            (λ g a. mem-append_last a g)
            (λ g a b. mem-append a b g)
            groups)
          items
      → All (IsShown (map (centre float) groups)) items
  unfolding cell_id
  shown-entries groups [] h = tt
  shown-entries groups (i ∷ items) ((g, found, m), h) = (
    (g, ap (lookup (cell_of i)) (entries-centre groups) ∙ found, m),
    shown-entries groups items h,
  )

  -- The clusters of the map: each projected point is in the cluster of its cell of the grid, whose
  -- sides are 34 units of the screen at any scale; no cell has two clusters, none has a point of
  -- another cell, and they have as many points as are projected. A marker stands at the mean of its
  -- points.
  pub clusters-IsClustering :
      (items : List (Projected float)) → IsClustering items (clusters float scale items)
  unfolding clusters buckets cell_id
  clusters-IsClustering items =
      let groups = group_by (cell_id float scale) (λ i. i ∷ []) (add_item float) items in
      record {
        distinct = subst IsDistinct (sym (entries-centre groups)) (
            group_from-IsDistinct (cell_id float scale) (λ i. i ∷ []) (add_item float) [] items tt);
        shown = shown-entries groups items (
            group_from-Covers (cell_id float scale) (λ i. i ∷ []) (add_item float) (λ g i. Memᴰ i g)
              (λ a. Memᴰ.head refl) (λ g a. mem-append_last a g) (λ g a b. mem-append a b g) []
              items);
        placed = placed-centre groups (group_from-InCell items [] tt);
        complete =
            size_of-centre groups
            ∙ total_size-group_from (cell_id float scale) (λ i. i ∷ []) (add_item float) length
                (λ a. refl) (λ g a. length-append g (a ∷ []) ∙ omega arith) [] items
            ∙ omega arith;
        centred = IsCentred-centre groups;
      }
