-- ===== src/Stats/Bars/Laws.antt =====
-- Every bar is drawn within its track.
use reachable_web_observator.Common.{
  All, nat_eq, string_eq, ℕ, ◌*◌, ◌≤◌, String, ◌≡◌, refl, sym, subst, Option, List, [], ◌∷◌, map,
  arith,
}
use reachable_web_observator.Js.Map.{lookup}
use reachable_web_observator.Js.Params.{Params}
use reachable_web_observator.Js.Ranking.{Locale}
use reachable_web_observator.Js.Ranking.Laws.{ranked-IsRanking, IsDescending, IsDescending-take}
use reachable_web_observator.Api.Types.{Counts}
use reachable_web_observator.Stats.Rates.{bar_rows, count_of}
use reachable_web_observator.Stats.Bars.{
  BarRow, width_parts, rows_of, bar_row, first_value, bars_or, bar_list, largest_value,
}

-- The value is at most the largest one, and the width is from 2 to 100 percent: `width_parts` is
-- the width times the largest value.
abbrev pub IsDrawn : BarRow → Type 0
IsDrawn row =
    (row.value ≤ row.largest)
    × (2 * row.largest ≤ width_parts row)
    × (width_parts row ≤ 100 * row.largest)

pub IsDrawn-of_le : (row : BarRow) → row.value ≤ row.largest → IsDrawn row
unfolding width_parts
IsDrawn-of_le row h = (h, ground arith, ground arith)

All-bar_row :
    (P : BarRow → Type 0) (largest : ℕ) (color suffix : String)
    (link_for : Option (String → Params)) (rows : Counts)
    → All (λ r. P (bar_row largest color suffix link_for r)) rows
    → All P (map (bar_row largest color suffix link_for) rows)
All-bar_row P largest color suffix link_for [] h = tt
All-bar_row P largest color suffix link_for (row ∷ rows) h =
    (h.0, All-bar_row P largest color suffix link_for rows h.1)

first_value-IsLargest :
    (rows : Counts) → IsDescending (λ r. r.1) rows → All (λ r. r.1 ≤ first_value rows) rows
first_value-IsLargest [] h = tt
first_value-IsLargest (row ∷ rows) h = (omega arith, h.0)

All-IsDrawn :
    (largest : ℕ) (color suffix : String) (link_for : Option (String → Params)) (rows : Counts)
    → All (λ r. r.1 ≤ largest) rows
    → All (λ r. IsDrawn (bar_row largest color suffix link_for r)) rows
All-IsDrawn largest color suffix link_for [] h = tt
All-IsDrawn largest color suffix link_for (row ∷ rows) h =
    (IsDrawn-of_le _ h.0, All-IsDrawn largest color suffix link_for rows h.1)

rows_of-bars_or : (text : String) (rows : List BarRow) → rows_of (bars_or text rows) ≡ rows
rows_of-bars_or text [] = refl
rows_of-bars_or text (row ∷ rows) = refl

pub rows-bar_list :
    (P : BarRow → Type 0) (locale : Locale) (data_ : Counts) (color : String) (limit : ℕ)
    (suffix : String) (link_for : Option (String → Params))
    → let rows = bar_rows locale data_ limit in
      All (λ r. P (bar_row (first_value rows) color suffix link_for r)) rows
      → All P (rows_of (bar_list locale data_ color limit suffix link_for))
unfolding bar_list
rows-bar_list P locale data_ color limit suffix link_for h =
    subst (All P) (sym (rows_of-bars_or "no data" _)) (All-bar_row P _ color suffix link_for _ h)

pub bar_list-IsDrawn :
    (locale : Locale) (data_ : Counts) (color : String) (limit : ℕ) (suffix : String)
    (link_for : Option (String → Params))
    → All IsDrawn (rows_of (bar_list locale data_ color limit suffix link_for))
unfolding bar_rows
bar_list-IsDrawn locale data_ color limit suffix link_for =
    rows-bar_list IsDrawn locale data_ color limit suffix link_for (
      All-IsDrawn _ color suffix link_for _ (
        first_value-IsLargest _
          (IsDescending-take (λ r. r.1) limit _ (ranked-IsRanking locale data_).1)))

-- The largest value is at least 1, and at least each count.
pub count_of-largest_value :
    (label : String) (data_ : Counts) → count_of label data_ ≤ largest_value data_
unfolding largest_value lookup
count_of-largest_value label [] = omega arith
count_of-largest_value label ((k, value) ∷ rest) =
    let below = count_of-largest_value label rest in ground (arith, below)
