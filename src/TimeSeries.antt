-- ===== src/TimeSeries.antt =====
-- components/TimeSeries.tsx: the points, the extremes and the cursor of a chart. The coordinates
-- in the drawing are not modelled.
pub mod Laws
use reachable_web_observator.Common.{
  ltb, if◌then◌else◌, length, last_or, ◌+++◌, nat_eq, string_eq, ℕ, zero, suc, ◌-◌, min, max,
  String, Bool, not, Option, none, some, List, [], ◌∷◌,
}
use reachable_web_observator.Int.{ℤ, pos, negsuc}
use reachable_web_observator.Js.Number.{show}
use reachable_web_observator.Js.Ranking.{Locale}
use reachable_web_observator.Js.Sort.{sort_by}
use reachable_web_observator.Api.Types.{Counts}

abbrev pub Point : Type 0
Point = String × ℕ

-- `a[0].localeCompare(b[0])`
abbrev pub by_label : Locale → Point → Point → Bool
by_label locale a b = locale.lt a.0 b.0

unfoldable pub points : Locale → Counts → List Point
points locale data_ = sort_by (by_label locale) data_

-- `Math.max(...values, 1)`
unfoldable pub highest : List Point → ℕ
highest [] = 1
highest (p ∷ rest) = max p.1 (highest rest)

-- `points.reduce(...)`, from the point that stands so far.
unfoldable pub lowest_from : Point → List Point → Point
lowest_from a [] = a
lowest_from a (b ∷ rest) = lowest_from (if ltb b.1 a.1 then b else a) rest

unfoldable pub highest_from : Point → List Point → Point
highest_from a [] = a
highest_from a (b ∷ rest) = highest_from (if ltb a.1 b.1 then b else a) rest

-- `Math.max(0, Math.min(points.length - 1, i))`; `i` is the rounded index under the pointer.
unfoldable pub clamped : ℕ → ℤ → ℕ
clamped count (pos i) = min (count - 1) i
clamped count (negsuc i) = 0

abbrev pub nth {ℓ} : {A : Type ℓ} → ℕ → List A → Option A
nth n [] = none
nth zero (x ∷ xs) = some x
nth (suc n) (x ∷ xs) = nth n xs

-- The pointer: `onMove` and `onMouseLeave`.
unfoldable pub moved : List Point → ℤ → Option ℕ
unfolding clamped
moved shown i = some (clamped (length shown) i)

abbrev pub left : Option ℕ
left = none

abbrev pub point_at : List Point → Option ℕ → Option Point
point_at shown none = none
point_at shown (some i) = nth i shown

-- `number` is the locale's form of a number.
module _ (number : ℕ → String) (unit : String) where
  abbrev pub sentence : Point → List Point → String
  sentence first rest =
      let low = lowest_from first rest in
      let high = highest_from first rest in
      let last = last_or rest first in
      show (length (first ∷ rest))
      +++ " observations from "
      +++ first.0
      +++ " to "
      +++ last.0
      +++ ". Minimum "
      +++ number low.1
      +++ " "
      +++ unit
      +++ " on "
      +++ low.0
      +++ "; maximum "
      +++ number high.1
      +++ " "
      +++ unit
      +++ " on "
      +++ high.0
      +++ "; latest "
      +++ number last.1
      +++ " "
      +++ unit
      +++ "."

  -- The summary, and the foot; a chart without points says so.
  unfoldable pub summary : List Point → String
  unfolding lowest_from highest_from show
  summary [] = "no data in range"
  summary (first ∷ rest) = sentence first rest

  abbrev pub range : List Point → String
  range [] = ""
  range (first ∷ rest) = first.0 +++ " → " +++ (last_or rest first).0

  abbrev pub foot_of : List Point → Option Point → String
  foot_of shown none = range shown
  foot_of shown (some p) = number p.1 +++ " " +++ unit +++ " · " +++ p.0 +++ " UTC"

  unfoldable pub foot : List Point → Option ℕ → String
  foot shown hover = foot_of shown (point_at shown hover)
