-- ===== src/TimeSeries/Laws.antt =====
-- The extremes of a chart, and its cursor.
use reachable_web_observator.Common.{nat_eq, string_eq, ℕ, ◌≤◌, ◌≡◌, ◌⊎◌, some, List, [], ◌∷◌}
use reachable_web_observator.Int.{pos}
use reachable_web_observator.TimeSeries.{Point, moved, point_at}

-- A point of the list.
abbrev pub IsPointOf : Point → List Point → Type 0
IsPointOf p [] = ⊥
IsPointOf p (q ∷ rest) = (p ≡ q) ⊎ IsPointOf p rest

-- The bounds that the chart draws and names.
abbrev pub IsWithin : Point → Point → ℕ → Point → Type 0
IsWithin low high top p = (low.1 ≤ p.1) × (p.1 ≤ high.1) × (p.1 ≤ top)

-- The pointer at the index of a point is on that point.
abbrev pub IsReached : List Point → Point → Type 0
IsReached shown p = (i : ℕ) × (point_at shown (moved shown (pos i)) ≡ some p)
