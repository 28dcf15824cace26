-- ===== src/Int.antt =====
-- Integers over the native numbers, for coordinates. `negsuc n` is -(n + 1).
use reachable_web_observator.Common.{
  leb, ◌==◌, if◌then◌else◌, nat_eq, string_eq, ℕ, suc, ◌+◌, ◌-◌, Bool, false,
}

pub data ℤ : Type 0 where
  pos : ℕ → ℤ
  negsuc : ℕ → ℤ

abbrev pub pos_part : ℤ → ℕ
pos_part (pos n) = n
pos_part (negsuc n) = 0

abbrev pub neg_part : ℤ → ℕ
neg_part (pos n) = 0
neg_part (negsuc n) = suc n

-- `Math.abs(a - b)`
unfoldable pub distance : ℤ → ℤ → ℕ
distance a b =
    let above = pos_part a + neg_part b in
    let below = pos_part b + neg_part a in (above - below) + (below - above)

-- `a !== 0`
abbrev pub is_zero : ℤ → Bool
is_zero (pos n) = n == 0
is_zero (negsuc n) = false

-- `a - b`
unfoldable pub difference : ℕ → ℕ → ℤ
difference a b = if leb b a then pos (a - b) else negsuc (b - a - 1)
