-- ===== src/Time/Laws.antt =====
-- The relative time against the length of its units.
use reachable_web_observator.Common.{nat_eq, string_eq, ℕ, ◌+◌, ◌*◌, ◌≤◌, ◌<◌, arith}
use reachable_web_observator.Time.{Age, just_now, minutes, hours, days, months, years, age}

-- The age is at least one of its unit, and the count is the number of whole units in it. A month
-- is 30 days and a year is 12 such months.
abbrev pub Fits : ℕ → Age → Type 0
Fits ms just_now = ms < 60000
Fits ms (minutes n) = (1 ≤ n) × (n < 60) × (n * 60000 ≤ ms) × (ms < (n + 1) * 60000)
Fits ms (hours n) = (1 ≤ n) × (n < 24) × (n * 3600000 ≤ ms) × (ms < (n + 1) * 3600000)
Fits ms (days n) = (1 ≤ n) × (n < 30) × (n * 86400000 ≤ ms) × (ms < (n + 1) * 86400000)
Fits ms (months n) = (1 ≤ n) × (n < 12) × (n * 2592000000 ≤ ms) × (ms < (n + 1) * 2592000000)
Fits ms (years n) = (1 ≤ n) × (n * 31104000000 ≤ ms) × (ms < (n + 1) * 31104000000)

-- For every age in milliseconds, the shown count is the number of whole units that have passed, it
-- is at least one, and it is below the next unit.
age-Fits : (ms : ℕ) → Fits ms (age ms)
unfolding age
age-Fits ms = ground arith
