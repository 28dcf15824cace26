-- ===== src/Time.antt =====
-- lib/time.ts: the compact relative time. An instant is a number of milliseconds from the earliest
-- date that the platform knows; `Date.parse` is a parameter that has no result where it gives NaN.
pub mod Laws
use reachable_web_observator.Common.{
  ltb, if◌then◌else◌, truthy, ◌+++◌, nat_eq, string_eq, ℕ, ◌-◌, ◌/◌, max, String, Option, none,
  some,
}
use reachable_web_observator.Js.Number.{show}

pub data Age : Type 0 where
  just_now : Age
  minutes hours days months years : ℕ → Age

-- The age of `ms` milliseconds; `Math.floor` of the quotient at each level.
unfoldable pub age : ℕ → Age
age ms =
    let mins = ms / 60000 in
    let hrs = mins / 60 in
    let day = hrs / 24 in
    let month = day / 30 in
    if ltb ms 60000
    then just_now
    else if ltb mins 60
    then minutes mins
    else if ltb hrs 24
    then hours hrs
    else if ltb day 30
    then days day
    else if ltb month 12
    then months month
    else years (month / 12)

unfoldable pub show_age : Age → String
unfolding show
show_age just_now = "just now"
show_age (minutes n) = show n +++ "m ago"
show_age (hours n) = show n +++ "h ago"
show_age (days n) = show n +++ "d ago"
show_age (months n) = show n +++ "mo ago"
show_age (years n) = show n +++ "y ago"

unfoldable pub ago_at : ℕ → Option ℕ → String
unfolding age show_age
ago_at now none = ""
ago_at now (some then_) = show_age (age (now - then_))

-- `timeAgo`; subtraction stops at 0 as `Math.max(0, …)` does.
unfoldable pub time_ago : (String → Option ℕ) → ℕ → Option String → String
unfolding ago_at
time_ago parse now none = ""
time_ago parse now (some iso) = if truthy iso then ago_at now (parse iso) else ""
