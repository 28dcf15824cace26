-- ===== src/Js/Ranking.antt =====
-- The ranking of counted labels that the pages share: `b[1] - a[1] || a[0].localeCompare(b[0])`.
-- The locale's order is a parameter.
pub mod Laws
use reachable_web_observator.Common.{
  ltb, ◌==◌, nat_eq, string_eq, ℕ, ◌-◌, ◌<◌, String, ◌≡◌, Bool, true, false, ◌&&◌, ◌||◌, List,
}
use reachable_web_observator.Js.Sort.{sort_by}

-- `localeCompare(a, b) < 0`, and what the sort relies on: it is a strict weak order.
pub record Locale : Type 0 where
  pub lt : String → String → Bool
  pub lt_asym : (a b : String) → lt a b ≡ true → lt b a ≡ false
  pub lt_trans : (a b c : String) → lt b a ≡ false → lt c b ≡ false → lt c a ≡ false

abbrev pub ranks_before : Locale → String × ℕ → String × ℕ → Bool
ranks_before locale a b = ltb b.1 a.1 || a.1 == b.1 && locale.lt a.0 b.0

unfoldable pub ranked : Locale → List (String × ℕ) → List (String × ℕ)
ranked locale counts = sort_by (ranks_before locale) counts
