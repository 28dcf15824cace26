-- ===== src/CrossReference/Panel/Sections.antt =====
-- The headings of the four sections and their rows.
use reachable_web_observator.Common.{
  ltb, length, nat_eq, string_eq, ℕ, String, ◌≡◌, Bool, true, ◌||◌, Option,
}
use reachable_web_observator.Api.Threat.{Enrichment}
use reachable_web_observator.CrossReference.Rows.{
  Rows, has_exposure, exposure_rows, reputation_rows, flags,
}
use reachable_web_observator.CrossReference.Rows.Laws.{
  has_exposure-eq, reputation_rows-speaks, speaks,
}
use reachable_web_observator.CrossReference.Associations.{has_feeds, feed_rows, has_net, net_rows}
use reachable_web_observator.CrossReference.Associations.Laws.{has_feeds-eq, has_net-rows}

abbrev pub is_filled : Rows → Bool
is_filled rows = ltb 0 (length rows)

-- The headings of the exposure and of the threat feeds are shown exactly when their sections have a
-- row, and the heading of the network never stands over an empty list. The reputation has a row
-- exactly when there is a network flag, a report of one of the first four providers, or a known
-- risk of Pulsedive.
pub headings-rows :
    (number : ℕ → String) (lower d10 : String → String) (last_seen : Option String) (e : Enrichment)
    → (has_exposure e ≡ is_filled (exposure_rows e))
      × (has_feeds e.threat ≡ is_filled (feed_rows number lower d10 e.threat))
      × (has_net e ≡ true → is_filled (net_rows last_seen e) ≡ true)
      × (is_filled (reputation_rows d10 e.threat)
          ≡ (ltb 0 (length (flags e.threat)) || speaks e.threat))
headings-rows number lower d10 last_seen e = (
  has_exposure-eq e,
  has_feeds-eq number lower d10 e.threat,
  has_net-rows last_seen e,
  reputation_rows-speaks d10 e.threat,
)
