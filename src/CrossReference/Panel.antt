-- ===== src/CrossReference/Panel.antt =====
-- The fetch of the enrichment, whose key is the address, and what the section shows.
pub mod Laws
pub mod Sections
use reachable_web_observator.Common.{
  if◌then◌else◌, truthy, nat_eq, string_eq, ℕ, String, Bool, ◌||◌, Option, none, some, List, [],
  ◌∷◌, str_eq,
}
use reachable_web_observator.Api.Threat.{Enrichment, ThreatIntel}
use reachable_web_observator.Fetch as Fetch
use reachable_web_observator.Fetch.{Status, loading, ok, error}
use reachable_web_observator.CrossReference.Rows.{
  Rows, has_exposure, has_rep, exposure_rows, reputation_rows, text_of, verdict_label,
}
use reachable_web_observator.CrossReference.Associations.{has_feeds, has_net, feed_rows, net_rows}

abbrev pub State : Type 0
State = Fetch.State String Enrichment

unfoldable pub open_section : (ℕ → String → Enrichment) → String → State
open_section reply ip = Fetch.mount str_eq reply ip

unfoldable pub session : (ℕ → String → Enrichment) → State → List (Fetch.Event String) → State
session reply s events = Fetch.run str_eq reply s events

-- `hasData`
unfoldable pub has_data : Enrichment → Bool
has_data e =
    has_exposure e
    || has_rep e.threat
    || has_feeds e.threat
    || has_net e
    || truthy (text_of e.verdict)

pub data Panel : Type 0 where
  cross_referencing unreachable no_records : Panel
  sections : Enrichment → Panel

abbrev pub records_of : Option Enrichment → Panel
records_of none = no_records
records_of (some e) = if has_data e then sections e else no_records

abbrev pub panel_of : Status → Option Enrichment → Panel
panel_of loading answer = cross_referencing
panel_of error answer = unreachable
panel_of ok answer = records_of answer

unfoldable pub panel : State → Panel
unfolding has_data
panel s = panel_of s.status s.answer

-- The headings of the sections that are there, under the verdict.
abbrev pub heading : Bool → String → List String → List String
heading b text rest = if b then text ∷ rest else rest

unfoldable pub headings : Enrichment → List String
headings e = heading (has_exposure e) "Host exposure associations" (
    heading (has_rep e.threat) "◇ Reputation" (
      heading (has_feeds e.threat) "◇ Threat feeds"
        (heading (has_net e) "◇ Network & ownership" [])))
