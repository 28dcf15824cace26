-- ===== src/CrossReference/Panel/Laws.antt =====
-- What the section shows belongs to its address.
use reachable_web_observator.Common.{
  ltb, truthy, Bool-cases, some_inj, length, nat_eq, string_eq, ℕ, String, ◌≡◌, refl, sym, ap, ◌∙◌,
  inl, inr, true, ◌||◌, Option, none, some, List, arith, str_eq, eq_iff,
}
use reachable_web_observator.Api.Threat.{Enrichment}
use reachable_web_observator.Fetch as Fetch
use reachable_web_observator.Fetch.{Status, loading, ok, error}
use reachable_web_observator.Fetch.Laws.{session-IsValid}
use reachable_web_observator.CrossReference.Rows.{text_of}
use reachable_web_observator.CrossReference.Panel.{
  panel_of, open_section, session, has_data, sections, panel, headings,
}

facts_of_sections :
    (status : Status) (answer : Option Enrichment) (e : Enrichment)
    → panel_of status answer ≡ sections e
    → (status ≡ ok) × (answer ≡ some e) × (has_data e ≡ true)
facts_of_sections loading answer e h = cc
facts_of_sections error answer e h = cc
facts_of_sections ok none e h = cc
facts_of_sections ok (some d) e h = elim (Bool-cases (has_data d)) [
  | inl full ↦
      let k = rw full at h in
      let same : d ≡ e = cc in (refl, ap some same, sym (ap has_data same) ∙ full)
  | inr bare ↦ let k = rw bare at h in cc
]

headings_of_data :
    (e : Enrichment)
    → has_data e ≡ true
    → truthy (text_of e.verdict) || ltb 0 (length (headings e)) ≡ true
unfolding has_data headings
headings_of_data e h = ground arith

-- What is shown as the enrichment of a host is an answer to a request for that host, and has a
-- verdict or a section.
pub panel-sections :
    (reply : ℕ → String → Enrichment) (ip : String) (events : List (Fetch.Event String))
    (e : Enrichment)
    → let s = session reply (open_section reply ip) events in
      panel s ≡ sections e
      → ((id : ℕ) × (e ≡ reply id s.key))
        × (truthy (text_of e.verdict) || ltb 0 (length (headings e)) ≡ true)
unfolding session open_section panel
panel-sections reply ip events e h =
    let s = session reply (open_section reply ip) events in
    let v = session-IsValid str_eq reply (λ a b k. (eq_iff a b).0 k) ip events in
    let (done, answered, filled) = facts_of_sections s.status s.answer e h in
    let (id, replied) = v.shown done in
    ((id, some_inj (sym answered ∙ replied)), headings_of_data e filled)
