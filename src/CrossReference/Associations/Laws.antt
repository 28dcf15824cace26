-- ===== src/CrossReference/Associations/Laws.antt =====
-- The headings of the feeds and of the network stand over rows.
use reachable_web_observator.Common.{
  ltb, truthy, is_some, or_else, length, nat_eq, string_eq, ℕ, String, ◌≡◌, refl, sym, ap, ◌∙◌,
  true, false, ◌||◌, Option, none, some, [], arith,
}
use reachable_web_observator.Api.Threat.{Enrichment, ThreatIntel, ThreatFox, IpApi}
use reachable_web_observator.CrossReference.Rows.{Rows}
use reachable_web_observator.CrossReference.Rows.Laws.{row_lem, provider_row_lem}
use reachable_web_observator.CrossReference.Associations.{
  feed_rows, threatfox_row, has_feeds, has_net, net_rows, origin_row,
}

module _ (number : ℕ → String) (lower d10 : String → String) where
  threatfox_row_lem :
      (o : Option ThreatFox)
      → ltb 0 (length (threatfox_row number lower d10 o))
        ≡ elim o [ none ↦ false | some f ↦ ltb 0 f.ioc_count ]
  threatfox_row_lem none = refl
  threatfox_row_lem (some f) = row_lem (ltb 0 f.ioc_count) _ _ [] ∙ ground arith

  -- The heading of the threat feeds is shown exactly when the section has a row.
  pub has_feeds-eq :
      (t : Option ThreatIntel) → has_feeds t ≡ ltb 0 (length (feed_rows number lower d10 t))
  unfolding has_feeds feed_rows
  has_feeds-eq none = refl
  has_feeds-eq (some t) = sym (
      provider_row_lem (λ o. ltb 0 o.pulse_count) "AlienVault OTX" _ t.otx
        (threatfox_row number lower d10 t.threatfox)
      ∙ ap (λ b. elim t.otx [ none ↦ false | some o ↦ ltb 0 o.pulse_count ] || b)
          (threatfox_row_lem t.threatfox))

origin_row_lem :
    (e : Enrichment) (o : Option IpApi) (rest : Rows)
    → ltb 0 (length (origin_row e o rest)) ≡ (
        is_some o
        || (truthy (or_else e.city "") || truthy (or_else e.country ""))
        || ltb 0 (length rest))
origin_row_lem e none rest =
    row_lem (truthy (or_else e.city "") || truthy (or_else e.country "")) "Origin" _ rest
origin_row_lem e (some a) rest = ground arith

-- The heading of the network section never stands over an empty list.
pub has_net-rows :
    (last_seen : Option String) (e : Enrichment)
    → has_net e ≡ true
    → ltb 0 (length (net_rows last_seen e)) ≡ true
unfolding has_net net_rows
has_net-rows last_seen e h = simp (row_lem, provider_row_lem, origin_row_lem) (ground arith)
