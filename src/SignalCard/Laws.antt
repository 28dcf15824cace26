-- ===== src/SignalCard/Laws.antt =====
-- No claim about a host without its provenance.
use reachable_web_observator.Common.{
  is_some, nat_eq, string_eq, ℕ, String, ◌≡◌, ◌||◌, Option, arith,
}
use reachable_web_observator.Api.Types.{Tile}
use reachable_web_observator.SignalCard.{
  flagged, provenance, provenance_text, verdict_badge, cve_badge,
}

-- A card names the sources of its third-party data exactly when it has a reputation badge or a CVE
-- badge: it never shows one of these without its provenance.
provenance-badges :
    (parse : String → Option ℕ) (now : ℕ) (t : Tile)
    → is_some (provenance_text parse now t) ≡ (is_some (verdict_badge t) || is_some (cve_badge t))
unfolding provenance_text provenance verdict_badge cve_badge flagged
provenance-badges parse now t = ground arith
