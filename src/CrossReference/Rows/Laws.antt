-- ===== src/CrossReference/Rows/Laws.antt =====
-- A section's heading stands over at least one row.
use reachable_web_observator.Common.{
  ltb, is_some, length, nat_eq, string_eq, String, ◌≡◌, refl, ap, ◌∙◌, Bool, false, ◌||◌, Option,
  none, some, arith,
}
use reachable_web_observator.Api.Threat.{Enrichment, ThreatIntel}
use reachable_web_observator.CrossReference.Rows.{
  exposure_rows, has_exposure, reputation_rows, intel_rows, flags, known_risk, provider_row, row,
  Rows,
}

pub row_lem :
    (b : Bool) (label text : String) (rest : Rows)
    → ltb 0 (length (row b label text rest)) ≡ (b || ltb 0 (length rest))
row_lem b label text rest = ground arith

-- The heading of the exposure section is shown exactly when the section has a row.
pub has_exposure-eq : (e : Enrichment) → has_exposure e ≡ ltb 0 (length (exposure_rows e))
unfolding has_exposure exposure_rows
has_exposure-eq e = simp row_lem (ground arith)

-- What the reputation section has to say: a flag, a report, or a known risk of Pulsedive.
abbrev pub speaks : Option ThreatIntel → Bool
speaks none = false
speaks (some t) =
    is_some t.virustotal
    || is_some t.abuseipdb
    || is_some t.greynoise
    || is_some t.ipqs
    || elim t.pulsedive [ none ↦ false | some p ↦ known_risk p ]

pub provider_row_lem :
    {A : Type 0} (shown : A → Bool) (label : String) (text : A → String) (o : Option A)
    (rest : Rows)
    → ltb 0 (length (provider_row shown label text o rest))
      ≡ (elim o [ none ↦ false | some a ↦ shown a ] || ltb 0 (length rest))
provider_row_lem shown label text none rest = refl
provider_row_lem shown label text (some a) rest = row_lem (shown a) label (text a) rest

intel_rows-speaks :
    (d10 : String → String) (t : Option ThreatIntel) → ltb 0 (length (intel_rows d10 t)) ≡ speaks t
unfolding intel_rows
intel_rows-speaks d10 none = refl
intel_rows-speaks d10 (some t) = simp provider_row_lem (ground arith)

-- The reputation section has a row exactly when there is a network flag, a report of one of the
-- first four providers, or a known risk of Pulsedive.
pub reputation_rows-speaks :
    (d10 : String → String) (t : Option ThreatIntel)
    → ltb 0 (length (reputation_rows d10 t)) ≡ (ltb 0 (length (flags t)) || speaks t)
unfolding reputation_rows
reputation_rows-speaks d10 t =
    row_lem (ltb 0 (length (flags t))) "Network flags" _ (intel_rows d10 t)
    ∙ ap (λ b. ltb 0 (length (flags t)) || b) (intel_rows-speaks d10 t)
