-- ===== src/Common/Text/Laws.antt =====
-- Trimming a text.
use Prim.Native.Char.{Char, code}
use Prim.Native.String.{String}
use mathlib.Core.Path.{◌≡◌, refl}
use mathlib.Core.Bool.{Bool, true, false, not, ◌&&◌}
use mathlib.Core.Logic.{inl, inr}
use native.Mathlib.Omega.{arith}
use text.Mathlib.Text.{◌==◌ as str_eq}
use text.Mathlib.TextEquality.{eq_iff}
use text.Mathlib.TextLemmas.{cons-ne-nil}
use reachable_web_observator.Common.Tests.{if◌then◌else◌, Bool-cases}
use reachable_web_observator.Common.Text.{is_space, trim_start, trim_end, trim}

pub cons-ne-empty : (c : Char) (s : String) → str_eq (String.◌∷◌ c s) "" ≡ false
cons-ne-empty c s = elim (Bool-cases (str_eq (String.◌∷◌ c s) "")) [
  | inl h ↦ absurd (cons-ne-nil c s ((eq_iff (String.◌∷◌ c s) "").0 h))
  | inr h ↦ h
]

-- What `trim_end` does, with the recursive call named.
trim_end_cons : Char → String → String
trim_end_cons c rest = if str_eq rest "" && is_space (code c) then "" else String.◌∷◌ c rest

trim_end-cons : (c : Char) (s : String) → trim_end (String.◌∷◌ c s) ≡ trim_end_cons c (trim_end s)
unfolding trim_end trim_end_cons
trim_end-cons c s = refl

trim_end-trim_end_cons :
    (c : Char) (rest : String)
    → trim_end rest ≡ rest
    → trim_end (trim_end_cons c rest) ≡ trim_end_cons c rest
unfolding trim_end trim_end_cons
trim_end-trim_end_cons c rest h = elim (Bool-cases (str_eq rest "" && is_space (code c))) [
  | inl gone ↦ rw gone
  | inr kept ↦ rw (kept, trim_end, h, kept)
]

trim_end_idempotent : (s : String) → trim_end (trim_end s) ≡ trim_end s
unfolding trim_end
trim_end_idempotent String.[] = refl
trim_end_idempotent (String.◌∷◌ c s) =
    rw (trim_end-cons c s) (trim_end-trim_end_cons c (trim_end s) (trim_end_idempotent s))

-- A text that starts with no white space.
no_lead : String → Bool
no_lead String.[] = true
no_lead (String.◌∷◌ c s) = not (is_space (code c))

no_lead-trim_start : (s : String) → no_lead (trim_start s) ≡ true
unfolding no_lead trim_start
no_lead-trim_start String.[] = refl
no_lead-trim_start (String.◌∷◌ c s) = ground (arith, no_lead-trim_start s)

trim_start_of_no_lead : (s : String) → no_lead s ≡ true → trim_start s ≡ s
unfolding no_lead trim_start
trim_start_of_no_lead String.[] h = refl
trim_start_of_no_lead (String.◌∷◌ c s) h = ground arith

no_lead-trim_end : (s : String) → no_lead s ≡ true → no_lead (trim_end s) ≡ true
unfolding no_lead trim_end
no_lead-trim_end String.[] h = refl
no_lead-trim_end (String.◌∷◌ c s) h = ground arith

-- Trimming a trimmed text changes nothing.
pub trim_idempotent : (s : String) → trim (trim s) ≡ trim s
unfolding trim
trim_idempotent s =
    rw
      (trim_start_of_no_lead (trim_end (trim_start s))
        (no_lead-trim_end (trim_start s) (no_lead-trim_start s)))
      (trim_end_idempotent (trim_start s))

pub trim-empty : trim "" ≡ ""
unfolding trim trim_start trim_end
trim-empty = refl
