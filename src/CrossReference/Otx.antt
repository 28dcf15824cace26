-- ===== src/CrossReference/Otx.antt =====
-- `summarizeOTX`: the community titles of a host without repetition.
pub mod Laws
use Prim.Native.Char.{Char, code}
use Prim.Native.String
use reachable_web_observator.Common.{
  if◌then◌else◌, truthy, or_else, length, take, is_space, trim, nat_eq, string_eq, ℕ, ◌-◌, max,
  String, Bool, true, false, not, ◌||◌, List, [], ◌∷◌,
}
use reachable_web_observator.Js.Map.{contains}
use reachable_web_observator.Api.Threat.{Otx}

-- `.replace(/\s+/gu, " ")`; `after_space` says that the character before was a white space.
unfoldable pub collapse : Bool → String → String
collapse after_space String.[] = ""
collapse after_space (String.◌∷◌ c s) =
    let inside = collapse true s in
    let plain = collapse false s in
    if is_space (code c)
    then (if after_space then inside else String.◌∷◌ " " inside)
    else String.◌∷◌ c plain

-- `.replace(/\s/gu, "")`
unfoldable pub strip : String → String
strip String.[] = ""
strip (String.◌∷◌ c s) = let rest = strip s in if is_space (code c) then rest else String.◌∷◌ c rest

-- The loop over the titles; `lower` is the locale's `toLocaleLowerCase`.
unfoldable pub unique_titles : (String → String) → List String → List String → List String
unfolding collapse strip
unique_titles lower seen [] = []
unique_titles lower seen (value ∷ names) =
    let title = collapse false (trim value) in
    let key = lower (strip title) in
    let skipped = unique_titles lower seen names in
    let taken = title ∷ unique_titles lower (key ∷ seen) names in
    if not (truthy title) || contains seen key then skipped else taken

pub record Summary : Type 0 where
  pub pulse_count : ℕ
  pub unique_count : ℕ
  pub visible_titles : List String
  pub remaining : ℕ

-- `MAX_VISIBLE_OTX_TITLES`
abbrev pub max_visible : ℕ
max_visible = 6

unfoldable pub summarize_otx : (String → String) → Otx → Summary
summarize_otx lower otx =
    let titles = unique_titles lower [] (or_else otx.pulse_names []) in
    let unique_count = max (or_else otx.unique_pulse_count 0) (length titles) in
    let visible = take max_visible titles in
    record {
      pulse_count = otx.pulse_count;
      unique_count = unique_count;
      visible_titles = visible;
      remaining = unique_count - length visible;
    }
