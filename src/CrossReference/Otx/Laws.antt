-- ===== src/CrossReference/Otx/Laws.antt =====
-- What the summary of the community titles shows.
use mathlib.Core.List.{Memᴰ}
use Prim.Native.Char.{Char, code}
use reachable_web_observator.Common.{
  if◌then◌else◌, truthy, or_else, length, take, All, is_space, trim, nat_eq, string_eq, ◌+◌, max,
  String, ◌≡◌, ◌⊎◌, true, false, List, [], ◌∷◌,
}
use reachable_web_observator.Js.Map.{contains}
use reachable_web_observator.Api.Threat.{Otx}
use reachable_web_observator.CrossReference.Otx.{collapse, strip, Summary}

-- A title without its white space.
unfoldable pub letters : String → String
letters String.[] = ""
letters (String.◌∷◌ c s) =
    let rest = letters s in if is_space (code c) then rest else String.◌∷◌ c rest

-- No title is empty, and no two have the same key.
abbrev pub IsUniqueTitles : (String → String) → List String → List String → Type 0
IsUniqueTitles key seen [] = Unit
IsUniqueTitles key seen (t ∷ ts) =
    (truthy t ≡ true) × (contains seen (key t) ≡ false) × IsUniqueTitles key (key t ∷ seen) ts

-- A title is that of a name: the name without white space at its ends, and with a blank for any
-- white space in it.
abbrev pub IsTitleOf : List String → String → Type 0
IsTitleOf names t = (name : String) × Memᴰ name names × (t ≡ collapse false (trim name))

-- A name is nothing but white space, or has the key of one of the titles.
abbrev pub IsListed : (String → String) → List String → String → Type 0
IsListed key titles name =
    (truthy (trim name) ≡ false)
    ⊎ ((t : String) × Memᴰ t titles × (key t ≡ key (collapse false (trim name))))

-- The titles of the names, without repetition.
pub record AreTitles (key : String → String) (names titles : List String) : Type 0 where
  pub distinct : IsUniqueTitles key [] titles
  pub named : All (IsTitleOf names) titles
  pub complete : All (IsListed key titles) names

-- Six of the titles are shown. Two titles agree when they do but for case and white space.
pub record IsSummary (lower : String → String) (otx : Otx) (s : Summary) : Type 0 where
  pub titles : List String
  pub listed : AreTitles (λ t. lower (letters t)) (or_else otx.pulse_names []) titles
  pub visible : s.visible_titles ≡ take 6 titles
  pub unique : s.unique_count ≡ max (or_else otx.unique_pulse_count 0) (length titles)
  pub counted : length s.visible_titles + s.remaining ≡ s.unique_count
  pub pulses : s.pulse_count ≡ otx.pulse_count

module _ (lower : String → String) where
  abbrev key : String → String
  key t = lower (strip t)

  abbrev title_of : String → String
  title_of name = collapse false (trim name)

  -- A name is blank, or its key was seen before, or a title has it.
  abbrev IsKnown : List String → List String → String → Type 0
  IsKnown seen titles name =
      (truthy (trim name) ≡ false)
      ⊎ (contains seen (key (title_of name)) ≡ true)
      ⊎ ((t : String) × Memᴰ t titles × (key t ≡ key (title_of name)))
