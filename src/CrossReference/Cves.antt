-- ===== src/CrossReference/Cves.antt =====
-- `CVEGroups`: the records of a host by year.
pub mod Laws
pub mod Years
use Prim.Native.Char.{Char, code}
use Prim.Native.String
use mathlib.Core.Option
use reachable_web_observator.Common.{
  leb, ◌==◌, if◌then◌else◌, or_else, length, ◌+++◌, nat_eq, string_eq, ℕ, zero, suc, String, Bool,
  ◌&&◌, ◌||◌, Option, none, some, List, [], ◌∷◌, ◌++◌, map,
}
use reachable_web_observator.Js.Grouping.{group_by}
use reachable_web_observator.Js.Number.{show}
use reachable_web_observator.Js.Ranking.{Locale}
use reachable_web_observator.Js.Sort.{sort_by}

abbrev pub Groups : Type 0
Groups = List (String × List String)

-- The four digits and the hyphen of the pattern, after its prefix: the digits that are matched.
unfoldable pub digits_then_hyphen : ℕ → String → Option String
digits_then_hyphen n String.[] = none
digits_then_hyphen zero (String.◌∷◌ c s) = if code c == b'-' then some "" else none
digits_then_hyphen (suc n) (String.◌∷◌ c s) =
    if leb b'0' (code c) && leb (code c) b'9'
    then Option.map (λ rest. String.◌∷◌ c rest) (digits_then_hyphen n s)
    else none

-- The characters of the prefix, in either case.
unfoldable pub after_prefix : List (ℕ × ℕ) → String → Option String
unfolding digits_then_hyphen
after_prefix [] s = digits_then_hyphen 4 s
after_prefix (letter ∷ letters) String.[] = none
after_prefix (letter ∷ letters) (String.◌∷◌ c s) =
    let rest = after_prefix letters s in
    if code c == letter.0 || code c == letter.1 then rest else none

-- `/^CVE-(\d{4})-/i.exec(cve)?.[1] ?? "Other"`
unfoldable pub cve_year : String → String
unfolding after_prefix
cve_year cve =
    or_else (after_prefix ((b'C', b'c') ∷ (b'V', b'v') ∷ (b'E', b'e') ∷ (b'-', b'-') ∷ []) cve)
      "Other"

abbrev pub append_cve : List String → String → List String
append_cve group cve = group ++ (cve ∷ [])

unfoldable pub cves_by_year : List String → Groups
unfolding cve_year
cves_by_year items = group_by cve_year (λ cve. cve ∷ []) append_cve items

-- `b.localeCompare(a)`
abbrev pub later_year : Locale → String × List String → String × List String → Bool
later_year locale a b = locale.lt b.0 a.0

unfoldable pub cve_groups : Locale → List String → Groups
unfolding cves_by_year
cve_groups locale items = sort_by (later_year locale) (cves_by_year items)

-- Whether the groups are open, the line of a group and the address of a record;
-- `encode_component` is `encodeURIComponent`.
unfoldable pub is_open : List String → Bool
is_open items = leb (length items) 12

unfoldable pub group_line : String × List String → String
unfolding show
group_line group =
    group.0
    +++ " · "
    +++ show (length group.1)
    +++ " record"
    +++ (if length group.1 == 1 then "" else "s")

unfoldable pub nvd_url : (String → String) → String → String
nvd_url encode_component cve = "https://nvd.nist.gov/vuln/detail/" +++ encode_component cve
