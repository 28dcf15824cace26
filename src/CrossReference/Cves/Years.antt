-- ===== src/CrossReference/Cves/Years.antt =====
-- The year of a record, against a description of the names that have one.
use Prim.Native.Char.{Char, code}
use mathlib.Core.Option
use reachable_web_observator.Common.{
  leb, ◌==◌, if◌then◌else◌, or_else, Bool-cases, nat_eq, string_eq, ℕ, zero, suc, ◌≤◌, String, ◌≡◌,
  refl, ◌⊎◌, inl, inr, Bool, true, false, ◌&&◌, ◌||◌, Option, none, some, List, [], ◌∷◌, arith,
}
use reachable_web_observator.CrossReference.Cves.{digits_then_hyphen, after_prefix, cve_year}

-- The text starts with `n` digits and a hyphen, and `y` is these digits.
abbrev pub IsDated : ℕ → String → String → Type 0
IsDated zero (String.◌∷◌ c s) String.[] = (code c == b'-') ≡ true
IsDated (suc n) (String.◌∷◌ c s) (String.◌∷◌ d y) =
    (c ≡ d) × (b'0' ≤ code c) × (code c ≤ b'9') × IsDated n s y
IsDated n s y = ⊥

abbrev pub IsEither : ℕ → ℕ → Char → Type 0
IsEither upper lower c = ((code c == upper) || (code c == lower)) ≡ true

-- The record is "CVE-" in any case, the four digits of `y`, a hyphen, and any text.
abbrev pub IsNumbered : String → String → Type 0
IsNumbered (String.◌∷◌ c (String.◌∷◌ v (String.◌∷◌ e (String.◌∷◌ h s)))) y =
    IsEither b'C' b'c' c
    × IsEither b'V' b'v' v
    × IsEither b'E' b'e' e
    × ((code h == b'-') ≡ true)
    × IsDated 4 s y
IsNumbered cve y = ⊥

-- The records that stand under `y`.
abbrev pub IsOf : String → String → Type 0
IsOf cve y = IsNumbered cve y ⊎ ((y ≡ "Other") × ((z : String) → IsNumbered cve z → ⊥))

-- What follows the prefix, if the text starts with a date.
abbrev Dates : ℕ → String → Option String → Type 0
Dates n s none = (z : String) → IsDated n s z → ⊥
Dates n s (some y) = IsDated n s y

Dates-cons :
    (n : ℕ) (c : Char) (s : String) (o : Option String)
    → (b'0' ≤ code c)
    → (code c ≤ b'9')
    → Dates n s o
    → Dates (suc n) (String.◌∷◌ c s) (Option.map (λ rest. String.◌∷◌ c rest) o)
Dates-cons n c s none low high h = not_dated
  where
    not_dated : (z : String) → IsDated (suc n) (String.◌∷◌ c s) z → ⊥
    not_dated String.[] k = k
    not_dated (String.◌∷◌ d z) k = h z k.3
Dates-cons n c s (some y) low high h = (refl, low, high, h)

not_dated_empty : (n : ℕ) (z : String) → IsDated n "" z → ⊥
not_dated_empty zero String.[] k = k
not_dated_empty zero (String.◌∷◌ d z) k = k
not_dated_empty (suc n) String.[] k = k
not_dated_empty (suc n) (String.◌∷◌ d z) k = k

not_dated_end :
    (c : Char) (s z : String) → (code c == b'-') ≡ false → IsDated zero (String.◌∷◌ c s) z → ⊥
not_dated_end c s String.[] h k = cc
not_dated_end c s (String.◌∷◌ d z) h k = k

not_dated_digit :
    (n : ℕ) (c : Char) (s z : String)
    → (leb b'0' (code c) && leb (code c) b'9') ≡ false
    → IsDated (suc n) (String.◌∷◌ c s) z
    → ⊥
not_dated_digit n c s String.[] h k = k
not_dated_digit n c s (String.◌∷◌ d z) h (same, low, high, rest) = ground (arith, h, low, high)

digits_then_hyphen-Dates : (n : ℕ) (s : String) → Dates n s (digits_then_hyphen n s)
unfolding digits_then_hyphen
digits_then_hyphen-Dates n String.[] = λ z k. not_dated_empty n z k
digits_then_hyphen-Dates zero (String.◌∷◌ c s) = elim (Bool-cases (code c == b'-')) [
  | inl hyphen ↦ rw hyphen hyphen
  | inr other ↦ rw other (λ z k. not_dated_end c s z other k)
]
digits_then_hyphen-Dates (suc n) (String.◌∷◌ c s) =
    elim (Bool-cases (leb b'0' (code c) && leb (code c) b'9')) [
      | inl digit ↦ rw digit (
          Dates-cons n c s (digits_then_hyphen n s) (ground arith) (ground arith)
            (digits_then_hyphen-Dates n s))
      | inr other ↦ rw other (λ z k. not_dated_digit n c s z other k)
    ]

-- What the whole pattern gives.
abbrev Numbers : String → Option String → Type 0
Numbers cve none = (z : String) → IsNumbered cve z → ⊥
Numbers cve (some y) = IsNumbered cve y

abbrev prefix : List (ℕ × ℕ)
prefix = (b'C', b'c') ∷ (b'V', b'v') ∷ (b'E', b'e') ∷ (b'-', b'-') ∷ []

Numbers-of_Dates :
    (c v e h : Char) (s : String) (o : Option String)
    → IsEither b'C' b'c' c
    → IsEither b'V' b'v' v
    → IsEither b'E' b'e' e
    → (code h == b'-') ≡ true
    → Dates 4 s o
    → Numbers (String.◌∷◌ c (String.◌∷◌ v (String.◌∷◌ e (String.◌∷◌ h s)))) o
Numbers-of_Dates c v e h s none a b d f dates = λ z k. dates z k.4
Numbers-of_Dates c v e h s (some y) a b d f dates = (a, b, d, f, dates)

-- One letter of the prefix.
Numbers-if :
    (cve : String) (b : Bool) (o : Option String)
    → (b ≡ true → Numbers cve o)
    → (b ≡ false → Numbers cve none)
    → Numbers cve (if b then o else none)
Numbers-if cve true o h k = h refl
Numbers-if cve false o h k = k refl

Numbers-short :
    (cve : String) (b : Bool) (o : Option String)
    → Numbers cve none
    → Numbers cve o
    → Numbers cve (if b then o else none)
Numbers-short cve b o none_ h = Numbers-if cve b o (λ e. h) (λ e. none_)

after_prefix-Numbers : (cve : String) → Numbers cve (after_prefix prefix cve)
unfolding after_prefix
after_prefix-Numbers String.[] = λ z k. k
after_prefix-Numbers (String.◌∷◌ c String.[]) =
    let cve : String = String.◌∷◌ c "" in
    let no : Numbers cve none = λ z k. k in
    Numbers-short cve (code c == b'C' || code c == b'c') none no no
after_prefix-Numbers (String.◌∷◌ c (String.◌∷◌ v String.[])) =
    let cve : String = String.◌∷◌ c (String.◌∷◌ v "") in
    let no : Numbers cve none = λ z k. k in
    let second = Numbers-short cve (code v == b'V' || code v == b'v') none no no in
    Numbers-short cve (code c == b'C' || code c == b'c')
      (if (code v == b'V' || code v == b'v') then none else none) no second
after_prefix-Numbers (String.◌∷◌ c (String.◌∷◌ v (String.◌∷◌ e String.[]))) =
    let cve : String = String.◌∷◌ c (String.◌∷◌ v (String.◌∷◌ e "")) in
    let no : Numbers cve none = λ z k. k in
    let third = Numbers-short cve (code e == b'E' || code e == b'e') none no no in
    let second =
      Numbers-short cve (code v == b'V' || code v == b'v')
        (if (code e == b'E' || code e == b'e') then none else none) no third in
    Numbers-short cve (code c == b'C' || code c == b'c')
      (if (code v == b'V' || code v == b'v')
        then (if (code e == b'E' || code e == b'e') then none else none)
        else none)
      no second
after_prefix-Numbers (String.◌∷◌ c (String.◌∷◌ v (String.◌∷◌ e (String.◌∷◌ h s)))) =
    let cve : String = String.◌∷◌ c (String.◌∷◌ v (String.◌∷◌ e (String.◌∷◌ h s))) in
    Numbers-if cve (code c == b'C' || code c == b'c') _
      (λ a.
        Numbers-if cve (code v == b'V' || code v == b'v') _
          (λ b.
            Numbers-if cve (code e == b'E' || code e == b'e') _
              (λ d.
                Numbers-if cve (code h == b'-' || code h == b'-') _
                  (λ f.
                    Numbers-of_Dates c v e h s (digits_then_hyphen 4 s) a b d (ground (arith, f))
                      (digits_then_hyphen-Dates 4 s))
                  (λ f z k. absurd (ground (arith, f, k.3))))
              (λ d z k. absurd (ground (arith, d, k.2))))
          (λ b z k. absurd (ground (arith, b, k.1))))
      (λ a z k. absurd (ground (arith, a, k.0)))

IsOf-or_else : (cve : String) (o : Option String) → Numbers cve o → IsOf cve (or_else o "Other")
IsOf-or_else cve none h = inr (refl, h)
IsOf-or_else cve (some y) h = inl h

-- The year that the page groups a record by: its own, or "Other" if it has none.
pub cve_year-IsOf : (cve : String) → IsOf cve (cve_year cve)
unfolding cve_year
cve_year-IsOf cve = IsOf-or_else cve _ (after_prefix-Numbers cve)
