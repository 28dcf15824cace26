-- ===== src/Stats/Csv/Laws.antt =====
-- A reader of comma-separated values gets back what the page wrote.
use Prim.Native.Char.{code}
use text.Mathlib.TextLemmas.{cons-append, nil-append}
use reachable_web_observator.Common.{
  ◌==◌, if◌then◌else◌, Bool-cases, ◌+++◌, nat_eq, string_eq, String, ◌≡◌, refl, ap, ◌∙◌, inl, inr,
  Bool, true, false, Option, none, some,
}
use reachable_web_observator.Stats.Csv.{double_quotes}

-- Reads a quoted cell after its opening quote, as RFC 4180 has it: what the cell holds, and what
-- comes after the closing quote.
abbrev pub read_quoted : Bool → String → Option (String × String)
read_quoted held String.[] = if held then some ("", "") else none
read_quoted held (String.◌∷◌ c s) =
    let inside = read_quoted false s in
    let quoted = read_quoted true s in
    if code c == b'"'
    then (if held
        then elim inside [ none ↦ none | some (cell, rest) ↦ some (String.◌∷◌ c cell, rest) ]
        else quoted)
    else (if held
        then some ("", String.◌∷◌ c s)
        else elim inside [ none ↦ none | some (cell, rest) ↦ some (String.◌∷◌ c cell, rest) ])

-- A text that can follow a cell: it does not start with a quote.
abbrev pub IsEnd : String → Type 0
IsEnd String.[] = Unit
IsEnd (String.◌∷◌ c s) = (code c == b'"') ≡ false

read_quoted-end : (rest : String) → IsEnd rest → read_quoted true rest ≡ some ("", rest)
read_quoted-end String.[] h = refl
read_quoted-end (String.◌∷◌ c s) h = rw h refl

quote-append : (rest : String) → "\"" +++ rest ≡ String.◌∷◌ "\"" rest
quote-append rest = cons-append "\"" "" rest ∙ ap (String.◌∷◌ "\"") (nil-append rest)

read_closing : (rest : String) → IsEnd rest → read_quoted false ("\"" +++ rest) ≡ some ("", rest)
read_closing rest h = rw (quote-append rest) (read_quoted-end rest h)

-- Reading a quoted cell gives the cell and what follows it, whatever quotes, commas and line ends
-- the cell holds, when what follows does not start with a quote.
pub read_quoted-double_quotes :
    (cell rest : String)
    → IsEnd rest
    → read_quoted false (double_quotes cell +++ ("\"" +++ rest)) ≡ some (cell, rest)
unfolding double_quotes
read_quoted-double_quotes String.[] rest h = rw (nil-append ("\"" +++ rest)) (read_closing rest h)
read_quoted-double_quotes (String.◌∷◌ c cell) rest h = elim (Bool-cases (code c == b'"')) [
  | inl mark ↦
      rw
        (
          mark,
          cons-append c (String.◌∷◌ c (double_quotes cell)) ("\"" +++ rest),
          cons-append c (double_quotes cell) ("\"" +++ rest),
          mark,
          read_quoted-double_quotes cell rest h,
        )
        refl
  | inr plain ↦
      rw
        (
          plain,
          cons-append c (double_quotes cell) ("\"" +++ rest),
          plain,
          read_quoted-double_quotes cell rest h,
        )
        refl
]
