-- ===== src/Js/Number.antt =====
-- Numbers that are read from text and printed: `String(n)` for a whole number, and `Number(text)`
-- as an interface, with a decimal reader that satisfies it.
pub mod Decimal
use Prim.Native.Char.{Char}
use Prim.Native.String
use mathlib.Core.Bool.{Bool}
use reachable_web_observator.Common.{
  ◌==◌, if◌then◌else◌, any, ℕ, zero, suc, ◌/◌, ◌%◌, ◌≤◌, String, ◌≡◌, Bool, false, not, ◌∷◌, str_eq,
}

-- A JavaScript number: a non-negative integer, or any other value (negative, fractional, NaN) by
-- the text that `String` prints for it.
pub data Number : Type 0 where
  whole : ℕ → Number
  other : String → Number

unfoldable pub digit : ℕ → Char
digit zero = "0"
digit (suc zero) = "1"
digit (suc (suc zero)) = "2"
digit (suc (suc (suc zero))) = "3"
digit (suc (suc (suc (suc zero)))) = "4"
digit (suc (suc (suc (suc (suc zero))))) = "5"
digit (suc (suc (suc (suc (suc (suc zero)))))) = "6"
digit (suc (suc (suc (suc (suc (suc (suc zero))))))) = "7"
digit (suc (suc (suc (suc (suc (suc (suc (suc zero)))))))) = "8"
digit _ = "9"

unfoldable pub show_from : ℕ → ℕ → String → String
show_from zero n out = out
show_from (suc fuel) n out =
    let longer = String.◌∷◌ (digit (n % 10)) out in
    let rest = show_from fuel (n / 10) longer in if n / 10 == 0 then longer else rest

-- `String(n)`: one round for each digit, so the fuel is enough.
unfoldable pub show : ℕ → String
unfolding show_from digit
show n = show_from (suc n) n ""

unfoldable pub show_number : Number → String
unfolding show
show_number (whole n) = show n
show_number (other s) = s

-- `a === b` on numbers that are not NaN.
unfoldable pub number_eq : Number → Number → Bool
number_eq (whole a) (whole b) = a == b
number_eq (other a) (other b) = str_eq a b
number_eq _ _ = false

-- `Number.MAX_SAFE_INTEGER`
abbrev pub max_safe : ℕ
max_safe = 9007199254740991

-- `Number(text)`, and what the program relies on: it reads back what `String` printed.
pub record Reader : Type 0 where
  pub to_number : String → Number
  pub to_number-show : (n : ℕ) → n ≤ max_safe → to_number (show n) ≡ whole n
