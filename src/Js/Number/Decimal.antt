-- ===== src/Js/Number/Decimal.antt =====
-- The decimal reader, and the round trip of printing and reading.
use Prim.Native.Char.{Char, code}
use reachable_web_observator.Common.{
  leb, if◌then◌else◌, ℕ, zero, suc, ◌+◌, ◌-◌, ◌*◌, ◌/◌, ◌%◌, ◌<◌, String, ◌≡◌, false, ◌&&◌, Option,
  none, some, arith, str_eq,
}
use reachable_web_observator.Common.Text.Laws.{cons-ne-empty}
use mathlib.Core.Path.{refl}
use reachable_web_observator.Js.Number.{Number, whole, other, digit, show_from, show, Reader}

read_from : String → ℕ → Option ℕ
read_from String.[] n = some n
read_from (String.◌∷◌ c s) n =
    let rest = read_from s (n * 10 + (code c - 48)) in
    if leb 48 (code c) && leb (code c) 57 then rest else none

code-digit : (d : ℕ) → d < 10 → code (digit d) ≡ 48 + d
unfolding digit
code-digit zero h = refl
code-digit (suc zero) h = refl
code-digit (suc (suc zero)) h = refl
code-digit (suc (suc (suc zero))) h = refl
code-digit (suc (suc (suc (suc zero)))) h = refl
code-digit (suc (suc (suc (suc (suc zero))))) h = refl
code-digit (suc (suc (suc (suc (suc (suc zero)))))) h = refl
code-digit (suc (suc (suc (suc (suc (suc (suc zero))))))) h = refl
code-digit (suc (suc (suc (suc (suc (suc (suc (suc zero)))))))) h = refl
code-digit (suc (suc (suc (suc (suc (suc (suc (suc (suc zero))))))))) h = refl
code-digit (suc (suc (suc (suc (suc (suc (suc (suc (suc (suc n)))))))))) h = absurd (omega arith)

read_from-digit :
    (d n : ℕ) (s : String)
    → d < 10
    → read_from (String.◌∷◌ (digit d) s) n ≡ read_from s (n * 10 + d)
unfolding read_from
read_from-digit d n s h = ground (arith, code-digit d)

read_from-show_from :
    (fuel n : ℕ) (s : String) → n < fuel → read_from (show_from fuel n s) 0 ≡ read_from s n
unfolding show_from
read_from-show_from zero n s h = absurd (omega arith)
read_from-show_from (suc fuel) n s h = ground (
  arith,
  read_from-digit (n % 10) 0 s,
  read_from-digit (n % 10) (n / 10) s,
  read_from-show_from fuel (n / 10) (String.◌∷◌ (digit (n % 10)) s),
)

unfoldable pub decimal : String → Number
unfolding read_from
decimal s = elim (read_from s 0) [ none ↦ other "NaN" | some n ↦ whole n ]

pub decimal-show : (n : ℕ) → decimal (show n) ≡ whole n
unfolding decimal show
decimal-show n = ground (arith, read_from-show_from (suc n) n "")

-- A reader of plain decimal digits.
abbrev pub decimal_reader : Reader
unfolding decimal
decimal_reader = record { to_number = decimal; to_number-show = λ n _. decimal-show n }

-- A text in front of which digits were put is not empty.
show_from-ne-empty :
    (fuel n : ℕ) (c : Char) (s : String) → str_eq (show_from fuel n (String.◌∷◌ c s)) "" ≡ false
unfolding show_from
show_from-ne-empty zero n c s = cons-ne-empty c s
show_from-ne-empty (suc fuel) n c s = ground (
  arith,
  cons-ne-empty (digit (n % 10)) (String.◌∷◌ c s),
  show_from-ne-empty fuel (n / 10) (digit (n % 10)) (String.◌∷◌ c s),
)

-- A printed number is not empty.
pub show-ne-empty : (n : ℕ) → str_eq (show n) "" ≡ false
unfolding show show_from
show-ne-empty n =
    ground
      (arith, cons-ne-empty (digit (n % 10)) "", show_from-ne-empty n (n / 10) (digit (n % 10)) "")
