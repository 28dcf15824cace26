-- ===== src/Js/Float.antt =====
-- Floating-point numbers, as the platform gives them: a type with its operations, and the order
-- laws of `Math.min` and `Math.max` that the map relies on.
use reachable_web_observator.Common.{nat_eq, string_eq, ℕ, ◌≤◌, String, ◌≡◌, Bool, true, ◌||◌}

pub record Float : Type 1 where
  pub F : Type 0
  pub of_nat : ℕ → F
  pub add : F → F → F
  pub sub : F → F → F
  pub mul : F → F → F
  pub div : F → F → F
  pub lowest : F → F → F
  pub greatest : F → F → F
  pub lt : F → F → Bool
  pub same : F → F → Bool
  pub floor_text : F → String

-- `a <= b`, which does not hold where one of them is NaN.
abbrev pub IsAtMost : (float : Float) → float.F → float.F → Type 0
IsAtMost float a b = (float.lt a b || float.same a b) ≡ true

-- A number other than NaN, which is the one that is not equal to itself.
abbrev pub IsNumber : (float : Float) → float.F → Type 0
IsNumber float a = IsAtMost float a a

-- A number from 0 to 1000.
abbrev pub IsSmall : (float : Float) → float.F → Type 0
IsSmall float a = IsAtMost float (float.of_nat 0) a × IsAtMost float a (float.of_nat 1000)

-- What IEEE 754 and the documentation of `Math.min` and `Math.max` promise of numbers. The two
-- functions give NaN where an argument is NaN, so their laws are of numbers other than NaN. Whole
-- numbers up to 1000 are exact, and a quotient of two of them is rounded in the right order; the
-- product and the quotient of small numbers are numbers, if the divisor is at least 1.
pub record Order (float : Float) : Type 0 where
  pub at_most_trans :
      (a b c : float.F) → IsAtMost float a b → IsAtMost float b c → IsAtMost float a c
  pub of_nat_mono : (m n : ℕ) → m ≤ n → n ≤ 1000 → IsAtMost float (float.of_nat m) (float.of_nat n)
  pub lowest_left :
      (a b : float.F) → IsNumber float a → IsNumber float b → IsAtMost float (float.lowest a b) a
  pub lowest_of_bounds :
      (a b c : float.F)
      → IsAtMost float c a
      → IsAtMost float c b
      → IsAtMost float c (float.lowest a b)
  pub greatest_left :
      (a b : float.F) → IsNumber float a → IsNumber float b → IsAtMost float a (float.greatest a b)
  pub greatest_right :
      (a b : float.F) → IsNumber float a → IsNumber float b → IsAtMost float b (float.greatest a b)
  pub greatest_number :
      (a b : float.F) → IsNumber float a → IsNumber float b → IsNumber float (float.greatest a b)
  pub ratio_small :
      (m n : ℕ)
      → 1 ≤ n
      → m ≤ 1000
      → n ≤ 1000
      → IsSmall float (float.div (float.of_nat m) (float.of_nat n))
  pub ratio_above :
      (m n : ℕ)
      → 1 ≤ n
      → n ≤ m
      → m ≤ 1000
      → IsAtMost float (float.of_nat 1) (float.div (float.of_nat m) (float.of_nat n))
  pub mul_number :
      (a b : float.F) → IsSmall float a → IsSmall float b → IsNumber float (float.mul a b)
  pub div_number :
      (a b : float.F)
      → IsSmall float a
      → IsSmall float b
      → IsAtMost float (float.of_nat 1) b
      → IsNumber float (float.div a b)
