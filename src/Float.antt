-- ===== src/Float.antt =====
-- Python's float arithmetic on non-negative values, as the pricing code uses it: IEEE 754 doubles,
-- rounded to nearest, ties to even. A double is mant / 2 ^ shift; the values that the code meets
-- are below 2 ^ 53, so the exponent is never positive.
pub mod Bounds
use raycarwash_project.Base.{
  ℕ, zero, suc, ◌+◌, ◌-◌, ◌*◌, ◌/◌, ◌%◌, ◌^◌, ltb, ◌==◌, if◌then◌else◌, ◌&&◌, ◌||◌,
}

pub record Double : Type 0 where
  pub mant : ℕ
  pub shift : ℕ

abbrev pub precision : ℕ
precision = 2 ^ 52

-- Doubles the numerator until the quotient has 53 bits; returns the power of two, 2 ^ shift is found
-- beside it.
unfoldable pub find_shift : ℕ → ℕ → ℕ → ℕ
find_shift zero a b = 0
find_shift (suc fuel) a b =
    let rest = suc (find_shift fuel (a * 2) b) in if ltb (a / b) precision then rest else 0

-- the quotient a / b, to the nearest integer, ties to even
unfoldable pub round_div : ℕ → ℕ → ℕ
round_div a b =
    let q = a / b in
    let r = a % b in if ltb (2 * r) b || (2 * r == b && q % 2 == 0) then q else q + 1

abbrev pub scale_fuel : ℕ
scale_fuel = 120

-- The double nearest to a / b.
unfoldable pub of_ratio : ℕ → ℕ → Double
of_ratio a b =
    let s = find_shift scale_fuel a b in record { mant = round_div (a * 2 ^ s) b; shift = s }

unfoldable pub of_ℕ : ℕ → Double
of_ℕ n = of_ratio n 1

-- x * y and x / y for doubles
unfoldable pub mul : Double → Double → Double
mul x y = of_ratio (x.mant * y.mant) (2 ^ x.shift * 2 ^ y.shift)

unfoldable pub div : Double → Double → Double
div x y = of_ratio (x.mant * 2 ^ y.shift) (2 ^ x.shift * y.mant)

-- `math.ceil(x)` and `int(x)`
unfoldable pub ceil : Double → ℕ
ceil x = (x.mant + (2 ^ x.shift - 1)) / 2 ^ x.shift

unfoldable pub floor : Double → ℕ
floor x = x.mant / 2 ^ x.shift
