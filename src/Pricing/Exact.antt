-- ===== src/Pricing/Exact.antt =====
-- The floating-point price of a vehicle size against exact arithmetic.
use native.Mathlib.Nat.{mul-one, mul-le-mul_right}
use raycarwash_project.Base.{
  ℕ, zero, suc, ◌+◌, ◌-◌, ◌*◌, ◌/◌, ◌^◌, ◌≤◌, ◌<◌, ◌≡◌, refl, sym, ap, ◌∙◌, arith,
}
use raycarwash_project.Float.{
  precision, scale_fuel, find_shift, round_div, of_ratio, of_ℕ, mul, ceil,
}
use raycarwash_project.Float.Bounds.{round_div-mul, ceil-of_ratio, ceil-of_whole, scale_pos}
use raycarwash_project.Catalog.{VehicleSize, small, medium, large, xl, size_multiplier}
use raycarwash_project.Pricing.{scaled}

-- The exact ceiling of base * 1.0, 1.2, 1.5 and 2.0.
pub exact_scaled : ℕ → VehicleSize → ℕ
exact_scaled base small = base
exact_scaled base medium = (6 * base + 4) / 5
exact_scaled base large = (3 * base + 1) / 2
exact_scaled base xl = 2 * base

-- The doubles that the literals stand for.
multiplier_mant : VehicleSize → ℕ
multiplier_mant small = precision
multiplier_mant medium = 5404319552844595
multiplier_mant large = 6755399441055744
multiplier_mant xl = 4503599627370496

multiplier_shift : VehicleSize → ℕ
multiplier_shift small = 52
multiplier_shift medium = 52
multiplier_shift large = 52
multiplier_shift xl = 51

size_multiplier-mant : (size : VehicleSize) → (size_multiplier size).mant ≡ multiplier_mant size
unfolding size_multiplier multiplier_mant of_ratio find_shift round_div
size_multiplier-mant small = refl
size_multiplier-mant medium = refl
size_multiplier-mant large = refl
size_multiplier-mant xl = refl

size_multiplier-shift : (size : VehicleSize) → (size_multiplier size).shift ≡ multiplier_shift size
unfolding size_multiplier multiplier_shift of_ratio find_shift round_div
size_multiplier-shift small = refl
size_multiplier-shift medium = refl
size_multiplier-shift large = refl
size_multiplier-shift xl = refl

-- A whole number is kept exactly.
pub of_ℕ_lem : (n : ℕ) → (of_ℕ n).mant ≡ n * 2 ^ (of_ℕ n).shift
unfolding of_ℕ of_ratio
of_ℕ_lem n =
    ap (λ t. round_div t 1) (sym (mul-one (n * 2 ^ find_shift scale_fuel n 1)))
    ∙ round_div-mul (n * 2 ^ find_shift scale_fuel n 1) 1 (omega arith)

-- The double product as a ratio, with the scale of the base left open.
ProductCeil : (n : ℕ) (size : VehicleSize) → ℕ → Type 0
ProductCeil n size p =
    scaled n size ≡ ceil (of_ratio (n * p * multiplier_mant size) (p * 2 ^ multiplier_shift size))

scaled-product : (n : ℕ) (size : VehicleSize) → (p : ℕ) × (0 < p) × ProductCeil n size p
unfolding ProductCeil scaled mul
scaled-product n size = (
  2 ^ (of_ℕ n).shift,
  scale_pos (of_ℕ n).shift,
  rw (of_ℕ_lem n, size_multiplier-mant size, size_multiplier-shift size),
)

medium_ratio :
    (k n p : ℕ)
    → 0 < p
    → 0 < n
    → n < 2 ^ 31
    → 5 * k + 1 ≤ 6 * n
    → 6 * n ≤ 5 * k + 5
    → ceil (of_ratio (n * p * 5404319552844595) (p * 4503599627370496)) ≡ suc k
medium_ratio k n p p_pos n_pos bound lo hi =
    ceil-of_ratio k (p * 2 ^ 49) _ _ (omega (arith, le_n), omega (arith, le_n))
      (omega (arith, below)) (omega (arith, mul-le-mul_right p lo, below))
      (omega (arith, mul-le-mul_right p hi)) (omega arith)
  where
    le_n : 1 * p ≤ n * p
    le_n = mul-le-mul_right p n_pos

    below : n * p ≤ 2 ^ 31 * p
    below = mul-le-mul_right p (omega arith)

large_ratio :
    (k n p : ℕ)
    → 0 < p
    → 0 < n
    → n < 2 ^ 31
    → 2 * k + 1 ≤ 3 * n
    → 3 * n ≤ 2 * k + 2
    → ceil (of_ratio (n * p * 6755399441055744) (p * 4503599627370496)) ≡ suc k
large_ratio k n p p_pos n_pos bound lo hi =
    ceil-of_ratio k (p * 2 ^ 49) _ _ (omega (arith, le_n), omega (arith, le_n))
      (omega (arith, below)) (omega (arith, mul-le-mul_right p lo, below))
      (omega (arith, mul-le-mul_right p hi)) (omega arith)
  where
    le_n : 1 * p ≤ n * p
    le_n = mul-le-mul_right p n_pos

    below : n * p ≤ 2 ^ 31 * p
    below = mul-le-mul_right p (omega arith)

-- The price and the duration that the code computes in floating point are the exact ceilings, for
-- every base that fits the database column (a 32-bit signed integer).
pub scaled-exact :
    (base : ℕ) (size : VehicleSize) → base < 2 ^ 31 → scaled base size ≡ exact_scaled base size
unfolding exact_scaled ProductCeil multiplier_mant multiplier_shift
scaled-exact base small h =
    let (p, pos, e) = scaled-product base small in
    e ∙ ceil-of_whole base _ _ (omega (arith, pos)) (omega arith)
scaled-exact base xl h =
    let (p, pos, e) = scaled-product base xl in
    e ∙ ceil-of_whole (2 * base) _ _ (omega (arith, pos)) (omega arith)
scaled-exact zero medium h =
    let (p, pos, e) = scaled-product zero medium in
    e ∙ ceil-of_whole 0 _ _ (omega (arith, pos)) (omega arith)
scaled-exact (suc n) medium h =
    let (p, pos, e) = scaled-product (suc n) medium in
    e
    ∙ medium_ratio ((6 * suc n - 1) / 5) (suc n) p pos (omega arith) h (omega arith) (omega arith)
    ∙ omega arith
scaled-exact zero large h =
    let (p, pos, e) = scaled-product zero large in
    e ∙ ceil-of_whole 0 _ _ (omega (arith, pos)) (omega arith)
scaled-exact (suc n) large h =
    let (p, pos, e) = scaled-product (suc n) large in
    e
    ∙ large_ratio ((3 * suc n - 1) / 2) (suc n) p pos (omega arith) h (omega arith) (omega arith)
    ∙ omega arith
