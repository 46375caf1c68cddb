-- ===== src/Float/Bounds.antt =====
-- What rounding to a double keeps: whole numbers bound it on both sides, and the error is at most
-- half a unit in the last place.
use native.Mathlib.Nat.{div-add-mod, mod-lt, pow-suc, mul-le-mul_right, lt_of_mul-lt-mul_right}
use raycarwash_project.Base.{
  ℕ, zero, suc, ◌+◌, ◌-◌, ◌*◌, ◌/◌, ◌%◌, ◌^◌, ◌≤◌, ◌<◌, ◌≡◌, ◌∙◌, ap, sym, subst, ◌⊎◌, ltb, inl,
  inr, arith, Bool-cases,
}
use raycarwash_project.Float.{precision, find_shift, round_div, scale_fuel, of_ratio, ceil, floor}

div_parts : (a b : ℕ) → 0 < b → ((a / b) * b + a % b ≡ a) × (a % b < b)
div_parts a b h = (grind (arith, div-add-mod), grind (arith, mod-lt))

pub le_of_mul : (a b c r : ℕ) → a * c ≤ b * c + r → r < c → a ≤ b
le_of_mul a b c r h k = grind arith

-- Rounding goes down with at most half a unit left over, or up with at least half.
round_div-cases :
    (a b : ℕ)
    → ((round_div a b ≡ a / b) × (2 * (a % b) ≤ b))
      ⊎ ((round_div a b ≡ a / b + 1) × (b ≤ 2 * (a % b)))
unfolding round_div
round_div-cases a b = ground arith

pub round_div-ge : (k a b : ℕ) → 0 < b → k * b ≤ a → k ≤ round_div a b
round_div-ge k a b p h =
    omega (arith, round_div-cases a b, div_parts a b p, le_of_mul k (a / b) b (a % b))

-- A multiple of `b` from above bounds the quotient, strictly if something is left over.
quotient_lt : (k a b : ℕ) → 0 < b → a ≤ k * b → 0 < a % b → a / b < k
quotient_lt k a b p h r = let d = div_parts a b p in grind arith

pub round_div-le : (k a b : ℕ) → 0 < b → a ≤ k * b → round_div a b ≤ k
round_div-le k a b p h = elim (round_div-cases a b) [
  | inl (e, s) ↦ let d = div_parts a b p in rw e (le_of_mul (a / b) k b 0 (omega arith) p)
  | inr (e, s) ↦ rw e (omega (arith, quotient_lt k a b p h (omega arith)))
]

-- The error is at most half a unit.
pub round_div_near :
    (a b : ℕ)
    → 0 < b
    → (2 * (round_div a b * b) ≤ 2 * a + b) × (2 * a ≤ 2 * (round_div a b * b) + b)
round_div_near a b p = elim (round_div-cases a b) [
  | inl (e, s) ↦ let d = div_parts a b p in rw e (omega arith)
  | inr (e, s) ↦ let d = div_parts a b p in rw e (omega arith)
]

mul_of_quotient_ge : (k a b : ℕ) → 0 < b → k ≤ a / b → k * b ≤ a
mul_of_quotient_ge k a b p h = let d = div_parts a b p in grind arith

mul_of_quotient_lt : (k a b : ℕ) → 0 < b → a / b < k → a < k * b
mul_of_quotient_lt k a b p h = let d = div_parts a b p in grind arith

pub scale-suc : (a n : ℕ) → a * 2 ^ suc n ≡ a * 2 * 2 ^ n
scale-suc a n = rw (pow-suc 2 n) (grind arith)

-- The scale that is found puts 53 bits into the quotient, if the fuel can.
pub find_shift_large :
    (fuel a b : ℕ)
    → 0 < b
    → precision * b ≤ a * 2 ^ fuel
    → precision * b ≤ a * 2 ^ find_shift fuel a b
unfolding find_shift
find_shift_large zero a b p h = h
find_shift_large (suc fuel) a b p h = elim (Bool-cases (ltb (a / b) precision)) [
  | inl e ↦ rw e (
      subst (λ t. precision * b ≤ t) (sym (scale-suc a (find_shift fuel (a * 2) b)))
        (find_shift_large fuel (a * 2) b p (subst (λ t. precision * b ≤ t) (scale-suc a fuel) h)))
  | inr e ↦ rw e (omega (arith, mul_of_quotient_ge precision a b p (ground arith)))
]

-- It never puts in more than 53 bits.
pub find_shift_small :
    (fuel a b : ℕ) → 0 < b → a < 2 * precision * b → a * 2 ^ find_shift fuel a b < 2 * precision * b
unfolding find_shift
find_shift_small zero a b p h = omega arith
find_shift_small (suc fuel) a b p h = elim (Bool-cases (ltb (a / b) precision)) [
  | inl e ↦ rw e (
      subst (λ t. t < 2 * precision * b) (sym (scale-suc a (find_shift fuel (a * 2) b)))
        (find_shift_small fuel (a * 2) b p
          (omega (arith, mul_of_quotient_lt precision a b p (ground arith)))))
  | inr e ↦ rw e (omega arith)
]

-- A quotient is known from the multiples that enclose it.
pub quotient_between : (k m s : ℕ) → 0 < s → k * s ≤ m → m < suc k * s → m / s ≡ k
quotient_between k m s p lo hi =
    let d = div_parts m s p in
    omega (
      arith,
      le_of_mul k (m / s) s (m % s) (omega arith) d.1,
      le_of_mul (m / s) k s (s - 1) (omega arith) (omega arith),
    )

-- The scale of a ratio, 2 ^ shift.
abbrev pub scale : ℕ → ℕ → ℕ
scale a b = 2 ^ (of_ratio a b).shift

-- The ratio is not too small for its scale to be found.
abbrev pub IsNormal : ℕ → ℕ → Type 0
IsNormal a b = (0 < b) × (precision * b ≤ a * 2 ^ scale_fuel)

pub scale_large : (a b : ℕ) → IsNormal a b → precision * b ≤ a * scale a b
unfolding of_ratio
scale_large a b h = find_shift_large scale_fuel a b h.0 h.1

-- Below 2 ^ 32 at least 21 bits stand behind the point.
pub scale_fine : (a b : ℕ) → IsNormal a b → a ≤ 2 ^ 32 * b → 2 ^ 20 ≤ scale a b
scale_fine a b h small =
    le_of_mul (2 ^ 20) (scale a b) b 0
      (omega (arith, scale_large a b h, mul-le-mul_right (scale a b) small)) h.0

pub scale_pos : (n : ℕ) → 0 < 2 ^ n
scale_pos zero = omega arith
scale_pos (suc n) = rw (pow-suc 2 n) (omega (arith, scale_pos n))

-- A multiple of `s` on either side of a numerator that is scaled by it.
scale_mono : (k a b s : ℕ) → k * b ≤ a → k * s * b ≤ a * s
scale_mono k a b s h = omega (arith, mul-le-mul_right s h)

scale_mono_above : (k a b s : ℕ) → a ≤ k * b → a * s ≤ k * s * b
scale_mono_above k a b s h = omega (arith, mul-le-mul_right s h)

-- With a unit that is finer than half of 1 / b, the nearest multiple stays below the next whole number.
below_next :
    (k a b s m : ℕ) → a < suc k * b → b < 2 * s → 2 * (m * b) ≤ 2 * (a * s) + b → m < suc k * s
below_next k a b s m hi fine near = lt_of_mul-lt-mul_right b (omega (arith, mul-le-mul_right s hi))

-- The scale of a numerator below 2 ^ 53 is that fine.
half_scale : (a b s : ℕ) → a < 2 * precision → 0 < s → precision * b ≤ a * s → b < 2 * s
half_scale a b s small p h =
    lt_of_mul-lt-mul_right precision (omega (arith, mul-le-mul_right s small))

-- Truncating the nearest double to a / b gives the quotient: rounding never reaches the next whole
-- number.
pub floor-of_ratio : (a b : ℕ) → IsNormal a b → a < 2 * precision → floor (of_ratio a b) ≡ a / b
unfolding floor of_ratio
floor-of_ratio a b h small =
    quotient_between (a / b) (round_div (a * scale a b) b) (scale a b) (scale_pos _)
      (round_div-ge (a / b * scale a b) (a * scale a b) b h.0
        (scale_mono (a / b) a b (scale a b) (mul_of_quotient_ge (a / b) a b h.0 (omega arith))))
      (below_next (a / b) a b (scale a b) _ (mul_of_quotient_lt (suc (a / b)) a b h.0 (omega arith))
        (half_scale a b (scale a b) small (scale_pos _) (scale_large a b h))
        (round_div_near (a * scale a b) b h.0).0)

-- Rounding up the nearest double to a / b, for a ratio that is not close above a whole number.
pub ceil-of_ratio :
    (k d a b : ℕ)
    → IsNormal a b
    → a ≤ 2 ^ 32 * b
    → k * b + d ≤ a
    → a ≤ suc k * b
    → b ≤ 2 ^ 20 * d
    → ceil (of_ratio a b) ≡ suc k
unfolding ceil of_ratio
ceil-of_ratio k d a b h small lo hi fine =
    quotient_between (suc k) (round_div (a * scale a b) b + (scale a b - 1)) (scale a b)
      (scale_pos _)
      (omega (
        arith,
        round_div-ge (k * scale a b + 1) (a * scale a b) b h.0 (
            omega (
              arith,
              mul-le-mul_right (scale a b) lo,
              mul-le-mul_right d (scale_fine a b h small),
            )),
      ))
      (omega (
        arith,
        scale_pos (of_ratio a b).shift,
        round_div-le (suc k * scale a b) (a * scale a b) b h.0
            (scale_mono_above (suc k) a b (scale a b) hi),
      ))

-- A whole ratio is kept as it is.
pub round_div-mul : (k b : ℕ) → 0 < b → round_div (k * b) b ≡ k
round_div-mul k b p =
    omega
      (arith, round_div-ge k (k * b) b p (omega arith), round_div-le k (k * b) b p (omega arith))

round_div_whole : (k a b s : ℕ) → 0 < b → a ≡ k * b → round_div (a * s) b ≡ k * s
round_div_whole k a b s p e =
    ap (λ t. round_div t b) (cc (ap (λ t. t * s) e) ∙ regroup) ∙ round_div-mul (k * s) b p
  where
    regroup : k * b * s ≡ k * s * b
    regroup = omega arith

pub ceil-of_whole : (k a b : ℕ) → 0 < b → a ≡ k * b → ceil (of_ratio a b) ≡ k
unfolding ceil of_ratio
ceil-of_whole k a b p e =
    quotient_between k (round_div (a * scale a b) b + (scale a b - 1)) (scale a b) (scale_pos _)
      (omega (arith, round_div_whole k a b (scale a b) p e))
      (omega (arith, round_div_whole k a b (scale a b) p e, scale_pos (of_ratio a b).shift))

-- Truncating the nearest double to a / b, where a / b lies at most `e` / b below a whole number, too
-- little for a double to tell it from that number, and well below the next one.
pub floor_near :
    (k e d a b : ℕ)
    → IsNormal a b
    → a ≤ 2 ^ 32 * b
    → k * b ≤ a + e
    → 2 * (2 * precision * e) ≤ a
    → a + d ≤ suc k * b
    → b ≤ 2 ^ 20 * d
    → floor (of_ratio a b) ≡ k
unfolding floor of_ratio
floor_near k e d a b h small lo tiny hi fine =
    quotient_between k (round_div (a * scale a b) b) (scale a b) (scale_pos _)
      (le_of_mul (k * scale a b) _ b (b - 1)
        (omega
          (arith, mul-le-mul_right (scale a b) lo, mul-le-mul_right (scale a b) tiny, top, near))
        (omega (arith, h.0)))
      (lt_of_mul-lt-mul_right b (omega (arith, mul-le-mul_right (scale a b) hi, finer, near, h.0)))
  where
    near :
        (2 * (round_div (a * scale a b) b * b) ≤ 2 * (a * scale a b) + b)
        × (2 * (a * scale a b) ≤ 2 * (round_div (a * scale a b) b * b) + b)
    near = round_div_near (a * scale a b) b h.0

    top : a * scale a b < 2 * precision * b
    top = find_shift_small scale_fuel a b h.0 (omega (arith, h.0, small))

    finer : 2 ^ 20 * d ≤ scale a b * d
    finer = mul-le-mul_right d (scale_fine a b h small)
