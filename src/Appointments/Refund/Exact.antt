-- ===== src/Appointments/Refund/Exact.antt =====
-- The partial refund in exact arithmetic.
use native.Mathlib.Nat.{mul-le-mul_left}
use raycarwash_project.Base.{ℕ, ◌*◌, ◌/◌, ◌^◌, ◌≤◌, ◌<◌, ◌≡◌, zero, suc, arith, refl}
use raycarwash_project.Float.{of_ratio, floor, find_shift, round_div}
use raycarwash_project.Float.Bounds.{floor-of_ratio}
use raycarwash_project.Appointments.Refund.{partial_refund, refund_policy}
use raycarwash_project.Pricing.{Settings}

no_money : floor (of_ratio 0 100) ≡ 0
unfolding floor of_ratio find_shift round_div
no_money = refl

floor_hundredths : (n : ℕ) → n < 2 ^ 53 → floor (of_ratio n 100) ≡ n / 100
floor_hundredths zero h = no_money
floor_hundredths (suc n) h = floor-of_ratio (suc n) 100 (omega arith, omega arith) h

-- The partial refund that the code computes in floating point is the exact percentage, rounded down,
-- while price times percentage is below 2 ^ 53.
pub partial_refund-exact :
    (price percent : ℕ)
    → price * percent < 2 ^ 53
    → partial_refund price percent ≡ price * percent / 100
unfolding partial_refund
partial_refund-exact price percent h = floor_hundredths (price * percent) h

-- No refund rule gives back more than the price.
pub refund_policy-le :
    (s : Settings) (scheduled_time now price : ℕ)
    → s.partial_refund_percent ≤ 100
    → price < 2 ^ 31
    → (refund_policy s scheduled_time now price).1 ≤ price
unfolding refund_policy
refund_policy-le s scheduled_time now price h small = ground (arith, part)
  where
    at_most : price * s.partial_refund_percent ≤ price * 100
    at_most = mul-le-mul_left price h

    part : partial_refund price s.partial_refund_percent ≤ price
    part =
        rw (partial_refund-exact price s.partial_refund_percent (omega (arith, at_most)))
          (omega (arith, at_most))
