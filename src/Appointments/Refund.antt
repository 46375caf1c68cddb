-- ===== src/Appointments/Refund.antt =====
-- The cancellation policy: the time left, which is a float of hours, and the amount of a partial
-- refund, which is an int of a float (transition_status of
-- backend/domains/appointments/service.py, and _refund_preview of its router).
pub mod Exact
use raycarwash_project.Base.{
  ℕ, ◌-◌, ◌*◌, ◌^◌, Bool, true, false, Option, none, some, ltb, leb, ◌==◌, if◌then◌else◌, ◌||◌,
}
use raycarwash_project.Float.{Double, of_ratio, of_ℕ, mul, div, floor}
use raycarwash_project.Pricing.{Settings}
use raycarwash_project.Store.{Policy, no_policy, full, partial}

-- `(scheduled_time - now).total_seconds() / 3600`, of a span that is not negative
unfoldable pub hours_until : ℕ → Double
hours_until span = div (of_ratio span 1000000) (of_ℕ 3600)

-- `hours_until >= h`; a negative span is below every whole number of hours
unfoldable pub hours_at_least : ℕ → ℕ → ℕ → Bool
unfolding hours_until
hours_at_least scheduled_time now h =
    if ltb scheduled_time now
    then false
    else let left = hours_until (scheduled_time - now) in leb (h * 2 ^ left.shift) left.mant

-- `int(price * percent / 100)`
unfoldable pub partial_refund : ℕ → ℕ → ℕ
partial_refund price percent = floor (of_ratio (price * percent) 100)

-- the if/elif of transition_status
unfoldable pub refund_policy : Settings → ℕ → ℕ → ℕ → Policy × ℕ
refund_policy s scheduled_time now price =
    if hours_at_least scheduled_time now s.full_refund_hours
    then (full, price)
    else if hours_at_least scheduled_time now s.partial_refund_hours
    then (partial, partial_refund price s.partial_refund_percent)
    else (no_policy, 0)

-- `float(refund / price * 100) if refund and price else None`
unfoldable pub refund_percent : ℕ → ℕ → Option Double
refund_percent refund price =
    if refund == 0 || price == 0 then none else some (mul (of_ratio refund price) (of_ℕ 100))
