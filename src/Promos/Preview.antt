-- ===== src/Promos/Preview.antt =====
-- What a preview of a promo code says.
use native.Mathlib.Nat.{mul-le-mul_left}
use raycarwash_project.Base.{
  same_codes, ℕ, ◌+◌, ◌≤◌, ◌≡◌, refl, sym, ◌∙◌, inl, inr, not, ◌&&◌, Option, none, some, List,
  arith, Bool-cases, Option-cases, All, find_where, find_where-All,
}
use raycarwash_project.Promos.{
  DiscountType, fixed_cents, percent, PromoCode, PromoDb, normalize_code, lookup, is_below_min,
  discount, quote_for, preview, Reason,
}

-- ck_promo_codes_percent_max
abbrev pub HasValidPercent : DiscountType → ℕ → Type 0
HasValidPercent fixed_cents amount = Unit
HasValidPercent percent amount = amount ≤ 100

discount-le :
    (kind : DiscountType) (amount subtotal : ℕ)
    → HasValidPercent kind amount
    → discount kind amount subtotal ≤ subtotal
discount-le fixed_cents amount subtotal h = omega arith
discount-le percent amount subtotal h = omega (arith, mul-le-mul_left subtotal h)

quote_for-sum :
    (o : Option PromoCode) (reason : Option Reason) (subtotal : ℕ)
    → ((p : PromoCode) → o ≡ some p → HasValidPercent p.discount_type p.discount_amount)
    → (quote_for o reason subtotal).discount_cents + (quote_for o reason subtotal).final_cents
      ≡ subtotal
quote_for-sum none none subtotal h = omega arith
quote_for-sum none (some reason) subtotal h = omega arith
quote_for-sum (some promo) (some reason) subtotal h = omega arith
quote_for-sum (some promo) none subtotal h =
    elim (Bool-cases (is_below_min promo.min_order_cents subtotal)) [
      | inl e ↦ rw e (omega arith)
      | inr e ↦ rw e (
          omega
            (arith, discount-le promo.discount_type promo.discount_amount subtotal (h promo refl)))
    ]

abbrev pub matching : List ℕ → PromoDb → Option PromoCode
matching code db =
    find_where (λ p. same_codes p.code (normalize_code code) && not p.is_deleted) db.promo_codes

lookup_promo :
    (now : ℕ) (code : List ℕ) (user : Option ℕ) (db : PromoDb)
    → (lookup now code user db).0 ≡ matching code db
unfolding lookup
lookup_promo now code user db = elim (Option-cases (matching code db)) [
  | inl n ↦ rw (n, lookup) refl
  | inr (p, e) ↦ rw (e, lookup) refl
]

-- When no percentage in the table is above 100, a preview splits the subtotal into discount and
-- final price, for every code, customer and time, whether the code is eligible or refused.
pub preview-Splits :
    (now : ℕ) (code : List ℕ) (subtotal : ℕ) (user : Option ℕ) (db : PromoDb)
    → All (λ p. HasValidPercent p.discount_type p.discount_amount) db.promo_codes
    → (preview now code subtotal user db).discount_cents
        + (preview now code subtotal user db).final_cents
      ≡ subtotal
unfolding preview
preview-Splits now code subtotal user db valid =
    quote_for-sum (lookup now code user db).0 (lookup now code user db).1 subtotal (λ p e.
      find_where-All _ (λ p. HasValidPercent p.discount_type p.discount_amount) db.promo_codes p
        valid (sym (lookup_promo now code user db) ∙ e))
