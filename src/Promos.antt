-- ===== src/Promos.antt =====
-- PromoService of backend/domains/promos/service.py over promo_codes and applied_promo_codes
-- (backend/domains/promos/models.py). A code is its code points; upper case and white space are
-- those of ASCII.
mod Preview
mod Usable
mod Tests
use raycarwash_project.Base.{
  ℕ, zero, ◌+◌, ◌-◌, ◌*◌, ◌/◌, Bool, true, false, not, ◌&&◌, ◌||◌, Option, none, some, List, [],
  ◌∷◌, ◌==◌, min, map, ltb, leb, if◌then◌else◌, same_codes, count_where, find_where,
}
use raycarwash_project.Catalog.{strip}

pub data DiscountType : Type 0 where
  fixed_cents percent : DiscountType

pub record PromoCode : Type 0 where
  pub id : ℕ
  pub code : List ℕ
  pub discount_type : DiscountType
  pub discount_amount : ℕ
  pub min_order_cents : Option ℕ
  pub max_redemptions_per_user : ℕ
  pub valid_from : Option ℕ
  pub valid_until : Option ℕ
  pub is_active : Bool
  pub is_deleted : Bool

pub record AppliedPromoCode : Type 0 where
  pub promo_code_id : ℕ
  pub user_id : ℕ

pub record PromoDb : Type 0 where
  pub promo_codes : List PromoCode
  pub applied : List AppliedPromoCode

pub data Reason : Type 0 where
  not_found inactive not_yet_valid expired max_redemptions_per_user_reached : Reason
  below_min_order : Reason

upper_code : ℕ → ℕ
upper_code c = if leb b'a' c && leb c b'z' then c - 32 else c

unfoldable pub normalize_code : List ℕ → List ℕ
unfolding upper_code
normalize_code code = map upper_code (strip code)

abbrev pub has_begun : ℕ → Option ℕ → Bool
has_begun now none = true
has_begun now (some t) = leb t now

abbrev pub has_ended : ℕ → Option ℕ → Bool
has_ended now none = false
has_ended now (some t) = ltb t now

unfoldable pub global_ineligible_reason : ℕ → PromoCode → Option Reason
global_ineligible_reason now promo =
    if not promo.is_active
    then some inactive
    else if not (has_begun now promo.valid_from)
    then some not_yet_valid
    else if has_ended now promo.valid_until
    then some expired
    else none

unfoldable pub user_redemptions : ℕ → ℕ → List AppliedPromoCode → ℕ
user_redemptions promo user applied =
    count_where (λ a. a.promo_code_id == promo && a.user_id == user) applied

-- `max(0, limit - redeemed)`: the subtraction stops at 0
abbrev pub remaining_for : Option ℕ → PromoCode → List AppliedPromoCode → Option ℕ
remaining_for none promo applied = none
remaining_for (some user) promo applied =
    some (promo.max_redemptions_per_user - user_redemptions promo.id user applied)

abbrev pub or_used_up : Option Reason → Option ℕ → Option Reason
or_used_up (some reason) _ = some reason
or_used_up none (some zero) = some max_redemptions_per_user_reached
or_used_up none _ = none

unfoldable pub lookup :
    ℕ → List ℕ → Option ℕ → PromoDb → Option PromoCode × Option Reason × Option ℕ
lookup now code user db =
    elim (find_where (λ p. same_codes p.code (normalize_code code) && not p.is_deleted)
      db.promo_codes) [
        | none ↦ (none, some not_found, none)
        | some promo ↦
            let remaining = remaining_for user promo db.applied in
            (some promo, or_used_up (global_ineligible_reason now promo) remaining, remaining)
      ]

-- eligible, discount_cents, final_cents, reason
pub record Quote : Type 0 where
  pub eligible : Bool
  pub discount_cents : ℕ
  pub final_cents : ℕ
  pub reason : Option Reason

abbrev pub refuse : ℕ → Reason → Quote
refuse subtotal reason = record {
  eligible = false;
  discount_cents = 0;
  final_cents = subtotal;
  reason = some reason;
}

-- `promo.min_order_cents and subtotal_cents < promo.min_order_cents`
abbrev pub is_below_min : Option ℕ → ℕ → Bool
is_below_min none subtotal = false
is_below_min (some least) subtotal = ltb subtotal least

abbrev pub discount : DiscountType → ℕ → ℕ → ℕ
discount fixed_cents amount subtotal = min amount subtotal
discount percent amount subtotal = subtotal * amount / 100

abbrev pub quote_for : Option PromoCode → Option Reason → ℕ → Quote
quote_for none none subtotal = refuse subtotal not_found
quote_for none (some reason) subtotal = refuse subtotal reason
quote_for (some promo) (some reason) subtotal = refuse subtotal reason
quote_for (some promo) none subtotal =
    if is_below_min promo.min_order_cents subtotal
    then refuse subtotal below_min_order
    else let d = discount promo.discount_type promo.discount_amount subtotal in
      record { eligible = true; discount_cents = d; final_cents = subtotal - d; reason = none }

unfoldable pub preview : ℕ → List ℕ → ℕ → Option ℕ → PromoDb → Quote
preview now code subtotal user db =
    let (promo, reason, remaining) = lookup now code user db in quote_for promo reason subtotal
