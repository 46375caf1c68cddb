-- ===== src/Promos/Tests.antt =====
-- One code of ten per cent.
use raycarwash_project.Base.{◌≡◌, ◌↔◌, refl, true, false, none, some, [], ◌∷◌}
use raycarwash_project.Catalog.{codes, is_space, lstrip, strip}
use raycarwash_project.Promos.{
  PromoCode, percent, PromoDb, max_redemptions_per_user_reached, refuse, preview, lookup,
  normalize_code, global_ineligible_reason, user_redemptions,
}
use raycarwash_project.Promos.Usable.{NamesUsable, preview-usable}

abbrev new10 : PromoCode
new10 = record {
  id = 1;
  code = codes "NEW10";
  discount_type = percent;
  discount_amount = 10;
  min_order_cents = some 2000;
  max_redemptions_per_user = 1;
  valid_from = none;
  valid_until = some 900;
  is_active = true;
  is_deleted = false;
}

abbrev promo_db : PromoDb
promo_db = record {
  promo_codes = new10 ∷ [];
  applied = record { promo_code_id = 1; user_id = 8 } ∷ [];
}

-- typed in lower case, with spaces
ten_off :
    preview 100 (codes " new10 ") 2999 (some 7) promo_db
    ≡ record { eligible = true; discount_cents = 299; final_cents = 2700; reason = none }
unfolding preview lookup normalize_code strip lstrip is_space global_ineligible_reason
    user_redemptions
ten_off = refl

used_up :
    preview 100 (codes "NEW10") 2999 (some 8) promo_db
    ≡ refuse 2999 max_redemptions_per_user_reached
unfolding preview lookup normalize_code strip lstrip is_space global_ineligible_reason
    user_redemptions
used_up = refl

preview-usable_example :
    ((preview 100 (codes "NEW10") 2999 (some 7) promo_db).eligible ≡ true)
    ↔ NamesUsable 100 (normalize_code (codes "NEW10")) 2999 (some 7) promo_db
preview-usable_example = preview-usable 100 (codes "NEW10") 2999 (some 7) promo_db (tt, tt)
