-- ===== src/Promos/Usable.antt =====
-- When a promo code can be used, said without the tests of the service.
use raycarwash_project.Base.{
  ℕ, ◌+◌, ◌≤◌, ◌<◌, ◌≡◌, ◌↔◌, refl, sym, ap, ◌∙◌, subst, inl, inr, Bool, true, false, not, ◌&&◌,
  Option, none, some, List, [], ◌∷◌, ◌==◌, arith, ltb, Bool-cases, Option-cases, All, same_codes,
  find_where, find_where-true,
}
use raycarwash_project.Texts.{same_codes_refl, same_codes-eq}
use raycarwash_project.Users.Defaults.Counts.{one_if, IsIn, find_where-IsIn}
use raycarwash_project.Promos.{
  PromoCode, AppliedPromoCode, PromoDb, normalize_code, has_begun, has_ended,
  global_ineligible_reason, user_redemptions, remaining_for, or_used_up, lookup, is_below_min,
  quote_for, preview,
}

-- The uses of a promo by a customer.
abbrev pub redemptions : ℕ → ℕ → List AppliedPromoCode → ℕ
redemptions promo user [] = 0
redemptions promo user (a ∷ applied) =
    one_if (a.promo_code_id == promo && a.user_id == user) + redemptions promo user applied

abbrev pub HasBegun : ℕ → Option ℕ → Type 0
HasBegun now none = Unit
HasBegun now (some valid_from) = valid_from ≤ now

abbrev pub NotEnded : ℕ → Option ℕ → Type 0
NotEnded now none = Unit
NotEnded now (some valid_until) = now ≤ valid_until

abbrev pub HasLeast : ℕ → Option ℕ → Type 0
HasLeast subtotal none = Unit
HasLeast subtotal (some least) = least ≤ subtotal

abbrev pub HasUsesLeft : Option ℕ → PromoCode → List AppliedPromoCode → Type 0
HasUsesLeft none p applied = Unit
HasUsesLeft (some user) p applied = redemptions p.id user applied < p.max_redemptions_per_user

abbrev pub IsUsable : ℕ → ℕ → Option ℕ → List AppliedPromoCode → PromoCode → Type 0
IsUsable now subtotal user applied p =
    (p.is_active ≡ true)
    × HasBegun now p.valid_from
    × NotEnded now p.valid_until
    × HasUsesLeft user p applied
    × HasLeast subtotal p.min_order_cents

-- A promo of the table that is not deleted, of this code, and usable.
abbrev pub NamesUsable : ℕ → List ℕ → ℕ → Option ℕ → PromoDb → Type 0
NamesUsable now code subtotal user db =
    (p : PromoCode) × IsIn p db.promo_codes
    × (p.code ≡ code)
    × (p.is_deleted ≡ false)
    × IsUsable now subtotal user db.applied p

-- uq_promo_codes_code
abbrev pub HasUniqueCodes : List PromoCode → Type 0
HasUniqueCodes [] = Unit
HasUniqueCodes (p ∷ promos) = All (λ q. ¬ (p.code ≡ q.code)) promos × HasUniqueCodes promos

abbrev named : List ℕ → PromoCode → Bool
named code p = same_codes p.code code && not p.is_deleted

other_code :
    (x p : PromoCode) (promos : List PromoCode)
    → All (λ q. ¬ (x.code ≡ q.code)) promos
    → IsIn p promos
    → ¬ (x.code ≡ p.code)
other_code x p [] h at = absurd at
other_code x p (q ∷ promos) h (inl same) = λ e. h.0 (e ∙ ap (λ z. z.code) same)
other_code x p (q ∷ promos) h (inr at) = other_code x p promos h.1 at

find_where-named :
    (code : List ℕ) (p : PromoCode) (promos : List PromoCode)
    → HasUniqueCodes promos
    → IsIn p promos
    → p.code ≡ code
    → p.is_deleted ≡ false
    → find_where (named code) promos ≡ some p
find_where-named code p [] unique at e kept = absurd at
find_where-named code p (x ∷ promos) unique (inl same) e kept =
    subst (λ z. find_where (named code) (z ∷ promos) ≡ some p) same
      (rw (e, same_codes_refl code, kept) refl)
find_where-named code p (x ∷ promos) unique (inr at) e kept =
    elim (Bool-cases (same_codes x.code code)) [
      | inl same ↦
          absurd (other_code x p promos unique.0 at (same_codes-eq x.code code same ∙ sym e))
      | inr differ ↦ rw differ (find_where-named code p promos unique.1 at e kept)
    ]

named-both :
    (code : List ℕ) (promos : List PromoCode) (p : PromoCode)
    → find_where (named code) promos ≡ some p
    → (p.code ≡ code) × (p.is_deleted ≡ false)
named-both code promos p f =
    let found = find_where-true (named code) promos p f in
    (same_codes-eq p.code code (ground (arith, found)), ground (arith, found))

count-redemptions :
    (promo user : ℕ) (applied : List AppliedPromoCode)
    → user_redemptions promo user applied ≡ redemptions promo user applied
unfolding user_redemptions
count-redemptions promo user [] = refl
count-redemptions promo user (a ∷ applied) =
    elim (Bool-cases (a.promo_code_id == promo && a.user_id == user)) [
      | inl e ↦ rw e (omega (arith, count-redemptions promo user applied))
      | inr e ↦ rw e (omega (arith, count-redemptions promo user applied))
    ]

-- The tests of the service, as one.
abbrev uses_left : Option ℕ → PromoCode → List AppliedPromoCode → Bool
uses_left none p applied = true
uses_left (some user) p applied =
    ltb (user_redemptions p.id user applied) p.max_redemptions_per_user

abbrev passes : ℕ → ℕ → Option ℕ → List AppliedPromoCode → PromoCode → Bool
passes now subtotal user applied p =
    p.is_active
    && (has_begun now p.valid_from
        && (not (has_ended now p.valid_until)
            && (uses_left user p applied && not (is_below_min p.min_order_cents subtotal))))

quote_for-passes :
    (now subtotal : ℕ) (user : Option ℕ) (applied : List AppliedPromoCode) (p : PromoCode)
    → (quote_for
        (some p)
        (or_used_up (global_ineligible_reason now p) (remaining_for user p applied))
        subtotal).eligible
      ≡ passes now subtotal user applied p
unfolding global_ineligible_reason
quote_for-passes now subtotal none applied p = ground arith
quote_for-passes now subtotal (some user) applied p = ground arith

has_begun-HasBegun : (now : ℕ) (o : Option ℕ) → (has_begun now o ≡ true) ↔ HasBegun now o
has_begun-HasBegun now none = (λ e. tt, λ h. refl)
has_begun-HasBegun now (some t) = (λ e. ground (arith, e), λ h. ground (arith, h))

has_ended-NotEnded : (now : ℕ) (o : Option ℕ) → (not (has_ended now o) ≡ true) ↔ NotEnded now o
has_ended-NotEnded now none = (λ e. tt, λ h. refl)
has_ended-NotEnded now (some t) = (λ e. ground (arith, e), λ h. ground (arith, h))

is_below_min-HasLeast :
    (subtotal : ℕ) (o : Option ℕ) → (not (is_below_min o subtotal) ≡ true) ↔ HasLeast subtotal o
is_below_min-HasLeast subtotal none = (λ e. tt, λ h. refl)
is_below_min-HasLeast subtotal (some t) = (λ e. ground (arith, e), λ h. ground (arith, h))

uses_left-HasUsesLeft :
    (o : Option ℕ) (p : PromoCode) (applied : List AppliedPromoCode)
    → (uses_left o p applied ≡ true) ↔ HasUsesLeft o p applied
uses_left-HasUsesLeft none p applied = (λ e. tt, λ h. refl)
uses_left-HasUsesLeft (some user) p applied = (
  λ e. ground (arith, e, count-redemptions p.id user applied),
  λ h. ground (arith, h, count-redemptions p.id user applied),
)

module _ (now subtotal : ℕ) (user : Option ℕ) (applied : List AppliedPromoCode)
    (p : PromoCode) where
  passes-IsUsable :
      (passes now subtotal user applied p ≡ true) ↔ IsUsable now subtotal user applied p
  passes-IsUsable = (
    λ e. (
      ground (arith, e),
      (has_begun-HasBegun now p.valid_from).0 (ground (arith, e)),
      (has_ended-NotEnded now p.valid_until).0 (ground (arith, e)),
      (uses_left-HasUsesLeft user p applied).0 (ground (arith, e)),
      (is_below_min-HasLeast subtotal p.min_order_cents).0 (ground (arith, e)),
    ),
    λ (active, begun, lasts, left, least).
        rw
          (
            (uses_left-HasUsesLeft user p applied).1 left,
            (has_begun-HasBegun now p.valid_from).1 begun,
            (has_ended-NotEnded now p.valid_until).1 lasts,
            (is_below_min-HasLeast subtotal p.min_order_cents).1 least,
            active,
          )
          refl,
  )

preview_of :
    (now : ℕ) (code : List ℕ) (subtotal : ℕ) (user : Option ℕ) (db : PromoDb) (p : PromoCode)
    → find_where (named (normalize_code code)) db.promo_codes ≡ some p
    → (preview now code subtotal user db).eligible ≡ passes now subtotal user db.applied p
unfolding preview lookup
preview_of now code subtotal user db p e =
    rw (e, preview, lookup) (quote_for-passes now subtotal user db.applied p)

preview-none :
    (now : ℕ) (code : List ℕ) (subtotal : ℕ) (user : Option ℕ) (db : PromoDb)
    → find_where (named (normalize_code code)) db.promo_codes ≡ none
    → (preview now code subtotal user db).eligible ≡ false
unfolding preview lookup
preview-none now code subtotal user db e = rw (e, preview, lookup) refl

-- When no two promos of the table have one code, as its constraint asks: a preview says eligible
-- exactly when a promo of the table has the normalized code, is not deleted, is active, began at `now`
-- at the latest, ends at `now` at the earliest, has been used less often by the customer, if one is
-- named, than it allows, and asks for an order of at most the subtotal.
pub preview-usable :
    (now : ℕ) (code : List ℕ) (subtotal : ℕ) (user : Option ℕ) (db : PromoDb)
    → HasUniqueCodes db.promo_codes
    → ((preview now code subtotal user db).eligible ≡ true)
      ↔ NamesUsable now (normalize_code code) subtotal user db
preview-usable now code subtotal user db unique = (
  λ e. elim (Option-cases (find_where (named (normalize_code code)) db.promo_codes)) [
    | inl n ↦ absurd (ground (arith, e, preview-none now code subtotal user db n))
    | inr (p, f) ↦
        let (same, kept) = named-both (normalize_code code) db.promo_codes p f in
        (
          p,
          find_where-IsIn (named (normalize_code code)) db.promo_codes p f,
          same,
          kept,
          (passes-IsUsable now subtotal user db.applied p).0
              (sym (preview_of now code subtotal user db p f) ∙ e),
        )
  ],
  λ (p, at, same, kept, h).
      preview_of now code subtotal user db p
        (find_where-named (normalize_code code) p db.promo_codes unique at same kept)
      ∙ (passes-IsUsable now subtotal user db.applied p).1 h,
)
