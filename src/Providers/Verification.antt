-- ===== src/Providers/Verification.antt =====
-- The identity check of a provider: verification_submit of
-- backend/domains/providers/verification_router.py, ProviderVerificationService of
-- backend/domains/users/provider_verification_service.py, and the identity events of
-- backend/domains/payments/webhook_router.py. A session of Stripe Identity is a number. Legal names and
-- addresses are one value `details`.
mod Decisions
mod Saves
mod Approval
mod Tests
use Prim.Native.String.{String}
use raycarwash_project.Base.{
  ℕ, suc, Bool, true, false, not, ◌&&◌, ◌||◌, Option, none, some, List, [], ◌∷◌, ◌++◌, ◌==◌, leb,
  if◌then◌else◌, count_where, find_where, update_where,
}
use raycarwash_project.Store.{Error, http, Result, ok, err}
use raycarwash_project.Rides.{scalar_one_or_none}

pub data VerificationStatus : Type 0 where
  not_submitted pending approved rejected : VerificationStatus

abbrev pub is_approved : VerificationStatus → Bool
is_approved approved = true
is_approved _ = false

abbrev pub is_pending : VerificationStatus → Bool
is_pending pending = true
is_pending _ = false

pub record ProviderProfile : Type 0 where
  pub id : ℕ
  pub user_id : ℕ
  pub verification_status : VerificationStatus
  pub stripe_verification_session_id : Option ℕ
  pub details : Option String
  pub background_check_consent_at : Option ℕ
  pub verification_submitted_at : Option ℕ
  pub verification_reviewed_at : Option ℕ
  pub rejection_reason : Option String
  pub is_accepting_bookings : Bool

pub record ProviderDb : Type 0 where
  pub next_id : ℕ
  pub profiles : List ProviderProfile

-- the flags of the settings that the code reads
pub record VerificationSettings : Type 0 where
  pub debug : Bool
  pub is_stripe_placeholder : Bool

abbrev pub of_user : ℕ → ProviderProfile → Bool
of_user user p = p.user_id == user

abbrev pub names_session : ℕ → ProviderProfile → Bool
names_session session p = elim p.stripe_verification_session_id [
  | none ↦ false
  | some s ↦ s == session
]

-- the changed fields of the one profile that a query found
abbrev pub save :
    (ProviderProfile → Bool) → (ProviderProfile → ProviderProfile) → ProviderDb → ProviderDb
save found change d = record d { profiles = update_where found change d.profiles }

-- `if profile.verification_status == "not_submitted"`
abbrev pub opened : VerificationStatus → VerificationStatus
opened not_submitted = pending
opened other = other

abbrev pub with_session : ℕ → ProviderProfile → ProviderProfile
with_session session p = record p {
  stripe_verification_session_id = some session;
  verification_status = opened p.verification_status;
}

-- The answer: whether the check is skipped, and the session.
pub record VerificationStartResponse : Type 0 where
  pub is_dev_bypass : Bool
  pub session_id : Option ℕ

-- start of ProviderVerificationService; `created` is what Stripe answers, none when it raises
unfoldable pub start :
    VerificationSettings → Option ℕ → ℕ → ProviderDb → Result VerificationStartResponse × ProviderDb
start settings created user d = elim (scalar_one_or_none (of_user user) d.profiles) [
  | err e ↦ (err e, d)
  | ok found ↦ elim found [
    | none ↦ (err (http 409), d)
    | some _ ↦
        if settings.debug || settings.is_stripe_placeholder
        then (ok (record { is_dev_bypass = true; session_id = none }), d)
        else elim created [
          | none ↦ (err (http 502), d)
          | some session ↦ (
            ok (record { is_dev_bypass = false; session_id = some session }),
            save (of_user user) (with_session session) d,
          )
        ]
  ]
]

pub record VerificationSubmitRequest : Type 0 where
  pub details : String
  pub background_check_consent : Bool
  pub session_id : Option ℕ

abbrev pub skeleton : ℕ → ℕ → ProviderProfile
skeleton id user = record {
  id = id;
  user_id = user;
  verification_status = not_submitted;
  stripe_verification_session_id = none;
  details = none;
  background_check_consent_at = none;
  verification_submitted_at = none;
  verification_reviewed_at = none;
  rejection_reason = none;
  is_accepting_bookings = false;
}

-- _get_or_create_profile, of a query that found at most one
abbrev pub get_or_create_profile : ℕ → Option ProviderProfile → ProviderDb → ProviderDb
get_or_create_profile user (some _) d = d
get_or_create_profile user none d = record {
  next_id = suc d.next_id;
  profiles = d.profiles ++ (skeleton d.next_id user ∷ []);
}

abbrev pub with_info : ℕ → VerificationSubmitRequest → ProviderProfile → ProviderProfile
with_info now body p = record p {
  details = some body.details;
  background_check_consent_at = some now;
  verification_submitted_at = some now;
}

-- The two ways on: a request without a session is taken for a skipped check.
abbrev pub judged : ℕ → Option ℕ → ProviderProfile → ProviderProfile
judged now none p = record p {
  verification_status = approved;
  verification_reviewed_at = some now;
  is_accepting_bookings = true;
}
judged now (some session) p = record p {
  stripe_verification_session_id = some session;
  verification_status = pending;
  is_accepting_bookings = false;
}

abbrev pub submitted : ℕ → VerificationSubmitRequest → ProviderProfile → ProviderProfile
submitted now body p = judged now body.session_id (with_info now body p)

unfoldable pub submit :
    ℕ → ℕ → VerificationSubmitRequest → ProviderDb → Result (Unit {0}) × ProviderDb
submit now user body d =
    if body.background_check_consent
    then elim (scalar_one_or_none (of_user user) d.profiles) [
      | err e ↦ (err e, d)
      | ok found ↦
          (ok tt, save (of_user user) (submitted now body) (get_or_create_profile user found d))
    ]
    else (err (http 422), d)

abbrev pub verified : ℕ → ProviderProfile → ProviderProfile
verified now p = record p {
  verification_status = approved;
  verification_reviewed_at = some now;
  is_accepting_bookings = true;
}

abbrev pub turned_down : ℕ → String → ProviderProfile → ProviderProfile
turned_down now reason p = record p {
  verification_status = rejected;
  verification_reviewed_at = some now;
  rejection_reason = some reason;
  is_accepting_bookings = false;
}

-- the profile of an event's session, when there is one
abbrev pub review :
    ℕ → (ProviderProfile → ProviderProfile) → ProviderDb → Result (Unit {0}) × ProviderDb
review session change d = elim (scalar_one_or_none (names_session session) d.profiles) [
  | err e ↦ (err e, d)
  | ok found ↦ elim found [
    | none ↦ (ok tt, d)
    | some _ ↦ (ok tt, save (names_session session) change d)
  ]
]

unfoldable pub handle_identity_verified : ℕ → ℕ → ProviderDb → Result (Unit {0}) × ProviderDb
handle_identity_verified now session d = review session (verified now) d

-- `reason` is the text of the event's last_error
unfoldable pub handle_identity_requires_input :
    ℕ → ℕ → String → ProviderDb → Result (Unit {0}) × ProviderDb
handle_identity_requires_input now session reason d = review session (turned_down now reason) d

-- status of ProviderVerificationService: whether a session is in flight
abbrev pub has_active_session : ProviderProfile → Bool
has_active_session p =
    is_pending p.verification_status
    && elim p.stripe_verification_session_id [ none ↦ false | some _ ↦ true ]
