-- ===== src/Providers/Application.antt =====
-- The application of a detailer: ProviderProfileService of
-- backend/domains/users/provider_profile_service.py, and the decisions of administrators on profiles in
-- backend/domains/admin/repository.py. The code of a city, a date, and the last four digits of a social
-- security number are numbers (none of their texts is empty). Texts of a profile that no decision reads
-- (tagline, bio, years, links, working hours) are not modelled.
pub mod Decisions
pub mod Requests
mod Steps
mod Complete
mod Kept
mod Tests
use Prim.Native.String.{String}
use text.Mathlib.Text.{◌==◌ as str_eq}
use raycarwash_project.Base.{
  ℕ, suc, Bool, true, false, not, ◌&&◌, ◌||◌, Option, none, some, List, [], ◌∷◌, ◌++◌, ◌==◌, leb,
  map, if◌then◌else◌, any, find_where, select_where, update_where,
}
use raycarwash_project.Store.{Error, http, Result, ok, err}
use raycarwash_project.Rides.{scalar_one_or_none}
use raycarwash_project.Payments.Intents.{truthy}
use raycarwash_project.Providers.Verification.{
  VerificationStatus, not_submitted, approved, rejected, is_approved,
}
use raycarwash_project.Admin.Roles.{Role, UserRoleAssociation}

pub data ProviderType : Type 0 where
  detailer mechanic : ProviderType

pub data ApplicationStatus : Type 0 where
  draft submitted bg_check_pending docs_review : ApplicationStatus
  application_approved application_rejected suspended : ApplicationStatus

pub data CityStatus : Type 0 where
  planned pilot active paused : CityStatus

pub record City : Type 0 where
  pub code : ℕ
  pub status : CityStatus
  pub is_deleted : Bool

pub record ProviderProfile : Type 0 where
  pub id : ℕ
  pub user_id : ℕ
  pub provider_type : ProviderType
  pub business_name : String
  pub display_name : Option String
  pub legal_full_name : Option String
  pub date_of_birth : Option ℕ
  pub ssn_last_4 : Option ℕ
  pub home_city_code : Option ℕ
  pub service_radius_miles : ℕ
  pub water_tank_gallons : Option ℕ
  pub services_offered : Option (List String)
  pub background_check_consent : Bool
  pub application_status : ApplicationStatus
  pub verification_status : VerificationStatus
  pub verification_submitted_at : Option ℕ
  pub verification_reviewed_at : Option ℕ
  pub rejection_reason : Option String
  pub is_active : Bool
  pub is_deleted : Bool

-- the action with the profile and its actor
pub data ProfileAudit : Type 0 where
  mode_switched profile_updated status_changed application_submitted :
      (profile actor : ℕ) → ProfileAudit
  detailer_approved detailer_suspended : (profile actor : ℕ) → ProfileAudit
  verification_approved verification_rejected : (profile actor : ℕ) → ProfileAudit

pub record ApplicationDb : Type 0 where
  pub next_id : ℕ
  pub roles : List Role
  pub user_roles : List UserRoleAssociation
  pub cities : List City
  pub profiles : List ProviderProfile
  pub audit : List ProfileAudit

abbrev pub is_detailer : ProviderType → Bool
is_detailer detailer = true
is_detailer mechanic = false

-- get_profile of ProviderRepository for a detailer
abbrev pub get_profile : ℕ → ApplicationDb → Result (Option ProviderProfile)
get_profile user d =
    scalar_one_or_none (λ p. p.user_id == user && (is_detailer p.provider_type && not p.is_deleted))
      d.profiles

-- get_or_404, and what a handler does with the profile
abbrev pub with_profile :
    ℕ
    → (ProviderProfile → Result (Unit {0}) × ApplicationDb)
    → ApplicationDb
    → Result (Unit {0}) × ApplicationDb
with_profile user next d = elim (get_profile user d) [
  | err e ↦ (err e, d)
  | ok none ↦ (err (http 404), d)
  | ok (some p) ↦ next p
]

-- a changed row, with its line of the log
abbrev pub save : ProviderProfile → ProfileAudit → ApplicationDb → ApplicationDb
save row line d = record d {
  profiles = update_where (λ p. p.id == row.id) (λ _. row) d.profiles;
  audit = d.audit ++ (line ∷ []);
}

pub record ActivateRequest : Type 0 where
  pub business_name : String
  pub display_name : Option String
  pub service_radius_miles : ℕ

abbrev pub is_radius : ℕ → Bool
is_radius miles = leb 1 miles && leb miles 200

abbrev pub new_profile : ℕ → ℕ → ActivateRequest → ProviderProfile
new_profile id user body = record {
  id = id;
  user_id = user;
  provider_type = detailer;
  business_name = body.business_name;
  display_name = body.display_name;
  legal_full_name = none;
  date_of_birth = none;
  ssn_last_4 = none;
  home_city_code = none;
  service_radius_miles = body.service_radius_miles;
  water_tank_gallons = none;
  services_offered = none;
  background_check_consent = false;
  application_status = draft;
  verification_status = not_submitted;
  verification_submitted_at = none;
  verification_reviewed_at = none;
  rejection_reason = none;
  is_active = false;
  is_deleted = false;
}

-- `value` if it is given
abbrev pub given : {A : Type 0} → Option A → Option A → Option A
given none old = old
given (some value) old = some value

abbrev pub given_or : {A : Type 0} → Option A → A → A
given_or none old = old
given_or (some value) old = value

abbrev pub reactivated : ActivateRequest → ProviderProfile → ProviderProfile
reactivated body p = record p {
  business_name = body.business_name;
  display_name = given body.display_name p.display_name;
  service_radius_miles = body.service_radius_miles;
}

abbrev pub assign_once : ℕ → ℕ → ApplicationDb → ApplicationDb
assign_once user role d =
    if any (λ u. u.user_id == user && u.role_id == role) d.user_roles
    then d
    else record d { user_roles = d.user_roles ++ (record { user_id = user; role_id = role } ∷ []) }

abbrev pub insert_profile : ProviderProfile → ApplicationDb → ApplicationDb
insert_profile row d = record d {
  next_id = suc d.next_id;
  profiles = d.profiles ++ (row ∷ []);
  audit = d.audit ++ (mode_switched row.id row.user_id ∷ []);
}

-- the profile, once the role is assigned
abbrev pub upsert :
    ℕ
    → ActivateRequest
    → Result (Option ProviderProfile)
    → ApplicationDb
    → Result (Unit {0}) × ApplicationDb
upsert user body (err e) d = (err e, d)
upsert user body (ok none) d = (ok tt, insert_profile (new_profile d.next_id user body) d)
upsert user body (ok (some p)) d = (ok tt, save (reactivated body p) (mode_switched p.id user) d)

-- A body out of range is refused before the handler.
unfoldable pub activate : ℕ → ActivateRequest → ApplicationDb → Result (Unit {0}) × ApplicationDb
activate user body d =
    if is_radius body.service_radius_miles
    then elim (scalar_one_or_none (λ (r : Role). str_eq r.name "detailer") d.roles) [
      | err e ↦ (err e, d)
      | ok none ↦ (err (http 500), d)
      | ok (some role) ↦ upsert user body (get_profile user d) (assign_once user role.id d)
    ]
    else (err (http 422), d)
