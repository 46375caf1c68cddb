-- ===== src/Providers/Application/Requests.antt =====
-- The requests of a detailer about an activated profile: update, deactivate, set_accepting_bookings and
-- submit_application of backend/domains/users/provider_profile_service.py.
use Prim.Native.String.{String}
use raycarwash_project.Base.{
  ℕ, Bool, true, false, not, ◌&&◌, ◌||◌, Option, none, some, List, [], ◌∷◌, ◌==◌, leb, map,
  if◌then◌else◌, select_where,
}
use raycarwash_project.Store.{http, Result, ok, err}
use raycarwash_project.Rides.{scalar_one_or_none}
use raycarwash_project.Payments.Intents.{truthy}
use raycarwash_project.Providers.Verification.{is_approved}
use raycarwash_project.Providers.Application.{
  ProviderProfile, ApplicationDb, ApplicationStatus, draft, submitted, City, CityStatus, pilot,
  active, profile_updated, status_changed, application_submitted, save, with_profile, given,
  given_or, is_radius,
}

pub record UpdateRequest : Type 0 where
  pub business_name : Option String
  pub display_name : Option String
  pub service_radius_miles : Option ℕ
  pub ssn_last_4 : Option ℕ
  pub home_city_code : Option ℕ
  pub water_tank_gallons : Option ℕ
  pub services_offered : Option (List String)

abbrev pub in_range : (ℕ → Bool) → Option ℕ → Bool
in_range test none = true
in_range test (some value) = test value

abbrev pub accepts_providers : CityStatus → Bool
accepts_providers active = true
accepts_providers pilot = true
accepts_providers _ = false

-- _assert_city_active
abbrev pub assert_city_active : ℕ → ApplicationDb → Result (Unit {0})
assert_city_active code d =
    elim (scalar_one_or_none (λ (c : City). c.code == code && not c.is_deleted) d.cities) [
      | err e ↦ err e
      | ok none ↦ err (http 422)
      | ok (some c) ↦ if accepts_providers c.status then ok tt else err (http 422)
    ]

abbrev pub assert_city : Option ℕ → ApplicationDb → Result (Unit {0})
assert_city none d = ok tt
assert_city (some code) d = assert_city_active code d

abbrev pub updated : UpdateRequest → ProviderProfile → ProviderProfile
updated body p = record p {
  business_name = given_or body.business_name p.business_name;
  display_name = given body.display_name p.display_name;
  service_radius_miles = given_or body.service_radius_miles p.service_radius_miles;
  ssn_last_4 = given body.ssn_last_4 p.ssn_last_4;
  home_city_code = given body.home_city_code p.home_city_code;
  water_tank_gallons = given body.water_tank_gallons p.water_tank_gallons;
  services_offered = given body.services_offered p.services_offered;
}

abbrev pub update_profile :
    ℕ → UpdateRequest → ProviderProfile → ApplicationDb → Result (Unit {0}) × ApplicationDb
update_profile user body p d = elim (assert_city body.home_city_code d) [
  | err e ↦ (err e, d)
  | ok _ ↦ (ok tt, save (updated body p) (profile_updated p.id user) d)
]

unfoldable pub update : ℕ → UpdateRequest → ApplicationDb → Result (Unit {0}) × ApplicationDb
update user body d =
    if in_range is_radius body.service_radius_miles
      && in_range (λ gallons. leb gallons 200) body.water_tank_gallons
    then with_profile user (λ p. update_profile user body p d) d
    else (err (http 422), d)

unfoldable pub deactivate : ℕ → ApplicationDb → Result (Unit {0}) × ApplicationDb
deactivate user d =
    with_profile user
      (λ p. (ok tt, save (record p { is_active = false }) (status_changed p.id user) d)) d

abbrev pub toggle : ℕ → Bool → ProviderProfile → ApplicationDb → Result (Unit {0}) × ApplicationDb
toggle user accepting p d =
    if accepting && not (is_approved p.verification_status)
    then (err (http 403), d)
    else if (accepting && p.is_active) || (not accepting && not p.is_active)
    then (ok tt, d)
    else (ok tt, save (record p { is_active = accepting }) (status_changed p.id user) d)

unfoldable pub set_accepting_bookings : ℕ → Bool → ApplicationDb → Result (Unit {0}) × ApplicationDb
set_accepting_bookings user accepting d = with_profile user (λ p. toggle user accepting p d) d

abbrev pub has_text : Option String → Bool
has_text s = elim (truthy s) [ none ↦ false | some _ ↦ true ]

abbrev pub is_given : {A : Type 0} → Option A → Bool
is_given none = false
is_given (some _) = true

-- a number that is given and not 0
abbrev pub has_number : Option ℕ → Bool
has_number none = false
has_number (some n) = not (n == 0)

abbrev pub has_items : Option (List String) → Bool
has_items none = false
has_items (some []) = false
has_items (some (x ∷ xs)) = true

-- _REQUIRED_SUBMIT_FIELDS with the truth of each field
abbrev pub required_fields : ProviderProfile → List (Bool × String)
required_fields p =
    (has_text p.legal_full_name, "Legal full name")
    ∷ (is_given p.date_of_birth, "Date of birth")
    ∷ (is_given p.ssn_last_4, "SSN last 4")
    ∷ (is_given p.home_city_code, "Home city")
    ∷ (not (p.service_radius_miles == 0), "Travel radius")
    ∷ (has_number p.water_tank_gallons, "Water tank size")
    ∷ (has_items p.services_offered, "Services you can offer")
    ∷ (p.background_check_consent, "Background-check consent")
    ∷ []

unfoldable pub missing : ProviderProfile → List String
missing p = map (λ f. f.1) (select_where (λ (f : Bool × String). not f.0) (required_fields p))

abbrev pub is_draft : ApplicationStatus → Bool
is_draft draft = true
is_draft _ = false

abbrev pub application_of : ℕ → ProviderProfile → ProviderProfile
application_of now p = record p {
  application_status = submitted;
  verification_submitted_at = elim p.verification_submitted_at [
    | none ↦ some now
    | some t ↦ some t
  ];
}

abbrev pub submit_profile :
    ℕ → ℕ → ProviderProfile → ApplicationDb → Result (Unit {0}) × ApplicationDb
submit_profile now user p d =
    if not (is_draft p.application_status) then (err (http 409), d) else elim (missing p) [
      | [] ↦ (ok tt, save (application_of now p) (application_submitted p.id user) d)
      | label ∷ labels ↦ (err (http 422), d)
    ]

unfoldable pub submit_application : ℕ → ℕ → ApplicationDb → Result (Unit {0}) × ApplicationDb
submit_application now user d = with_profile user (λ p. submit_profile now user p d) d
