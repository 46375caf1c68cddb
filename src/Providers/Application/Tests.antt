-- ===== src/Providers/Application/Tests.antt =====
-- A detailer applies, is approved and suspended.
use raycarwash_project.Base.{ℕ, ◌≡◌, refl, Bool, true, false, none, some, List, [], ◌∷◌, map, All}
use raycarwash_project.Store.{http, ok, err}
use raycarwash_project.Providers.Verification.{VerificationStatus, not_submitted, rejected}
use raycarwash_project.Providers.Application.{
  ProviderProfile, ApplicationDb, detailer, draft, application_approved, pilot, paused,
  ActivateRequest, activate,
}
use raycarwash_project.Providers.Application.Requests.{
  UpdateRequest, update, submit_application, set_accepting_bookings, missing,
}
use raycarwash_project.Providers.Application.Decisions.{
  approve_detailer, suspend_detailer, approve_verification, reject_verification,
}
use raycarwash_project.Providers.Application.Steps.{
  ApplicationStep, activates, updates, submits, sets_accepting, approves, suspends, verifies,
  rejects, serve_all,
}
use raycarwash_project.Providers.Application.Complete.{Complete}
use raycarwash_project.Providers.Application.Kept.{serve_all-Complete}

abbrev nobody : ApplicationDb
nobody = record {
  next_id = 10;
  roles = record { id = 3; name = "detailer"; is_system = true; is_deleted = false } ∷ [];
  user_roles = [];
  cities =
      record { code = 7; status = pilot; is_deleted = false }
      ∷ record { code = 8; status = paused; is_deleted = false }
      ∷ [];
  profiles = [];
  audit = [];
}

abbrev a_body : ActivateRequest
a_body = record { business_name = "Ray"; display_name = none; service_radius_miles = 25 }

-- what the identity check has left on the draft
abbrev a_draft : ProviderProfile
a_draft = record {
  id = 5;
  user_id = 1;
  provider_type = detailer;
  business_name = "Ray";
  display_name = none;
  legal_full_name = some "Ray Doe";
  date_of_birth = some 9000;
  ssn_last_4 = none;
  home_city_code = none;
  service_radius_miles = 25;
  water_tank_gallons = none;
  services_offered = none;
  background_check_consent = true;
  application_status = draft;
  verification_status = not_submitted;
  verification_submitted_at = none;
  verification_reviewed_at = none;
  rejection_reason = none;
  is_active = false;
  is_deleted = false;
}

abbrev one_draft : ApplicationDb
one_draft = record nobody { profiles = a_draft ∷ [] }

abbrev with_tank : ℕ → UpdateRequest
with_tank gallons = record {
  business_name = none;
  display_name = none;
  service_radius_miles = none;
  ssn_last_4 = some 1234;
  home_city_code = some 7;
  water_tank_gallons = some gallons;
  services_offered = some ("soap" ∷ []);
}

-- A detailer who uses the customer's water (0 gallons) cannot submit.
no_tank_refused :
    let d = (update 1 (with_tank 0) one_draft).1 in
    ((update 1 (with_tank 0) one_draft).0 ≡ ok tt)
    × (((submit_application 99 1 d).0 ≡ err (http 422))
        × (map missing d.profiles ≡ ("Water tank size" ∷ []) ∷ []))
unfolding update submit_application missing
no_tank_refused = (refl, (refl, refl))

-- a city that does not take detailers now
paused_city :
    (update 1 (record (with_tank 40) { home_city_code = some 8 }) one_draft).0 ≡ err (http 422)
unfolding update
paused_city = refl

abbrev career : List ApplicationStep
career =
    activates 2 a_body
    ∷ updates 1 (with_tank 40)
    ∷ submits 99 1
    ∷ approves 100 5 9 ""
    ∷ suspends 101 5 9 "late"
    ∷ approves 102 5 9 ""
    ∷ []

served :
    map (λ (p : ProviderProfile). p.application_status) (serve_all career one_draft).profiles
    ≡ application_approved ∷ draft ∷ []
unfolding activate update submit_application approve_detailer suspend_detailer missing
served = refl

-- A profile that accepts bookings goes on doing so when its identity is rejected.
rejected_accepts :
    map {B = Bool × VerificationStatus}
      (λ (p : ProviderProfile). (p.is_active, p.verification_status))
      (serve_all
        (verifies 1 5 9 "" ∷ sets_accepting 1 true ∷ rejects 2 5 9 "forged" ∷ [])
        one_draft).profiles
    ≡ (true, rejected) ∷ []
unfolding approve_verification set_accepting_bookings reject_verification
rejected_accepts = refl

not_verified : (set_accepting_bookings 1 true one_draft).0 ≡ err (http 403)
unfolding set_accepting_bookings
not_verified = refl

drafted : All Complete one_draft.profiles
drafted = ((λ late. absurd (cc late)), tt)

serve_all-Complete_example : All Complete (serve_all career one_draft).profiles
serve_all-Complete_example = serve_all-Complete career one_draft drafted
