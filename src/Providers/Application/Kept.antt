-- ===== src/Providers/Application/Kept.antt =====
-- Requests and decisions keep applications complete.
use Prim.Native.String.{String}
use raycarwash_project.Base.{
  ℕ, ◌≡◌, refl, inl, inr, Bool, true, false, not, ◌&&◌, ◌||◌, Option, none, some, List, [], ◌∷◌,
  arith, ◌==◌, leb, Bool-cases, if◌then◌else◌, All-append_one, any,
}
use raycarwash_project.Store.{Error, Result, ok, err, Result-cases}
use text.Mathlib.Text.{◌==◌ as str_eq}
use raycarwash_project.Admin.Roles.{Role}
use raycarwash_project.Rides.{scalar_one_or_none}
use raycarwash_project.Providers.Verification.{is_approved}
use raycarwash_project.Providers.Application.{
  ProviderProfile, ApplicationDb, ApplicationStatus, ActivateRequest, ProfileAudit,
  application_approved, suspended, verification_approved, verification_rejected, get_profile, save,
  is_radius, new_profile, reactivated, assign_once, upsert, activate, mode_switched,
  profile_updated, status_changed, application_submitted,
}
use raycarwash_project.Providers.Application.Requests.{
  UpdateRequest, in_range, assert_city, updated, update_profile, update, deactivate, toggle,
  set_accepting_bookings, missing, is_draft, application_of, submit_profile, submit_application,
}
use raycarwash_project.Providers.Application.Decisions.{
  is_approvable, is_suspendable, approve_detailer, suspend_detailer, approve_verification,
  reject_verification, reviewed,
}
use raycarwash_project.Providers.Application.Steps.{
  ApplicationStep, activates, updates, deactivates, sets_accepting, submits, approves, suspends,
  verifies, rejects, transact, serve, serve_all,
}
use raycarwash_project.Providers.Application.Complete.{
  Complete, AllComplete, save-Complete, get_profile-Complete, with_profile-Complete,
  with_row-Complete, missing-Complete, updated-Complete, reactivated-Complete,
}

upsert-Complete :
    (user : ℕ) (body : ActivateRequest) (d before : ApplicationDb)
    → is_radius body.service_radius_miles ≡ true
    → d.profiles ≡ before.profiles
    → AllComplete before
    → AllComplete (transact (upsert user body (get_profile user before) d) before)
upsert-Complete user body d before valid same h = go (get_profile user before) refl
  where
    here : AllComplete d
    here = rw same h

    go :
        (r : Result (Option ProviderProfile))
        → get_profile user before ≡ r
        → AllComplete (transact (upsert user body r d) before)
    go (err x) e = h
    go (ok none) e =
        All-append_one Complete d.profiles (new_profile d.next_id user body) here
          (λ late. absurd (ground (arith, late)))
    go (ok (some p)) e =
        save-Complete (reactivated body p) (mode_switched p.id user) d
          (reactivated-Complete body p valid (get_profile-Complete user p before e h)) here

assign_once-profiles :
    (user role : ℕ) (d : ApplicationDb) → (assign_once user role d).profiles ≡ d.profiles
assign_once-profiles user role d =
    elim (Bool-cases (any (λ u. u.user_id == user && u.role_id == role) d.user_roles)) [
      | inl e ↦ rw (e, assign_once) refl
      | inr e ↦ rw (e, assign_once) refl
    ]

activate-Complete :
    (user : ℕ) (body : ActivateRequest) (d : ApplicationDb)
    → AllComplete d
    → AllComplete (transact (activate user body d) d)
unfolding activate
activate-Complete user body d h = elim (Bool-cases (is_radius body.service_radius_miles)) [
  | inr bad ↦ rw (bad, activate, transact) h
  | inl valid ↦ go (scalar_one_or_none (λ r. str_eq r.name "detailer") d.roles) refl valid
]
  where
    go :
        (r : Result (Option Role))
        → scalar_one_or_none (λ r. str_eq r.name "detailer") d.roles ≡ r
        → is_radius body.service_radius_miles ≡ true
        → AllComplete (transact (activate user body d) d)
    go (err x) e valid = rw (valid, activate, e, transact) h
    go (ok none) e valid = rw (valid, activate, e, transact) h
    go (ok (some role)) e valid =
        rw (valid, activate, e)
          (upsert-Complete user body (assign_once user role.id d) d valid
            (assign_once-profiles user role.id d) h)

update-Complete :
    (user : ℕ) (body : UpdateRequest) (d : ApplicationDb)
    → AllComplete d
    → AllComplete (transact (update user body d) d)
unfolding update
update-Complete user body d h = elim (Bool-cases (in_range is_radius body.service_radius_miles)) [
  | inr bad ↦ rw (bad, update, transact) h
  | inl valid ↦ elim (Bool-cases (in_range (λ gallons. leb gallons 200) body.water_tank_gallons)) [
    | inr bad ↦ rw (valid, update, bad, transact) h
    | inl fits ↦
        rw (valid, update, fits)
          (with_profile-Complete user (λ p. update_profile user body p d) d
            (λ p good. one p good valid) h)
  ]
]
  where
    one :
        (p : ProviderProfile)
        → Complete p
        → in_range is_radius body.service_radius_miles ≡ true
        → AllComplete (transact (update_profile user body p d) d)
    one p good valid = elim (Result-cases (assert_city body.home_city_code d)) [
      | inr (e, x) ↦ rw (x, update_profile, transact) h
      | inl (u, x) ↦
          rw (x, update_profile, transact)
            (save-Complete (updated body p) (profile_updated p.id user) d
              (updated-Complete body p valid good) h)
    ]

set_accepting_bookings-Complete :
    (user : ℕ) (accepting : Bool) (d : ApplicationDb)
    → AllComplete d
    → AllComplete (transact (set_accepting_bookings user accepting d) d)
unfolding set_accepting_bookings
set_accepting_bookings-Complete user accepting d h =
    with_profile-Complete user (λ p. toggle user accepting p d) d one h
  where
    one : (p : ProviderProfile) → Complete p → AllComplete (transact (toggle user accepting p d) d)
    one p good = elim (Bool-cases (accepting && not (is_approved p.verification_status))) [
      | inl e ↦ rw (e, toggle, transact) h
      | inr e ↦
          elim (Bool-cases ((accepting && p.is_active) || (not accepting && not p.is_active))) [
            | inl f ↦ rw (e, toggle, f, transact) h
            | inr f ↦
                rw (e, toggle, f, transact)
                  (save-Complete (record p { is_active = accepting }) (status_changed p.id user) d
                    good h)
          ]
    ]

submit_application-Complete :
    (now user : ℕ) (d : ApplicationDb)
    → AllComplete d
    → AllComplete (transact (submit_application now user d) d)
unfolding submit_application
submit_application-Complete now user d h =
    with_profile-Complete user (λ p. submit_profile now user p d) d one h
  where
    labels :
        (p : ProviderProfile) (xs : List String)
        → missing p ≡ xs
        → is_draft p.application_status ≡ true
        → AllComplete (transact (submit_profile now user p d) d)
    labels p [] e is =
        rw (is, submit_profile, e, transact)
          (save-Complete (application_of now p) (application_submitted p.id user) d
            (missing-Complete p now e) h)
    labels p (x ∷ xs) e is = rw (is, submit_profile, e, transact) h

    one :
        (p : ProviderProfile) → Complete p → AllComplete (transact (submit_profile now user p d) d)
    one p good = elim (Bool-cases (is_draft p.application_status)) [
      | inr e ↦ rw (e, submit_profile, transact) h
      | inl e ↦ labels p (missing p) refl e
    ]

-- A decision on a row that it finds past the draft.
decided-Complete :
    (b : Bool) (p row : ProviderProfile) (line : ProfileAudit) (e : Error) (d : ApplicationDb)
    → (b ≡ true → Complete row)
    → AllComplete d
    → AllComplete (transact (if b then (ok tt, save row line d) else (err e, d)) d)
decided-Complete true p row line e d good h = save-Complete row line d (good refl) h
decided-Complete false p row line e d good h = h

approvable-late : (s : ApplicationStatus) → is_approvable s ≡ true → is_draft s ≡ false
approvable-late s h = ground (arith, h)

suspendable-late : (s : ApplicationStatus) → is_suspendable s ≡ true → is_draft s ≡ false
suspendable-late s h = ground (arith, h)

serve-Complete : (a : ApplicationStep) (d : ApplicationDb) → AllComplete d → AllComplete (serve a d)
unfolding deactivate approve_detailer suspend_detailer approve_verification reject_verification
serve-Complete (activates user body) d h = activate-Complete user body d h
serve-Complete (updates user body) d h = update-Complete user body d h
serve-Complete (deactivates user) d h =
    with_profile-Complete user
      (λ p. (ok tt, save (record p { is_active = false }) (status_changed p.id user) d)) d
      (λ p good. save-Complete (record p { is_active = false }) (status_changed p.id user) d good h)
      h
serve-Complete (sets_accepting user accepting) d h =
    set_accepting_bookings-Complete user accepting d h
serve-Complete (submits now user) d h = submit_application-Complete now user d h
serve-Complete (approves now id actor note) d h =
    with_row-Complete id _ d
      (λ p good.
        decided-Complete (is_approvable p.application_status) p
          (reviewed application_approved now none p) _ _ d
          (λ can late. good (approvable-late p.application_status can)) h)
      h
serve-Complete (suspends now id actor reason) d h =
    with_row-Complete id _ d
      (λ p good.
        decided-Complete (is_suspendable p.application_status) p
          (reviewed suspended now (some reason) p) _ _ d
          (λ can late. good (suspendable-late p.application_status can)) h)
      h
serve-Complete (verifies now id actor note) d h =
    with_row-Complete id _ d (λ p good. save-Complete _ (verification_approved id actor) d good h) h
serve-Complete (rejects now id actor reason) d h =
    with_row-Complete id _ d (λ p good. save-Complete _ (verification_rejected id actor) d good h) h

-- If every profile whose application has left the draft has a legal name, a date of birth, the digits of
-- a social security number, a city, a radius, a water tank, a list of services and the consent, that is
-- so after any sequence of activations, updates, submissions, switches and decisions of administrators,
-- whether they succeed or fail.
pub serve_all-Complete :
    (rs : List ApplicationStep) (d : ApplicationDb) → AllComplete d → AllComplete (serve_all rs d)
serve_all-Complete [] d h = h
serve_all-Complete (a ∷ rs) d h = serve_all-Complete rs (serve a d) (serve-Complete a d h)
