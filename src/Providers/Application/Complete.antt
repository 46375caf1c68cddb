-- ===== src/Providers/Application/Complete.antt =====
-- What is known of an application that has been submitted.
use Prim.Native.String.{String}
use raycarwash_project.Base.{
  ℕ, ◌≡◌, refl, inl, inr, Bool, true, false, not, ◌&&◌, Option, none, some, List, [], ◌∷◌, arith,
  ◌==◌, map, Bool-cases, Option-cases, All, All-update_where, find_where-All, find_where,
  select_where,
}
use raycarwash_project.Store.{Result, ok, err}
use raycarwash_project.Providers.Application.{
  ProviderProfile, ApplicationDb, ActivateRequest, ProfileAudit, get_profile, with_profile, save,
  is_radius, is_detailer, reactivated, given, given_or,
}
use raycarwash_project.Providers.Application.Requests.{
  UpdateRequest, in_range, updated, has_text, is_given, has_number, has_items, required_fields,
  missing, is_draft, application_of,
}
use raycarwash_project.Providers.Application.Decisions.{with_row}
use raycarwash_project.Providers.Application.Steps.{transact}

-- A profile whose application has left the draft has a legal name, a date of birth, the digits of a
-- social security number, a city, a radius, a water tank, a list of services and the consent.
abbrev pub Complete : ProviderProfile → Type 0
Complete p =
    is_draft p.application_status ≡ false
    → (has_text p.legal_full_name ≡ true)
      × (is_given p.date_of_birth ≡ true)
      × (is_given p.ssn_last_4 ≡ true)
      × (is_given p.home_city_code ≡ true)
      × ((p.service_radius_miles == 0) ≡ false)
      × (is_given p.water_tank_gallons ≡ true)
      × (is_given p.services_offered ≡ true)
      × (p.background_check_consent ≡ true)

abbrev pub AllComplete : ApplicationDb → Type 0
AllComplete d = All Complete d.profiles

pub save-Complete :
    (row : ProviderProfile) (line : ProfileAudit) (d : ApplicationDb)
    → Complete row
    → AllComplete d
    → AllComplete (save row line d)
save-Complete row line d good h =
    All-update_where Complete (λ p. p.id == row.id) (λ _. row) d.profiles (λ p v. good) h

-- The profile that get_profile finds is complete.
pub get_profile-Complete :
    (user : ℕ) (p : ProviderProfile) (d : ApplicationDb)
    → get_profile user d ≡ ok (some p)
    → AllComplete d
    → Complete p
get_profile-Complete user p d e h =
    find_where-All (λ x. x.user_id == user && (is_detailer x.provider_type && not x.is_deleted))
      Complete d.profiles p h (ground (arith, e))

-- A handler of a detailer's request keeps complete what it keeps so for the profile found.
pub with_profile-Complete :
    (user : ℕ) (next : ProviderProfile → Result (Unit {0}) × ApplicationDb) (d : ApplicationDb)
    → ((p : ProviderProfile) → Complete p → AllComplete (transact (next p) d))
    → AllComplete d
    → AllComplete (transact (with_profile user next d) d)
with_profile-Complete user next d keeps h = go (get_profile user d) refl
  where
    go :
        (r : Result (Option ProviderProfile))
        → get_profile user d ≡ r
        → AllComplete (transact (with_profile user next d) d)
    go (err x) e = rw (e, with_profile, transact) h
    go (ok none) e = rw (e, with_profile, transact) h
    go (ok (some p)) e = rw (e, with_profile) (keeps p (get_profile-Complete user p d e h))

pub with_row-Complete :
    (id : ℕ) (next : ProviderProfile → Result (Unit {0}) × ApplicationDb) (d : ApplicationDb)
    → ((p : ProviderProfile) → Complete p → AllComplete (transact (next p) d))
    → AllComplete d
    → AllComplete (transact (with_row id next d) d)
with_row-Complete id next d keeps h =
    elim (Option-cases (find_where (λ p. p.id == id) d.profiles)) [
      | inl n ↦ rw (n, with_row, transact) h
      | inr (p, e) ↦
          rw (e, with_row) (keeps p (find_where-All (λ x. x.id == id) Complete d.profiles p h e))
    ]

none_selected :
    {A B : Type 0} (f : A → B) (q : A → Bool) (xs : List A)
    → map f (select_where q xs) ≡ []
    → All (λ x. q x ≡ false) xs
none_selected f q [] h = tt
none_selected f q (x ∷ xs) h = elim (Bool-cases (q x)) [
  | inl e ↦ absurd (ground (arith, rw e at h))
  | inr e ↦ (e, none_selected f q xs (rw e at h))
]

number-given : (n : Option ℕ) → not (has_number n) ≡ false → is_given n ≡ true
number-given none h = absurd (ground (arith, h))
number-given (some n) h = refl

items-given : (xs : Option (List String)) → not (has_items xs) ≡ false → is_given xs ≡ true
items-given none h = absurd (ground (arith, h))
items-given (some xs) h = refl

pub missing-Complete :
    (p : ProviderProfile) (now : ℕ) → missing p ≡ [] → Complete (application_of now p)
unfolding missing
missing-Complete p now h late =
    let (name, (birth, (digits, (city, (radius, (tank, (services, (consent, end)))))))) =
      none_selected (λ (f : Bool × String). f.1) (λ (f : Bool × String). not f.0)
        (required_fields p) h in
    (
      ground (arith, name),
      ground (arith, birth),
      ground (arith, digits),
      ground (arith, city),
      ground (arith, radius),
      number-given p.water_tank_gallons tank,
      items-given p.services_offered services,
      ground (arith, consent),
    )

given-kept :
    {A : Type 0} (value old : Option A) → is_given old ≡ true → is_given (given value old) ≡ true
given-kept none old h = h
given-kept (some v) old h = refl

radius-kept :
    (value : Option ℕ) (old : ℕ)
    → in_range is_radius value ≡ true
    → (old == 0) ≡ false
    → (given_or value old == 0) ≡ false
radius-kept none old valid h = h
radius-kept (some v) old valid h = ground (arith, valid)

pub updated-Complete :
    (body : UpdateRequest) (p : ProviderProfile)
    → in_range is_radius body.service_radius_miles ≡ true
    → Complete p
    → Complete (updated body p)
updated-Complete body p valid h late =
    let (name, birth, digits, city, radius, tank, services, consent) = h late in
    (
      name,
      birth,
      given-kept body.ssn_last_4 p.ssn_last_4 digits,
      given-kept body.home_city_code p.home_city_code city,
      radius-kept body.service_radius_miles p.service_radius_miles valid radius,
      given-kept body.water_tank_gallons p.water_tank_gallons tank,
      given-kept body.services_offered p.services_offered services,
      consent,
    )

pub reactivated-Complete :
    (body : ActivateRequest) (p : ProviderProfile)
    → is_radius body.service_radius_miles ≡ true
    → Complete p
    → Complete (reactivated body p)
reactivated-Complete body p valid h late =
    let (name, birth, digits, city, radius, tank, services, consent) = h late in
    (name, birth, digits, city, ground (arith, valid), tank, services, consent)
