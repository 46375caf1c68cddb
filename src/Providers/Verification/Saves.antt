-- ===== src/Providers/Verification/Saves.antt =====
-- How a request, an event or a decision ends: the profiles as they were, or one of them saved.
use raycarwash_project.Base.{
  ℕ, ◌≡◌, refl, ◌⊎◌, inl, inr, Bool, true, false, ◌||◌, Option, none, some, Bool-cases, any,
}
use raycarwash_project.Store.{Result, ok, err}
use raycarwash_project.Rides.{scalar_one_or_none}
use raycarwash_project.Providers.Verification.{
  ProviderProfile, ProviderDb, VerificationSettings, VerificationSubmitRequest, of_user,
  names_session, with_session, submitted, start, submit, review, save, get_or_create_profile,
}
use raycarwash_project.Providers.Verification.Decisions.{has_id, decide}

pub review-Saves :
    (session : ℕ) (f : ProviderProfile → ProviderProfile) (d : ProviderDb)
    → ((review session f d).1 ≡ d) ⊎ ((review session f d).1 ≡ save (names_session session) f d)
review-Saves session f d = go (scalar_one_or_none (names_session session) d.profiles) refl
  where
    go :
        (r : Result (Option ProviderProfile))
        → scalar_one_or_none (names_session session) d.profiles ≡ r
        → ((review session f d).1 ≡ d) ⊎ ((review session f d).1 ≡ save (names_session session) f d)
    go (err e) eq = inl (rw (eq, review) refl)
    go (ok none) eq = inl (rw (eq, review) refl)
    go (ok (some p)) eq = inr (rw (eq, review) refl)

pub start-Saves :
    (settings : VerificationSettings) (created : Option ℕ) (user : ℕ) (d : ProviderDb)
    → ((start settings created user d).1 ≡ d)
      ⊎ ((session : ℕ) × ((start settings created user d).1
            ≡ save (of_user user) (with_session session) d))
unfolding start
start-Saves settings created user d =
    go (scalar_one_or_none (of_user user) d.profiles) created refl refl
  where
    go :
        (r : Result (Option ProviderProfile)) (o : Option ℕ)
        → scalar_one_or_none (of_user user) d.profiles ≡ r
        → created ≡ o
        → ((start settings created user d).1 ≡ d)
          ⊎ ((session : ℕ) × ((start settings created user d).1
                ≡ save (of_user user) (with_session session) d))
    go (err e) o eq _ = inl (rw (eq, start) refl)
    go (ok none) o eq _ = inl (rw (eq, start) refl)
    go (ok (some p)) none eq c =
        elim (Bool-cases (settings.debug || settings.is_stripe_placeholder)) [
          | inl t ↦ inl (rw (eq, start, t) refl)
          | inr t ↦ inl (rw (eq, start, t, c) refl)
        ]
    go (ok (some p)) (some session) eq c =
        elim (Bool-cases (settings.debug || settings.is_stripe_placeholder)) [
          | inl t ↦ inl (rw (eq, start, t) refl)
          | inr t ↦ inr (session, rw (eq, start, t, c) refl)
        ]

pub submit-Saves :
    (now user : ℕ) (body : VerificationSubmitRequest) (d : ProviderDb)
    → ((submit now user body d).1 ≡ d)
      ⊎ ((body.background_check_consent ≡ true)
          × ((found : Option ProviderProfile) × ((submit now user body d).1
                ≡ save (of_user user) (submitted now body) (get_or_create_profile user found d))))
unfolding submit
submit-Saves now user body d =
    go body.background_check_consent (scalar_one_or_none (of_user user) d.profiles) refl refl
  where
    go :
        (c : Bool) (r : Result (Option ProviderProfile))
        → body.background_check_consent ≡ c
        → scalar_one_or_none (of_user user) d.profiles ≡ r
        → ((submit now user body d).1 ≡ d)
          ⊎ ((body.background_check_consent ≡ true)
              × ((found : Option ProviderProfile) × ((submit now user body d).1
                    ≡ save
                        (of_user user)
                        (submitted now body)
                        (get_or_create_profile user found d))))
    go false r c eq = inl (rw (c, submit) refl)
    go true (err e) c eq = inl (rw (c, eq, submit) refl)
    go true (ok found) c eq = inr (c, (found, rw (c, eq, submit) refl))

pub decide-Saves :
    (id : ℕ) (f : ProviderProfile → ProviderProfile) (d : ProviderDb)
    → ((decide id f d).1 ≡ d) ⊎ ((decide id f d).1 ≡ save (has_id id) f d)
decide-Saves id f d = elim (Bool-cases (any (has_id id) d.profiles)) [
  | inl t ↦ inr (rw t refl)
  | inr t ↦ inl (rw t refl)
]
