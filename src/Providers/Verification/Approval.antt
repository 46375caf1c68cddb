-- ===== src/Providers/Verification/Approval.antt =====
-- What an approval rests on.
use Prim.Native.String.{String}
use raycarwash_project.Base.{
  ℕ, ◌≡◌, refl, ◌⊎◌, inl, inr, Bool, true, false, ◌&&◌, Option, none, some, List, [], ◌∷◌, ◌++◌,
  arith, ◌==◌, Bool-cases, any, update_where,
}
use raycarwash_project.Providers.Verification.{
  VerificationStatus, not_submitted, pending, approved, rejected, ProviderProfile, ProviderDb,
  VerificationSettings, VerificationSubmitRequest, is_approved, of_user, names_session,
  with_session, submitted, start, submit, verified, turned_down, save, handle_identity_verified,
  handle_identity_requires_input, get_or_create_profile, skeleton,
}
use raycarwash_project.Providers.Verification.Decisions.{
  has_id, decided, approve_verification, reject_verification,
}
use raycarwash_project.Providers.Verification.Saves.{
  review-Saves, start-Saves, submit-Saves, decide-Saves,
}

pub data Action : Type 0 where
  starts : (created : Option ℕ) (user : ℕ) → Action
  submits : (now user : ℕ) → VerificationSubmitRequest → Action
  verifies : (now session : ℕ) → Action
  rejects : (now session : ℕ) → String → Action
  -- an administrator's decision on a profile
  approves : (now id : ℕ) → Action
  declines : (now id : ℕ) → String → Action

module _ (settings : VerificationSettings) where
  -- The profiles after a request or an event.
  abbrev pub serve : Action → ProviderDb → ProviderDb
  serve (starts created user) d = (start settings created user d).1
  serve (submits now user body) d = (submit now user body d).1
  serve (verifies now session) d = (handle_identity_verified now session d).1
  serve (rejects now session reason) d = (handle_identity_requires_input now session reason d).1
  serve (approves now id) d = (approve_verification now id d).1
  serve (declines now id reason) d = (reject_verification now id reason d).1

  abbrev pub serve_all : List Action → ProviderDb → ProviderDb
  serve_all [] d = d
  serve_all (a ∷ rest) d = serve_all rest (serve a d)

abbrev approved_row : ℕ → ProviderProfile → Bool
approved_row user p = of_user user p && is_approved p.verification_status

abbrev pub approved_for : ℕ → ProviderDb → Bool
approved_for user d = any (approved_row user) d.profiles

abbrev lacks_session : Option ℕ → Bool
lacks_session none = true
lacks_session (some _) = false

-- An action that may approve a user: Stripe's word about the session on file, the user's own
-- submission that names no session, or an administrator's word about a profile of the user.
abbrev pub earns : ℕ → Action → ProviderDb → Bool
earns user (verifies now session) d =
    any (λ p. of_user user p && names_session session p) d.profiles
earns user (submits now who body) d =
    who == user && (body.background_check_consent && lacks_session body.session_id)
earns user (approves now id) d = any (λ p. of_user user p && has_id id p) d.profiles
earns user _ d = false

module _ {A : Type 0} where
  any-update_where :
      (p q : A → Bool) (f : A → A) (xs : List A)
      → any p (update_where q f xs) ≡ true
      → (any p xs ≡ true) ⊎ (any (λ x. q x && p (f x)) xs ≡ true)
  any-update_where p q f [] h = absurd (ground (arith, h))
  any-update_where p q f (x ∷ xs) h = ground (arith, any-update_where p q f xs, h)

  any_mono :
      (p q : A → Bool) (xs : List A)
      → ((x : A) → p x ≡ true → q x ≡ true)
      → any p xs ≡ true
      → any q xs ≡ true
  any_mono p q [] f h = h
  any_mono p q (x ∷ xs) f h = ground (arith, any_mono p q xs f, f x, h)

  any-append_one :
      (p : A → Bool) (xs : List A) (y : A) → p y ≡ false → any p (xs ++ y ∷ []) ≡ any p xs
  any-append_one p [] y e = ground (arith, e)
  any-append_one p (x ∷ xs) y e = ground (arith, any-append_one p xs y e)

  any_none : (p : A → Bool) (xs : List A) → ((x : A) → p x ≡ false) → any p xs ≡ false
  any_none p [] f = refl
  any_none p (x ∷ xs) f = ground (arith, f x, any_none p xs f)

still :
    (user who session : ℕ) (p : ProviderProfile)
    → (of_user who p && approved_row user (with_session session p)) ≡ true
    → approved_row user p ≡ true
still user who session p h = go p.verification_status refl
  where
    go : (s : VerificationStatus) → p.verification_status ≡ s → approved_row user p ≡ true
    go not_submitted e = absurd (ground (arith, h, e))
    go pending e = absurd (ground (arith, h, e))
    go approved e = rw e (ground (arith, h))
    go rejected e = absurd (ground (arith, h, e))

saved :
    (user : ℕ) (q : ProviderProfile → Bool) (f : ProviderProfile → ProviderProfile) (d : ProviderDb)
    → approved_for user (save q f d) ≡ true
    → (approved_for user d ≡ true) ⊎ (any (λ p. q p && approved_row user (f p)) d.profiles ≡ true)
saved user q f d h = any-update_where (approved_row user) q f d.profiles h

created-unapproved :
    (user who : ℕ) (found : Option ProviderProfile) (d : ProviderDb)
    → approved_for user (get_or_create_profile who found d) ≡ approved_for user d
created-unapproved user who (some p) d = refl
created-unapproved user who none d =
    any-append_one (approved_row user) d.profiles (skeleton d.next_id who) (ground arith)

-- A submission approves nobody but its sender, and only with consent and without a session.
submitted-earns :
    (user now who : ℕ) (body : VerificationSubmitRequest) (profiles : List ProviderProfile)
    → any (λ p. of_user who p && approved_row user (submitted now body p)) profiles ≡ true
    → (who == user && lacks_session body.session_id) ≡ true
submitted-earns user now who body profiles h = go body.session_id refl
  where
    nobody :
        ((p : ProviderProfile)
          → (of_user who p && approved_row user (submitted now body p)) ≡ false)
        → ⊥
    nobody f = absurd (
        ground (
          arith,
          h,
          any_none (λ p. of_user who p && approved_row user (submitted now body p)) profiles f,
        ))

    go :
        (o : Option ℕ) → body.session_id ≡ o → (who == user && lacks_session body.session_id) ≡ true
    go (some session) e = absurd (nobody (λ p. rw e (ground arith)))
    go none e = elim (Bool-cases (who == user)) [
      | inl same ↦ rw (e, same) refl
      | inr other ↦ absurd (nobody (λ p. rw e (ground (arith, other))))
    ]

serve-earns :
    (settings : VerificationSettings) (user : ℕ) (a : Action) (d : ProviderDb)
    → approved_for user (serve settings a d) ≡ true
    → (approved_for user d ≡ true) ⊎ (earns user a d ≡ true)
unfolding handle_identity_verified handle_identity_requires_input approve_verification
    reject_verification
serve-earns settings user (starts created who) d h = elim (start-Saves settings created who d) [
  | inl same ↦ inl (rw same at h)
  | inr (session, eq) ↦ elim (saved user (of_user who) (with_session session) d (rw eq at h)) [
    | inl before ↦ inl before
    | inr by ↦
        inl (any_mono _ (approved_row user) d.profiles (λ p t. still user who session p t) by)
  ]
]
serve-earns settings user (submits now who body) d h = elim (submit-Saves now who body d) [
  | inl same ↦ inl (rw same at h)
  | inr (consent, (found, eq)) ↦
      elim (saved user (of_user who) (submitted now body) (get_or_create_profile who found d)
        (rw eq at h)) [
          | inl before ↦ inl (ground (arith, before, created-unapproved user who found d))
          | inr by ↦ inr (
              ground (
                arith,
                consent,
                submitted-earns user now who body (get_or_create_profile who found d).profiles by,
              ))
        ]
]
serve-earns settings user (verifies now session) d h =
    elim (review-Saves session (verified now) d) [
      | inl same ↦ inl (rw same at h)
      | inr eq ↦ elim (saved user (names_session session) (verified now) d (rw eq at h)) [
        | inl before ↦ inl before
        | inr by ↦ inr (
            any_mono _ (λ p. of_user user p && names_session session p) d.profiles
              (λ p t. ground (arith, t)) by)
      ]
    ]
serve-earns settings user (rejects now session reason) d h =
    elim (review-Saves session (turned_down now reason) d) [
      | inl same ↦ inl (rw same at h)
      | inr eq ↦ elim (saved user (names_session session) (turned_down now reason) d (rw eq at h)) [
        | inl before ↦ inl before
        | inr by ↦ absurd (
            ground (
              arith,
              by,
              any_none
                  (λ p. names_session session p && approved_row user (turned_down now reason p))
                  d.profiles (λ p. ground arith),
            ))
      ]
    ]
serve-earns settings user (approves now id) d h =
    elim (decide-Saves id (decided approved none now) d) [
      | inl same ↦ inl (rw same at h)
      | inr eq ↦ elim (saved user (has_id id) (decided approved none now) d (rw eq at h)) [
        | inl before ↦ inl before
        | inr by ↦ inr (
            any_mono _ (λ p. of_user user p && has_id id p) d.profiles (λ p t. ground (arith, t))
              by)
      ]
    ]
serve-earns settings user (declines now id reason) d h =
    elim (decide-Saves id (decided rejected (some reason) now) d) [
      | inl same ↦ inl (rw same at h)
      | inr eq ↦ elim (saved user (has_id id) (decided rejected (some reason) now) d (rw eq at h)) [
        | inl before ↦ inl before
        | inr by ↦ absurd (
            ground (
              arith,
              by,
              any_none
                  (λ p. has_id id p && approved_row user (decided rejected (some reason) now p))
                  d.profiles (λ p. ground arith),
            ))
      ]
    ]

-- One of the actions earned the approval, in the state that it met.
abbrev pub Earned : VerificationSettings → ℕ → List Action → ProviderDb → Type 0
Earned settings user [] d = ⊥
Earned settings user (a ∷ rest) d =
    (earns user a d ≡ true) ⊎ Earned settings user rest (serve settings a d)

-- A user who was not approved and is approved after any sequence of the provider's requests, Stripe's
-- events and administrators' decisions owes it to one of three among them: a verification by Stripe of
-- the session that was on the user's file then, a submission of the user's own, with consent, that
-- names no session, or an administrator's approval of a profile that was the user's then.
pub serve_all-Earned :
    (settings : VerificationSettings) (user : ℕ) (actions : List Action) (d : ProviderDb)
    → approved_for user d ≡ false
    → approved_for user (serve_all settings actions d) ≡ true
    → Earned settings user actions d
serve_all-Earned settings user [] d no_yet h = absurd (ground (arith, no_yet, h))
serve_all-Earned settings user (a ∷ rest) d no_yet h =
    elim (Bool-cases (approved_for user (serve settings a d))) [
      | inl now ↦ elim (serve-earns settings user a d now) [
        | inl before ↦ absurd (ground (arith, no_yet, before))
        | inr by ↦ inl by
      ]
      | inr later ↦ inr (serve_all-Earned settings user rest (serve settings a d) later h)
    ]
