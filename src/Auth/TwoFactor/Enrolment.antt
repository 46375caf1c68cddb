-- ===== src/Auth/TwoFactor/Enrolment.antt =====
-- The backup codes of an enrolment complete it.
use raycarwash_project.Base.{
  ℕ, ◌≤◌, ◌≡◌, refl, ◌⊎◌, inl, inr, Bool, true, false, not, none, some, List, [], ◌∷◌, ◌++◌, arith,
  ◌==◌, leb, map, Option-cases, any, count_where, find_where, select_where, update_where,
}
use raycarwash_project.Store.{ok}
use raycarwash_project.Promos.{normalize_code}
use raycarwash_project.Users.Defaults.Counts.{one_if, count-append_one, count-update_where}
use raycarwash_project.Auth.TwoFactor.{
  TotpCredential, TotpDb, credential_of, is_otp, hash_backup_code, matches_code, used, verify,
  enroll, is_enabled, fresh_credential, re_enrolled,
}

module _ {A : Type 0} where
  find_where-append_one :
      (p : A → Bool) (xs : List A) (y : A)
      → find_where p xs ≡ none
      → p y ≡ true
      → find_where p (xs ++ y ∷ []) ≡ some y
  find_where-append_one p [] y e t = ground (arith, t)
  find_where-append_one p (x ∷ xs) y e t = ground (arith, find_where-append_one p xs y, e, t)

  find_where-update_where :
      (p : A → Bool) (f : A → A) (xs : List A) (a : A)
      → ((x : A) → p (f x) ≡ p x)
      → find_where p xs ≡ some a
      → find_where p (update_where p f xs) ≡ some (f a)
  find_where-update_where p f [] a same e = absurd (ground (arith, e))
  find_where-update_where p f (x ∷ xs) a same e =
      ground (arith, find_where-update_where p f xs a same, same x, e)

  find_where-none : (p : A → Bool) (xs : List A) → find_where p xs ≡ none → count_where p xs ≡ 0
  find_where-none p [] e = refl
  find_where-none p (x ∷ xs) e = ground (arith, find_where-none p xs, e)

-- A text that is one of the codes, up to spaces round it and the case of its letters.
abbrev pub Listed : List ℕ → List (List ℕ) → Type 0
Listed code [] = ⊥
Listed code (p ∷ ps) = (normalize_code code ≡ normalize_code p) ⊎ Listed code ps

module _ (sha256 : List ℕ → ℕ) where
  Listed-any :
      (code : List ℕ) (plain : List (List ℕ))
      → Listed code plain
      → any (λ h. h == hash_backup_code sha256 code) (map (hash_backup_code sha256) plain) ≡ true
  Listed-any code [] at = absurd at
  Listed-any code (p ∷ ps) (inl same) = rw same (ground arith)
  Listed-any code (p ∷ ps) (inr further) = ground (arith, Listed-any code ps further)

  -- What an enrolment leaves: the one credential of the user, with the hashes of its codes.
  abbrev Enrolled : ℕ → List (List ℕ) → TotpDb → Type 0
  Enrolled user plain d =
      (count_where (credential_of user) d.credentials ≤ 1)
      × ((c : TotpCredential) × ((find_where (credential_of user) d.credentials ≡ some c)
            × (c.backup_codes_hashes ≡ map (hash_backup_code sha256) plain)))

  enroll-Enrolled :
      (now user secret : ℕ) (plain : List (List ℕ)) (d : TotpDb)
      → count_where (credential_of user) d.credentials ≤ 1
      → Enrolled user plain (enroll sha256 now user secret plain d).1
  unfolding enroll
  enroll-Enrolled now user secret plain d one =
      let few : leb (count_where (credential_of user) d.credentials) 1 ≡ true =
        ground (arith, one) in
      elim (Option-cases (find_where (credential_of user) d.credentials)) [
        | inl e ↦
            rw (few, enroll, e)
              (
                omega (
                  arith,
                  find_where-none (credential_of user) d.credentials e,
                  count-append_one (credential_of user) d.credentials
                      (fresh_credential sha256 user secret plain),
                  own,
                ),
                (
                  fresh_credential sha256 user secret plain,
                  (
                    find_where-append_one (credential_of user) d.credentials _ e (ground arith),
                    refl,
                  ),
                ),
              )
        | inr (c, e) ↦
            rw (few, enroll, e)
              (
                omega (
                  arith,
                  one,
                  count-update_where (credential_of user) (credential_of user)
                      (re_enrolled sha256 now secret plain) d.credentials (λ x _. refl),
                ),
                (
                  re_enrolled sha256 now secret plain c,
                  (
                    find_where-update_where (credential_of user)
                        (re_enrolled sha256 now secret plain) d.credentials c (λ x. refl) e,
                    refl,
                  ),
                ),
              )
      ]
    where
      own : one_if (credential_of user (fresh_credential sha256 user secret plain)) ≡ 1
      own = ground arith

  module _ (totp_verify : ℕ → ℕ → List ℕ → Bool) where
    Enrolled-verify :
        (now user : ℕ) (code : List ℕ) (plain : List (List ℕ)) (d : TotpDb)
        → Enrolled user plain d
        → Listed code plain
        → is_otp code ≡ false
        → ((verify sha256 totp_verify now user code d).0 ≡ ok tt)
          × (is_enabled user (verify sha256 totp_verify now user code d).1 ≡ true)
    unfolding verify matches_code
    Enrolled-verify now user code plain d (one, (c, (found, hashes))) at shape =
        let few : leb (count_where (credential_of user) d.credentials) 1 ≡ true =
          ground (arith, one) in
        let there : any (λ h. h == hash_backup_code sha256 code) c.backup_codes_hashes ≡ true =
          rw hashes (Listed-any code plain at) in
        let left =
          select_where (λ h. not (h == hash_backup_code sha256 code)) c.backup_codes_hashes in
        let after =
          find_where-update_where (credential_of user) (used sha256 totp_verify now left)
            d.credentials c (λ x. refl) found in
        rw (few, verify, found, matches_code, shape, there) (refl, ground (arith, after))

    -- For a user with at most one credential: a backup code of an enrolment that has not the form of a
    -- one-time password, typed in any case and with spaces round it, verifies the user and turns
    -- two-factor authentication on.
    pub verify-enroll :
        (now later user secret : ℕ) (plain : List (List ℕ)) (code : List ℕ) (d : TotpDb)
        → count_where (credential_of user) d.credentials ≤ 1
        → Listed code plain
        → is_otp code ≡ false
        → ((verify sha256 totp_verify later user code (enroll sha256 now user secret plain d).1).0
            ≡ ok tt)
          × (is_enabled user
                (verify sha256 totp_verify later user code
                  (enroll sha256 now user secret plain d).1).1
              ≡ true)
    verify-enroll now later user secret plain code d one at shape =
        Enrolled-verify later user code plain (enroll sha256 now user secret plain d).1
          (enroll-Enrolled now user secret plain d one) at shape
