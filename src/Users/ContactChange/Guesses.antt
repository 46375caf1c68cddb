-- ===== src/Users/ContactChange/Guesses.antt =====
-- Wrong one-time codes: the request that counts one is rolled back.
use raycarwash_project.Base.{
  ℕ, ◌≡◌, refl, ◌∙◌, ap, inl, inr, some, List, [], ◌∷◌, ltb, leb, Bool-cases, All, select_where,
  eq_test_false,
}
use raycarwash_project.Users.ContactChange.{
  PendingContactChange, ContactDb, phone, open_change, latest, max_phone_attempts, transact,
  verify_row, verify_phone_change, phone_change_verify,
}

module _ (sha256 : ℕ → ℕ) (hash_phone : List ℕ → ℕ) where
  -- The requests of a list of codes, at their times, one after the other.
  abbrev pub guess_all : ℕ → List (ℕ × ℕ) → ContactDb → ContactDb
  guess_all user [] d = d
  guess_all user ((now, otp) ∷ rest) d =
      guess_all user rest (phone_change_verify sha256 hash_phone now user otp d).1

  wrong_code :
      (now otp : ℕ) (row : PendingContactChange) (d : ContactDb)
      → ¬ (row.verification_token_hash ≡ sha256 otp)
      → (transact (verify_row sha256 hash_phone now otp (some row) d) d).1 ≡ d
  wrong_code now otp row d differ =
      let e = eq_test_false row.verification_token_hash (sha256 otp) differ in
      elim (Bool-cases (ltb row.expires_at now)) [
        | inl x ↦ rw x refl
        | inr x ↦ elim (Bool-cases (leb max_phone_attempts row.attempts)) [
          | inl y ↦ rw (x, y) refl
          | inr y ↦ rw (x, y, e) refl
        ]
      ]

  guess_unchanged :
      (now user otp : ℕ) (row : PendingContactChange) (d : ContactDb)
      → latest (select_where (open_change user phone) d.pending) ≡ some row
      → ¬ (row.verification_token_hash ≡ sha256 otp)
      → (phone_change_verify sha256 hash_phone now user otp d).1 ≡ d
  unfolding phone_change_verify verify_phone_change
  guess_unchanged now user otp row d e differ =
      rw (e, phone_change_verify, verify_phone_change) (wrong_code now otp row d differ)

  -- Requests with any number of wrong codes for the telephone change in flight leave the tables as
  -- they were, the counter of attempts included: none of them brings the lock closer.
  pub guess_all-unchanged :
      (user : ℕ) (guesses : List (ℕ × ℕ)) (row : PendingContactChange) (d : ContactDb)
      → latest (select_where (open_change user phone) d.pending) ≡ some row
      → All (λ g. ¬ (row.verification_token_hash ≡ sha256 g.1)) guesses
      → guess_all user guesses d ≡ d
  guess_all-unchanged user [] row d e wrong = refl
  guess_all-unchanged user ((now, otp) ∷ rest) row d e wrong =
      ap (guess_all user rest) (guess_unchanged now user otp row d e wrong.0)
      ∙ guess_all-unchanged user rest row d e wrong.1
