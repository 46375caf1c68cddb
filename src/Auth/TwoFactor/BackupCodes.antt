-- ===== src/Auth/TwoFactor/BackupCodes.antt =====
-- Backup codes: each is good once, and those of an enrolment are good.
use raycarwash_project.Base.{
  ℕ, ◌≡◌, refl, ◌⊎◌, inl, inr, Bool, true, false, not, ◌&&◌, Option, none, some, List, [], ◌∷◌,
  arith, ◌==◌, Bool-cases, All, any, find_where, select_where, update_where, find_where-All,
  find_where-true, All-update_where_if,
}
use raycarwash_project.Store.{Error, http, Result, ok, err}
use raycarwash_project.Rides.{scalar_one_or_none}
use raycarwash_project.Auth.TwoFactor.{
  TotpAudit, TotpCredential, TotpDb, credential_of, is_otp, hash_backup_code, matches_code, used,
  verify, write,
}

any-select_where :
    (h : ℕ) (q : ℕ → Bool) (xs : List ℕ)
    → any (λ x. x == h) xs ≡ false
    → any (λ x. x == h) (select_where q xs) ≡ false
any-select_where h q [] e = refl
any-select_where h q (x ∷ xs) e = ground (arith, any-select_where h q xs, e)

any-removed :
    (h : ℕ) (xs : List ℕ) → any (λ x. x == h) (select_where (λ x. not (x == h)) xs) ≡ false
any-removed h [] = refl
any-removed h (x ∷ xs) = ground (arith, any-removed h xs)

-- A hash is among no credential of the user.
abbrev Spent : ℕ → ℕ → TotpDb → Type 0
Spent user h d =
    All (λ c. (credential_of user c && any (λ x. x == h) c.backup_codes_hashes) ≡ false)
      d.credentials

module _ (sha256 : List ℕ → ℕ) (totp_verify : ℕ → ℕ → List ℕ → Bool) where
  matches_code-fewer :
      (now : ℕ) (cred : TotpCredential) (code : List ℕ) (left : List ℕ) (h : ℕ)
      → matches_code sha256 totp_verify now cred code ≡ some left
      → any (λ x. x == h) cred.backup_codes_hashes ≡ false
      → any (λ x. x == h) left ≡ false
  unfolding matches_code
  matches_code-fewer now cred code left h e none_there = ground (
    arith,
    e,
    any-select_where h (λ x. not (x == hash_backup_code sha256 code)) cred.backup_codes_hashes,
    none_there,
  )

  matches_code-removes :
      (now : ℕ) (cred : TotpCredential) (code : List ℕ) (left : List ℕ)
      → is_otp code ≡ false
      → matches_code sha256 totp_verify now cred code ≡ some left
      → any (λ x. x == hash_backup_code sha256 code) left ≡ false
  unfolding matches_code
  matches_code-removes now cred code left shape e =
      ground (arith, e, shape, any-removed (hash_backup_code sha256 code) cred.backup_codes_hashes)

  -- How a verification ends: refused with nothing changed, or a credential that was found is used.
  abbrev Ends : ℕ → ℕ → List ℕ → TotpDb → Type 0
  Ends now user code d =
      ((e : Error) × (verify sha256 totp_verify now user code d ≡ (err e, d)))
      ⊎ ((cred : TotpCredential) × ((left : List ℕ) × ((find_where (credential_of user)
                  d.credentials
                ≡ some cred)
              × ((matches_code sha256 totp_verify now cred code ≡ some left)
                  × (verify sha256 totp_verify now user code d ≡ (
                    ok tt,
                    write user (used sha256 totp_verify now left) (TotpAudit.verified user) d,
                  ))))))

  scalar-find :
      (user : ℕ) (cs : List TotpCredential) (found : Option TotpCredential)
      → scalar_one_or_none (credential_of user) cs ≡ ok found
      → find_where (credential_of user) cs ≡ found
  scalar-find user cs found e = ground (arith, e)

  verify-Ends : (now user : ℕ) (code : List ℕ) (d : TotpDb) → Ends now user code d
  unfolding verify
  verify-Ends now user code d = go (scalar_one_or_none (credential_of user) d.credentials) refl
    where
      matched :
          (cred : TotpCredential) (m : Option (List ℕ))
          → scalar_one_or_none (credential_of user) d.credentials ≡ ok (some cred)
          → matches_code sha256 totp_verify now cred code ≡ m
          → Ends now user code d
      matched cred none e m = inl (http 422, rw (e, verify, m) refl)
      matched cred (some left) e m = inr (
        cred,
        (left, (scalar-find user d.credentials (some cred) e, (m, rw (e, verify, m) refl))),
      )

      go :
          (r : Result (Option TotpCredential))
          → scalar_one_or_none (credential_of user) d.credentials ≡ r
          → Ends now user code d
      go (err x) e = inl (x, rw (e, verify) refl)
      go (ok none) e = inl (http 404, rw (e, verify) refl)
      go (ok (some cred)) e = matched cred (matches_code sha256 totp_verify now cred code) e refl

  write-Spent :
      (h now user who : ℕ) (left : List ℕ) (d : TotpDb)
      → ((who == user) ≡ false) ⊎ (any (λ x. x == h) left ≡ false)
      → Spent user h d
      → Spent user h (write who (used sha256 totp_verify now left) (TotpAudit.verified who) d)
  write-Spent h now user who left d (inl other) spent =
      All-update_where_if _ (credential_of who) (used sha256 totp_verify now left) d.credentials
        (λ c t _. ground (arith, t, other)) spent
  write-Spent h now user who left d (inr gone) spent =
      All-update_where_if _ (credential_of who) (used sha256 totp_verify now left) d.credentials
        (λ c t _. ground (arith, gone)) spent

  verify-Spent :
      (h now user who : ℕ) (code : List ℕ) (d : TotpDb)
      → Spent user h d
      → Spent user h (verify sha256 totp_verify now who code d).1
  verify-Spent h now user who code d spent = elim (verify-Ends now who code d) [
    | inl (e, eq) ↦ rw eq spent
    | inr (cred, (left, (found, (matched, eq)))) ↦ rw eq (
        write-Spent h now user who left d (fewer cred left found matched (Bool-cases (who == user)))
          spent)
  ]
    where
      fewer :
          (cred : TotpCredential) (left : List ℕ)
          → find_where (credential_of who) d.credentials ≡ some cred
          → matches_code sha256 totp_verify now cred code ≡ some left
          → ((who == user) ≡ true) ⊎ ((who == user) ≡ false)
          → ((who == user) ≡ false) ⊎ (any (λ x. x == h) left ≡ false)
      fewer cred left found matched (inr other) = inl other
      fewer cred left found matched (inl same) =
          let kept =
            find_where-All (credential_of who)
              (λ c. (credential_of user c && any (λ x. x == h) c.backup_codes_hashes) ≡ false)
              d.credentials cred spent found in
          let own = find_where-true (credential_of who) d.credentials cred found in
          inr (matches_code-fewer now cred code left h matched (ground (arith, kept, own, same)))

  -- A state in which the code's hash is spent refuses it.
  Spent-refused :
      (now user : ℕ) (code : List ℕ) (d : TotpDb)
      → is_otp code ≡ false
      → Spent user (hash_backup_code sha256 code) d
      → (e : Error) × (verify sha256 totp_verify now user code d ≡ (err e, d))
  unfolding matches_code
  Spent-refused now user code d shape spent = elim (verify-Ends now user code d) [
    | inl ended ↦ ended
    | inr (cred, (left, (found, (matched, eq)))) ↦
        let kept =
          find_where-All (credential_of user)
            (λ c.
              (credential_of user c
                && any (λ x. x == hash_backup_code sha256 code) c.backup_codes_hashes)
              ≡ false)
            d.credentials cred spent found in
        let own = find_where-true (credential_of user) d.credentials cred found in
        absurd (ground (arith, kept, own, matched, shape))
  ]

  -- Verifications by anyone, each with its time, user and code.
  abbrev pub verify_all : List (ℕ × (ℕ × List ℕ)) → TotpDb → TotpDb
  verify_all [] d = d
  verify_all ((now, (who, code)) ∷ rest) d =
      verify_all rest (verify sha256 totp_verify now who code d).1

  verify_all-Spent :
      (h user : ℕ) (tries : List (ℕ × (ℕ × List ℕ))) (d : TotpDb)
      → Spent user h d
      → Spent user h (verify_all tries d)
  verify_all-Spent h user [] d spent = spent
  verify_all-Spent h user ((now, (who, code)) ∷ rest) d spent =
      verify_all-Spent h user rest (verify sha256 totp_verify now who code d).1
        (verify-Spent h now user who code d spent)

  all_removed :
      (h now user : ℕ) (left : List ℕ) (d : TotpDb)
      → any (λ x. x == h) left ≡ false
      → Spent user h (write user (used sha256 totp_verify now left) (TotpAudit.verified user) d)
  all_removed h now user left d gone = go d.credentials
    where
      go :
          (cs : List TotpCredential)
          → All
              (λ c. (credential_of user c && any (λ x. x == h) c.backup_codes_hashes) ≡ false)
              (update_where (credential_of user) (used sha256 totp_verify now left) cs)
      go [] = tt
      go (c ∷ cs) = (ground (arith, gone), go cs)

  verified-Spent :
      (now user : ℕ) (code : List ℕ) (d : TotpDb)
      → is_otp code ≡ false
      → (verify sha256 totp_verify now user code d).0 ≡ ok tt
      → Ends now user code d
      → Spent user (hash_backup_code sha256 code) (verify sha256 totp_verify now user code d).1
  verified-Spent now user code d shape done (inl (e, eq)) = absurd (ground (arith, rw eq at done))
  verified-Spent now user code d shape done (inr (cred, (left, (found, (matched, eq))))) = rw eq (
      all_removed (hash_backup_code sha256 code) now user left d
        (matches_code-removes now cred code left shape matched))

  -- Once a code that has not the form of a one-time password has verified a user, it is refused for
  -- that user, with nothing changed, after any further verifications by anyone.
  pub verify_once :
      (now later user : ℕ) (code : List ℕ) (tries : List (ℕ × (ℕ × List ℕ))) (d : TotpDb)
      → is_otp code ≡ false
      → (verify sha256 totp_verify now user code d).0 ≡ ok tt
      → (e : Error) × (verify sha256 totp_verify later user code
            (verify_all tries (verify sha256 totp_verify now user code d).1)
          ≡ (err e, verify_all tries (verify sha256 totp_verify now user code d).1))
  verify_once now later user code tries d shape done =
      Spent-refused later user code (verify_all tries (verify sha256 totp_verify now user code d).1)
        shape
        (verify_all-Spent (hash_backup_code sha256 code) user tries
          (verify sha256 totp_verify now user code d).1
          (verified-Spent now user code d shape done (verify-Ends now user code d)))
