-- ===== src/Auth/TwoFactor/Tests.antt =====
-- One user who enrols and completes the enrolment with a backup code.
use raycarwash_project.Base.{ℕ, ◌+◌, ◌*◌, ◌≡◌, refl, Bool, true, false, List, [], ◌∷◌, arith, inl}
use raycarwash_project.Store.{Error, http, ok, err}
use raycarwash_project.Catalog.{codes, strip, lstrip, is_space}
use raycarwash_project.Promos.{normalize_code}
use raycarwash_project.Auth.TwoFactor.{TotpDb, is_otp, matches_code, verify, enroll, is_enabled}
use raycarwash_project.Auth.TwoFactor.BackupCodes.{verify_all, verify_once}
use raycarwash_project.Auth.TwoFactor.Enrolment.{verify-enroll}

-- a stand-in for sha256 that keeps different texts apart
abbrev one_to_one : List ℕ → ℕ
one_to_one [] = 0
one_to_one (c ∷ s) = c + 256 * one_to_one s

abbrev no_otp : ℕ → ℕ → List ℕ → Bool
no_otp now secret code = false

abbrev plain : List (List ℕ)
plain = codes "AAAA-2222" ∷ codes "BBBB-3333" ∷ []

abbrev nobody : TotpDb
nobody = record { credentials = []; audit = [] }

enrolled : TotpDb
enrolled = (enroll one_to_one 10 7 99 plain nobody).1

-- without its hyphen a backup code is refused
hyphen_test : (verify one_to_one no_otp 20 7 (codes "AAAA2222") enrolled).0 ≡ err (http 422)
unfolding enrolled verify matches_code enroll is_otp strip is_space lstrip normalize_code
hyphen_test = refl

spaced_test : (verify one_to_one no_otp 20 7 (codes " aaaa-2222") enrolled).0 ≡ ok tt
unfolding enrolled verify matches_code enroll is_otp strip is_space lstrip normalize_code
spaced_test = refl

verify_once_example :
    (e : Error) × (verify one_to_one no_otp 40 7 (codes "AAAA-2222") (
        verify_all one_to_one no_otp
          ((30, (7, codes "BBBB-3333")) ∷ [])
          (verify one_to_one no_otp 20 7 (codes "AAAA-2222") enrolled).1)
      ≡ (
        err e,
        verify_all one_to_one no_otp
            ((30, (7, codes "BBBB-3333")) ∷ [])
            (verify one_to_one no_otp 20 7 (codes "AAAA-2222") enrolled).1,
      ))
unfolding enrolled verify matches_code enroll is_otp strip is_space lstrip normalize_code
verify_once_example =
    verify_once one_to_one no_otp 20 40 7 (codes "AAAA-2222") ((30, (7, codes "BBBB-3333")) ∷ [])
      enrolled refl refl

verify-enroll_example :
    ((verify one_to_one no_otp 20 7
        (codes " aaaa-2222")
        (enroll one_to_one 10 7 99 plain nobody).1).0
      ≡ ok tt)
    × (is_enabled 7
          (verify one_to_one no_otp 20 7
            (codes " aaaa-2222")
            (enroll one_to_one 10 7 99 plain nobody).1).1
        ≡ true)
unfolding is_otp strip is_space lstrip normalize_code
verify-enroll_example =
    verify-enroll one_to_one no_otp 10 20 7 99 plain (codes " aaaa-2222") nobody (omega arith)
      (inl refl) refl
