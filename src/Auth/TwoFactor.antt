-- ===== src/Auth/TwoFactor.antt =====
-- TotpService of backend/domains/auth/totp_service.py over totp_credentials. A text is its code points
-- and is ASCII. sha256, pyotp's check of a one-time password and the random secrets and codes are
-- arguments; the otpauth URI is not modelled.
mod BackupCodes
mod Enrolment
mod Tests
use raycarwash_project.Base.{
  ℕ, Bool, true, false, not, ◌&&◌, Option, none, some, List, [], ◌∷◌, ◌++◌, ◌==◌, leb, map, any,
  if◌then◌else◌, length, count_where, find_where, select_where, update_where,
}
use raycarwash_project.Store.{Error, http, Result, ok, err}
use raycarwash_project.Catalog.{strip}
use raycarwash_project.Promos.{normalize_code}
use raycarwash_project.Rides.{scalar_one_or_none}

pub record TotpCredential : Type 0 where
  pub user_id : ℕ
  pub secret : ℕ
  pub backup_codes_hashes : List ℕ
  pub enabled : Bool
  pub last_used_at : Option ℕ
  pub updated_at : Option ℕ

-- the step with the user
pub data TotpAudit : Type 0 where
  enrolled verified disabled backup_codes_regenerated : ℕ → TotpAudit

pub record TotpDb : Type 0 where
  pub credentials : List TotpCredential
  pub audit : List TotpAudit

abbrev pub credential_of : ℕ → TotpCredential → Bool
credential_of user c = c.user_id == user

-- a flush of the user's one credential, with the audit entry
abbrev pub write : ℕ → (TotpCredential → TotpCredential) → TotpAudit → TotpDb → TotpDb
write user change entry d = record {
  credentials = update_where (credential_of user) change d.credentials;
  audit = d.audit ++ (entry ∷ []);
}

-- `code.strip().replace(" ", "").replace("-", "")`
abbrev pub bare : List ℕ → List ℕ
bare code = select_where (λ c. not (c == b' ') && not (c == b'-')) (strip code)

abbrev pub all_digits : List ℕ → Bool
all_digits [] = true
all_digits (c ∷ s) = leb b'0' c && leb c b'9' && all_digits s

-- `normalized.isdigit() and len(normalized) == 6`
unfoldable pub is_otp : List ℕ → Bool
is_otp code = all_digits (bare code) && length (bare code) == 6

module _ (sha256 : List ℕ → ℕ) where
  abbrev pub hash_backup_code : List ℕ → ℕ
  hash_backup_code code = sha256 (normalize_code code)

  abbrev pub fresh_credential : ℕ → ℕ → List (List ℕ) → TotpCredential
  fresh_credential user secret plain = record {
    user_id = user;
    secret = secret;
    backup_codes_hashes = map hash_backup_code plain;
    enabled = false;
    last_used_at = none;
    updated_at = none;
  }

  abbrev pub re_enrolled : ℕ → ℕ → List (List ℕ) → TotpCredential → TotpCredential
  re_enrolled now secret plain c = record c {
    secret = secret;
    backup_codes_hashes = map hash_backup_code plain;
    enabled = false;
    updated_at = some now;
  }

  unfoldable pub enroll : ℕ → ℕ → ℕ → List (List ℕ) → TotpDb → Result (List (List ℕ)) × TotpDb
  enroll now user secret plain d = elim (scalar_one_or_none (credential_of user) d.credentials) [
    | err e ↦ (err e, d)
    | ok found ↦ elim found [
      | none ↦ (
        ok plain,
        record {
          credentials = d.credentials ++ (fresh_credential user secret plain ∷ []);
          audit = d.audit ++ (enrolled user ∷ []);
        },
      )
      | some _ ↦ (ok plain, write user (re_enrolled now secret plain) (enrolled user) d)
    ]
  ]

  unfoldable pub regenerate_backup_codes :
      ℕ → ℕ → List (List ℕ) → TotpDb → Result (List (List ℕ)) × TotpDb
  regenerate_backup_codes now user plain d =
      elim (scalar_one_or_none (credential_of user) d.credentials) [
        | err e ↦ (err e, d)
        | ok found ↦ elim found [
          | none ↦ (err (http 409), d)
          | some c ↦
              if c.enabled
              then (
                ok plain,
                write user
                    (λ x. record x {
                      backup_codes_hashes = map hash_backup_code plain;
                      updated_at = some now;
                    })
                    (backup_codes_regenerated user) d,
              )
              else (err (http 409), d)
        ]
      ]

  module _ (totp_verify : ℕ → ℕ → List ℕ → Bool) where
    -- _matches_code: the hashes that are left when the code matches
    unfoldable pub matches_code : ℕ → TotpCredential → List ℕ → Option (List ℕ)
    matches_code now cred code =
        let hashed = hash_backup_code code in
        if is_otp code
        then (if totp_verify now cred.secret (bare code)
            then some cred.backup_codes_hashes
            else none)
        else if any (λ h. h == hashed) cred.backup_codes_hashes
        then some (select_where (λ h. not (h == hashed)) cred.backup_codes_hashes)
        else none

    abbrev pub used : ℕ → List ℕ → TotpCredential → TotpCredential
    used now left c = record c {
      backup_codes_hashes = left;
      enabled = true;
      last_used_at = some now;
      updated_at = some now;
    }

    unfoldable pub verify : ℕ → ℕ → List ℕ → TotpDb → Result (Unit {0}) × TotpDb
    verify now user code d = elim (scalar_one_or_none (credential_of user) d.credentials) [
      | err e ↦ (err e, d)
      | ok found ↦ elim found [
        | none ↦ (err (http 404), d)
        | some cred ↦ elim (matches_code now cred code) [
          | none ↦ (err (http 422), d)
          | some left ↦ (ok tt, write user (used now left) (verified user) d)
        ]
      ]
    ]

-- whether two-factor authentication is on
abbrev pub is_enabled : ℕ → TotpDb → Bool
is_enabled user d = elim (find_where (credential_of user) d.credentials) [
  | none ↦ false
  | some c ↦ c.enabled
]

unfoldable pub disable : ℕ → TotpDb → Result (Unit {0}) × TotpDb
disable user d = elim (scalar_one_or_none (credential_of user) d.credentials) [
  | err e ↦ (err e, d)
  | ok found ↦ elim found [
    | none ↦ (ok tt, d)
    | some _ ↦ (
      ok tt,
      record {
        credentials = select_where (λ c. not (credential_of user c)) d.credentials;
        audit = d.audit ++ (disabled user ∷ []);
      },
    )
  ]
]
