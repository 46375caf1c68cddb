-- ===== src/Auth/Login.antt =====
-- authenticate_user of backend/domains/auth/service.py: the checks before the password, the counter of
-- failures and the lock. Whether the password matches (bcrypt) is a parameter of an attempt; the
-- login history is not modelled, and neither is the constant time of a refusal.
pub mod Bound
mod Tests
use raycarwash_project.Base.{
  ℕ, suc, ◌+◌, ◌*◌, ◌==◌, ltb, leb, Bool, true, false, not, ◌&&◌, ◌||◌, Option, none, some, List,
  [], ◌∷◌, if◌then◌else◌,
}

abbrev pub lockout_threshold : ℕ
lockout_threshold = 5

abbrev pub lockout_minutes : ℕ
lockout_minutes = 15

-- the columns of User that a login reads and writes
pub record LoginUser : Type 0 where
  pub is_active : Bool
  pub is_deleted : Bool
  pub is_verified : Bool
  pub failed_login_attempts : ℕ
  pub locked_until : Option ℕ

unfoldable pub is_locked : ℕ → LoginUser → Bool
is_locked now user = elim user.locked_until [ none ↦ false | some t ↦ ltb now t ]

-- how an attempt ends; the last two have looked at the password
pub data Outcome : Type 0 where
  account_inactive email_not_verified account_locked : Outcome
  invalid_password success : Outcome

-- timedelta(minutes=_LOCKOUT_MINUTES)
abbrev pub lockout : ℕ
lockout = lockout_minutes * 60000000

-- the branch of a wrong password
unfoldable pub record_failure : ℕ → LoginUser → LoginUser
record_failure now user =
    let counted = record user { failed_login_attempts = suc user.failed_login_attempts } in
    if leb lockout_threshold counted.failed_login_attempts
    then record counted { locked_until = some (now + lockout) }
    else counted

-- the branch of a right password
unfoldable pub record_success : LoginUser → LoginUser
record_success user =
    if user.failed_login_attempts == 0
    then user
    else record user { failed_login_attempts = 0; locked_until = none }

-- authenticate_user for a user that was found
unfoldable pub authenticate_user : Bool → ℕ → Bool → LoginUser → Outcome × LoginUser
authenticate_user require_email_verification now password_matches user =
    if not user.is_active || user.is_deleted
    then (account_inactive, user)
    else if require_email_verification && not user.is_verified
    then (email_not_verified, user)
    else if is_locked now user
    then (account_locked, user)
    else if password_matches
    then (success, record_success user)
    else (invalid_password, record_failure now user)

-- Attempts with a wrong password at the given times: how many of them the password was compared in.
unfoldable pub guesses : Bool → List ℕ → LoginUser → ℕ
guesses verify [] user = 0
guesses verify (now ∷ rest) user =
    let r = authenticate_user verify now false user in
    let more = guesses verify rest r.1 in
    elim r.0 [ invalid_password ↦ suc more | success ↦ suc more | _ ↦ more ]
