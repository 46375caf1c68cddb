-- ===== src/Auth/Login/Tests.antt =====
-- Wrong passwords every minute.
use raycarwash_project.Base.{
  ℕ, ◌+◌, ◌-◌, ◌*◌, ◌/◌, ◌≤◌, ◌≡◌, refl, true, false, none, List, [], ◌∷◌, arith,
}
use raycarwash_project.Auth.Login.{
  LoginUser, lockout, guesses, authenticate_user, is_locked, record_failure,
}
use raycarwash_project.Auth.Login.Bound.{guesses-le}

abbrev an_account : LoginUser
an_account = record {
  is_active = true;
  is_deleted = false;
  is_verified = true;
  failed_login_attempts = 0;
  locked_until = none;
}

abbrev minute : ℕ
minute = 60000000

abbrev every_few_minutes : List ℕ
every_few_minutes =
    minute
    ∷ minute * 2
    ∷ minute * 3
    ∷ minute * 4
    ∷ minute * 5
    ∷ minute * 6
    ∷ minute * 19
    ∷ minute * 20
    ∷ minute * 21
    ∷ []

-- five guesses, then one when the lock ends
six_guesses : guesses true every_few_minutes an_account ≡ 6
unfolding guesses authenticate_user is_locked record_failure
six_guesses = refl

guesses-le_example :
    guesses true every_few_minutes an_account ≤ 5 + (minute * 21 - minute) / lockout
guesses-le_example = guesses-le true minute (minute * 21) every_few_minutes an_account (
  omega arith,
  (
    omega arith,
    (
      omega arith,
      (
        omega arith,
        (omega arith, (omega arith, (omega arith, (omega arith, (omega arith, omega arith))))),
      ),
    ),
  ),
)
