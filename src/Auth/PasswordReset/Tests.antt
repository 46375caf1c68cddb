-- ===== src/Auth/PasswordReset/Tests.antt =====
-- One user who asks for a link and uses it.
use raycarwash_project.Base.{ℕ, ◌≡◌, refl, true, false, none, some, [], ◌∷◌, arith}
use raycarwash_project.Store.{http, err}
use raycarwash_project.Catalog.{codes, lower_code}
use raycarwash_project.Auth.PasswordReset.{
  PasswordResetToken, ResetUser, ResetDb, invalidate_all_for_user, mark_used,
  create_password_reset_token, request_password_reset, consume, consume_from,
  confirm_password_reset,
}
use raycarwash_project.Auth.PasswordReset.SingleUse.{
  requests, confirms, serve_all, confirm_password_reset_once,
}

abbrev as_it_is : ℕ → ℕ
as_it_is raw = raw

abbrev a_user : ResetUser
a_user = record {
  id = 7;
  email = codes "a@b.co";
  is_active = true;
  is_deleted = false;
  password_hash = 1;
  token_version = 1;
}

abbrev tables : ResetDb
tables = record { next_id = 1; tokens = []; users = a_user ∷ []; audit = [] }

asked : ResetDb
asked = (request_password_reset as_it_is 10 55 (codes "A@b.co") tables).1

abbrev a_token : PasswordResetToken
a_token = record { id = 1; user_id = 7; token_hash = 55; used_at = none; expires_at = 3600000010 }

-- Two requests read the row before either marks it: both consume it.
race_test : (consume_from 21 a_token (consume_from 20 a_token (a_token ∷ [])).1).0 ≡ some a_token
unfolding consume_from mark_used
race_test = refl

-- a second link ends the first
superseded_test :
    (confirm_password_reset as_it_is 30 55 2
      (request_password_reset as_it_is 20 66 (codes "a@b.co") asked).1).0
    ≡ err (http 400)
unfolding asked request_password_reset create_password_reset_token invalidate_all_for_user
    confirm_password_reset consume consume_from mark_used lower_code
superseded_test = refl

confirm_password_reset_once_example :
    confirm_password_reset as_it_is 40 55 3 (
      serve_all as_it_is
        (requests 30 66 (codes "a@b.co") ∷ confirms 31 66 4 ∷ [])
        (confirm_password_reset as_it_is 20 55 2 asked).1)
    ≡ (
      err (http 400),
      serve_all as_it_is
          (requests 30 66 (codes "a@b.co") ∷ confirms 31 66 4 ∷ [])
          (confirm_password_reset as_it_is 20 55 2 asked).1,
    )
unfolding asked request_password_reset create_password_reset_token invalidate_all_for_user
    confirm_password_reset consume consume_from mark_used lower_code
confirm_password_reset_once_example =
    confirm_password_reset_once as_it_is 20 40 55 2 3
      (requests 30 66 (codes "a@b.co") ∷ confirms 31 66 4 ∷ []) asked (omega arith) refl
