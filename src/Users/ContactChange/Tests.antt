-- ===== src/Users/ContactChange/Tests.antt =====
-- A change of address, and guesses of a one-time code.
use raycarwash_project.Base.{
  ℕ, ◌+◌, ◌≡◌, refl, true, false, none, List, [], ◌∷◌, arith, ◌≤◌, ◌==◌, count_where,
}
use raycarwash_project.Catalog.{codes, strip, lstrip, is_space, lower_code}
use raycarwash_project.Store.{ok, err, http}
use raycarwash_project.Auth.Tokens.{revoke_all_for_user}
use raycarwash_project.Users.ContactChange.{
  ContactUser, ContactDb, PendingContactChange, phone, email, new_change, request_email_change,
  confirm_email_change, verify_phone_change, phone_change_verify,
}
use raycarwash_project.Users.ContactChange.Guesses.{guess_all, guess_all-unchanged}
use raycarwash_project.Users.ContactChange.SingleUse.{confirm_email_change_once}
use raycarwash_project.Users.ContactChange.RoundTrip.{
  normalized, Switched, confirm-request_email_change,
}

-- stand-ins for the hashes
abbrev shifted : ℕ → ℕ
shifted token = token + 1000

abbrev zero_hash : List ℕ → ℕ
zero_hash number = 0

abbrev a_user : ContactUser
a_user = record {
  id = 7;
  email_address = codes "old@x.io";
  is_verified = true;
  phone_number = none;
  phone_hash = none;
  token_version = 1;
  is_deleted = false;
}

abbrev contact_db : List PendingContactChange → ContactDb
contact_db pending = record {
  next_id = 9;
  users = a_user ∷ [];
  pending = pending;
  auth = record { next_id = 1; tokens = []; accounts = []; sessions = [] };
  audit = [];
}

abbrev code_row : PendingContactChange
code_row = new_change 3 7 phone (codes "5551234") 1042 10 600000000

abbrev link_row : PendingContactChange
link_row = new_change 3 7 email (codes "new@x.io") 1042 10 3600000000

-- After five wrong codes in one transaction the right one is refused; after five wrong requests it is
-- accepted.
abbrev in_session : ContactDb → ContactDb
in_session d = (verify_phone_change shifted zero_hash 20 7 1 d).1

abbrev in_request : ContactDb → ContactDb
in_request d = (phone_change_verify shifted zero_hash 20 7 1 d).1

locked :
    (verify_phone_change shifted zero_hash 21 7 42 (
      in_session
        (in_session (in_session (in_session (in_session (contact_db (code_row ∷ [])))))))).0
    ≡ err (http 423)
unfolding verify_phone_change
locked = refl

not_locked :
    (phone_change_verify shifted zero_hash 21 7 42 (
      in_request
        (in_request (in_request (in_request (in_request (contact_db (code_row ∷ [])))))))).0
    ≡ ok 7
unfolding phone_change_verify verify_phone_change revoke_all_for_user
not_locked = refl

guess_all-unchanged_example :
    guess_all shifted zero_hash 7 ((20, 1) ∷ (21, 2) ∷ []) (contact_db (code_row ∷ []))
    ≡ contact_db (code_row ∷ [])
guess_all-unchanged_example =
    guess_all-unchanged shifted zero_hash 7 ((20, 1) ∷ (21, 2) ∷ []) code_row
      (contact_db (code_row ∷ [])) refl ((λ e. omega (arith, e)), ((λ e. omega (arith, e)), tt))

at_most_one : (i : ℕ) → count_where (λ (r : PendingContactChange). r.id == i) (link_row ∷ []) ≤ 1
at_most_one i = ground arith

confirmed_db : ContactDb
confirmed_db = (confirm_email_change shifted 42 20 (contact_db (link_row ∷ []))).1

confirm_email_change_once_example :
    confirm_email_change shifted 42 30 confirmed_db ≡ (err (http 410), confirmed_db)
unfolding confirm_email_change revoke_all_for_user confirmed_db
confirm_email_change_once_example =
    confirm_email_change_once shifted 42 20 30 7 (contact_db (link_row ∷ [])) confirmed_db
      (λ i. at_most_one i) (omega arith) refl

confirm-request_email_change_example : Switched a_user (normalized (codes " New@x.io ")) (
    confirm_email_change shifted 42 30
      (request_email_change shifted true 42 20 a_user (codes " New@x.io ") (contact_db [])).1)
unfolding lower_code strip lstrip is_space
confirm-request_email_change_example =
    confirm-request_email_change shifted 42 20 30 a_user (codes " New@x.io ") (contact_db []) refl
      refl refl tt (omega arith)
