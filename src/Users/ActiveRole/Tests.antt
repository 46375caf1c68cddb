-- ===== src/Users/ActiveRole/Tests.antt =====
-- A client who is a detailer too switches to that role.
use raycarwash_project.Base.{◌+◌, ◌≡◌, refl, true, false, none, some, List, [], ◌∷◌, arith}
use raycarwash_project.Store.{http, ok, err}
use raycarwash_project.Auth.Tokens.{
  RefreshToken, Account, AuthEnv, rotate_from, rotate_refresh_token, commit, mark_used_atomic,
  after_claim, issue_pair, get_by_family, create_refresh_token, get_by_raw, update_last_active,
}
use raycarwash_project.Auth.Tokens.SingleUse.{rotate, log_out_everywhere}
use raycarwash_project.Users.ActiveRole.{SwitchDb, switch, switch_from, transact}
use raycarwash_project.Users.ActiveRole.Once.{
  SwitchStep, on_tokens, switches, run_switches, succeeds, switch_once,
}

abbrev a_token : RefreshToken
a_token = record {
  id = 1;
  user_id = 7;
  token_hash = 1005;
  family_id = 3;
  used_at = none;
  revoked = false;
  expires_at = 900;
}

abbrev an_account : Account
an_account = record {
  id = 7;
  is_active = true;
  is_deleted = false;
  active_role = none;
  primary_role = some "client";
  token_version = 1;
}

abbrev before : SwitchDb
before = record {
  auth = record {
    next_id = 10;
    tokens = a_token ∷ [];
    accounts = an_account ∷ [];
    sessions =
        record { id = 2; family_id = 3; revoked = false; created_at = 1; last_active_at = 1 } ∷ [];
  };
  roles = record {
    next_id = 30;
    roles =
        record { id = 20; name = "client"; is_system = true; is_deleted = false }
        ∷ record { id = 21; name = "detailer"; is_system = true; is_deleted = false }
        ∷ [];
    permissions = [];
    role_permissions = [];
    user_roles =
        record { user_id = 7; role_id = 20 }
        ∷ record { user_id = 7; role_id = 21 }
        ∷ record { user_id = 8; role_id = 20 }
        ∷ [];
    users = 7 ∷ 8 ∷ [];
  };
  audit = [];
}

abbrev at_noon : AuthEnv
at_noon = record {
  now = 100;
  refresh_token_expire_days = 7;
  sha256 = λ raw. raw + 1000;
  token_urlsafe = λ n. n + 2000;
}

-- The new access token has the role, and names no session, though the family has one.
switched_to_detailer :
    (switch at_noon an_account "detailer" 5 before).0
    ≡ ok (record { subject = 7; role = "detailer"; token_version = 1; session_id = none }, 2010)
unfolding switch rotate_refresh_token get_by_raw rotate_from mark_used_atomic after_claim issue_pair
    get_by_family update_last_active create_refresh_token
switched_to_detailer = refl

-- The next rotation keeps the role.
role_kept :
    (rotate_refresh_token at_noon 2010 (switch at_noon an_account "detailer" 5 before).1.auth).0
    ≡ ok (record { subject = 7; role = "detailer"; token_version = 1; session_id = some 2 }, 2011)
unfolding switch rotate_refresh_token get_by_raw rotate_from mark_used_atomic after_claim issue_pair
    get_by_family update_last_active create_refresh_token
role_kept = refl

-- User 8 switches with the refresh token of user 7, and gets the next one of user 7.
other_token :
    (switch at_noon (record an_account { id = 8 }) "client" 5 before).0
    ≡ ok (record { subject = 8; role = "client"; token_version = 1; session_id = none }, 2010)
unfolding switch rotate_refresh_token get_by_raw rotate_from mark_used_atomic after_claim issue_pair
    get_by_family update_last_active create_refresh_token
other_token = refl

not_held :
    ((switch at_noon an_account "mechanic" 5 before).0 ≡ err (http 403))
    × ((switch at_noon an_account "admin" 5 before).0 ≡ err (http 400))
unfolding switch
not_held = (refl, refl)

abbrev after : SwitchDb
after = (switch_from at_noon an_account "detailer" a_token before).1

abbrev later_steps : List SwitchStep
later_steps =
    on_tokens (log_out_everywhere 8)
    ∷ switches at_noon an_account "client" a_token
    ∷ on_tokens (rotate at_noon a_token)
    ∷ []

switch_once_example :
    (succeeds
        (transact
          (switch_from at_noon an_account "client" a_token (run_switches later_steps after))
          (run_switches later_steps after)).0
      ≡ false)
    × ((transact
          (switch_from at_noon an_account "client" a_token (run_switches later_steps after))
          (run_switches later_steps after)).1
        ≡ run_switches later_steps after)
    × (commit
          (rotate_from at_noon a_token (run_switches later_steps after).auth)
          (run_switches later_steps after).auth
        ≡ (err (http 401), (run_switches later_steps after).auth))
unfolding switch_from rotate_from mark_used_atomic after_claim issue_pair get_by_family
    update_last_active create_refresh_token
switch_once_example =
    switch_once at_noon at_noon an_account an_account "detailer" "client" a_token a_token before
      after (record { subject = 7; role = "detailer"; token_version = 1; session_id = none }, 2010)
      later_steps (omega arith, tt) refl refl
