-- ===== src/Auth/Tokens/Tests.antt =====
-- One refresh token, its rotation and its reuse.
use raycarwash_project.Base.{ℕ, ◌+◌, true, false, none, some, List, [], ◌∷◌}
use raycarwash_project.Auth.Tokens.{
  RefreshToken, Account, AuthDb, AuthEnv, AccessToken, rotate_from,
}
use raycarwash_project.Auth.Tokens.SingleUse.{Step, rotate, log_in, log_out_everywhere}

abbrev a_token : RefreshToken
a_token = record {
  id = 1;
  user_id = 7;
  token_hash = 1005;
  family_id = 3;
  used_at = none;
  revoked = false;
  expires_at = 900;
}

abbrev a_spent_token : RefreshToken
a_spent_token = record a_token { used_at = some 50 }

abbrev an_account : Account
an_account = record {
  id = 7;
  is_active = true;
  is_deleted = false;
  active_role = none;
  primary_role = some "client";
  token_version = 1;
}

abbrev tokens_db : List RefreshToken → AuthDb
tokens_db tokens = record {
  next_id = 10;
  tokens = tokens;
  accounts = an_account ∷ [];
  sessions = [];
}

abbrev at_noon : AuthEnv
at_noon = record {
  now = 100;
  refresh_token_expire_days = 7;
  sha256 = λ raw. raw + 1000;
  token_urlsafe = λ n. n + 2000;
}

abbrev a_pair : AccessToken × ℕ
a_pair = (record { subject = 7; role = "client"; token_version = 1; session_id = none }, 2010)

abbrev after_rotation : AuthDb
after_rotation = (rotate_from at_noon a_token (tokens_db (a_token ∷ []))).1

abbrev later_steps : List Step
later_steps = log_in at_noon 7 4 ∷ rotate at_noon a_token ∷ log_out_everywhere 8 ∷ []
