-- ===== src/Auth/Tokens.antt =====
-- Refresh tokens: RefreshTokenRepository of backend/domains/auth/refresh_token_repository.py and
-- rotate_refresh_token of backend/domains/auth/service.py. A raw token is a number; sha256, the random
-- tokens of `secrets` (by a counter) and the signing of a JWT are outside the model: the first two are
-- parameters, and an access token is its claims.
pub mod SingleUse
mod Tests
use Prim.Native.String.{String}
use text.Mathlib.Text.{◌==◌ as str_eq}
use raycarwash_project.Base.{
  ℕ, suc, ◌+◌, ◌*◌, ◌==◌, ltb, Bool, true, false, not, ◌&&◌, ◌||◌, Option, none, some, List, [],
  ◌∷◌, ◌++◌, any, count_where, find_where, update_where, if◌then◌else◌,
}
use raycarwash_project.Store.{Error, http, integrity_error, Result, ok, err}

pub record RefreshToken : Type 0 where
  pub id : ℕ
  pub user_id : ℕ
  pub token_hash : ℕ
  pub family_id : ℕ
  pub used_at : Option ℕ
  pub revoked : Bool
  pub expires_at : ℕ

-- the columns of User that rotation reads; primary_role is the name of the first of user_roles
pub record Account : Type 0 where
  pub id : ℕ
  pub is_active : Bool
  pub is_deleted : Bool
  pub active_role : Option String
  pub primary_role : Option String
  pub token_version : ℕ

pub record Session : Type 0 where
  pub id : ℕ
  pub family_id : ℕ
  pub revoked : Bool
  pub created_at : ℕ
  pub last_active_at : ℕ

pub record AuthDb : Type 0 where
  pub next_id : ℕ
  pub tokens : List RefreshToken
  pub accounts : List Account
  pub sessions : List Session

pub record AuthEnv : Type 0 where
  pub now : ℕ
  pub refresh_token_expire_days : ℕ
  pub sha256 : ℕ → ℕ
  pub token_urlsafe : ℕ → ℕ

pub record AccessToken : Type 0 where
  pub subject : ℕ
  pub role : String
  pub token_version : ℕ
  pub session_id : Option ℕ

-- `token.used_at is not None or token.revoked`
abbrev pub is_spent : RefreshToken → Bool
is_spent t = elim t.used_at [ none ↦ t.revoked | some _ ↦ true ]

unfoldable pub get_by_raw : AuthEnv → ℕ → AuthDb → Option RefreshToken
get_by_raw env raw d = find_where (λ (t : RefreshToken). t.token_hash == env.sha256 raw) d.tokens

-- the WHERE of mark_used_atomic
abbrev pub claimable : ℕ → RefreshToken → Bool
claimable token_id t = t.id == token_id && not (is_spent t)

-- `rowcount == 1`, and the table after the UPDATE
unfoldable pub mark_used_atomic : AuthEnv → ℕ → AuthDb → Bool × AuthDb
mark_used_atomic env token_id d = (
  count_where (claimable token_id) d.tokens == 1,
  record d {
    tokens = update_where (claimable token_id) (λ t. record t { used_at = some env.now }) d.tokens;
  },
)

unfoldable pub revoke_family : ℕ → AuthDb → AuthDb
revoke_family family_id d = record d {
  tokens =
      update_where (λ (t : RefreshToken). t.family_id == family_id)
        (λ t. record t { revoked = true }) d.tokens;
}

unfoldable pub revoke_all_for_user : ℕ → AuthDb → AuthDb
revoke_all_for_user user_id d = record d {
  tokens =
      update_where (λ (t : RefreshToken). t.user_id == user_id) (λ t. record t { revoked = true })
        d.tokens;
}

-- create_refresh_token with a given family; token_hash is unique
unfoldable pub create_refresh_token : AuthEnv → ℕ → ℕ → AuthDb → Result ℕ × AuthDb
create_refresh_token env user_id family_id d =
    let raw = env.token_urlsafe d.next_id in
    if any (λ (t : RefreshToken). t.token_hash == env.sha256 raw) d.tokens
    then (err integrity_error, d)
    else (
      ok raw,
      record d {
        next_id = suc d.next_id;
        tokens =
            d.tokens
            ++ (record {
              id = d.next_id;
              user_id = user_id;
              token_hash = env.sha256 raw;
              family_id = family_id;
              used_at = none;
              revoked = false;
              expires_at = env.now + env.refresh_token_expire_days * 86400000000;
            }
                ∷ []);
      },
    )

-- ORDER BY created_at DESC LIMIT 1
latest : List Session → Option Session
latest [] = none
latest (s ∷ rest) = elim (latest rest) [
  | none ↦ some s
  | some t ↦ if ltb s.created_at t.created_at then some t else some s
]

active_of : ℕ → List Session → List Session
active_of family_id [] = []
active_of family_id (s ∷ rest) =
    let more = active_of family_id rest in
    if s.family_id == family_id && not s.revoked then s ∷ more else more

unfoldable pub get_by_family : ℕ → AuthDb → Option Session
unfolding latest active_of
get_by_family family_id d = latest (active_of family_id d.sessions)

unfoldable pub update_last_active : AuthEnv → ℕ → AuthDb → AuthDb
update_last_active env session_id d = record d {
  sessions =
      update_where (λ (s : Session). s.id == session_id)
        (λ s. record s { last_active_at = env.now }) d.sessions;
}

abbrev truthy_or : Option String → String → String
truthy_or none other = other
truthy_or (some s) other = if str_eq s "" then other else s

-- `user.active_role or user.primary_role or "client"`
abbrev effective_role : Account → String
effective_role user = truthy_or user.active_role (truthy_or user.primary_role "client")

-- UserRepository.get_by_id
abbrev get_account : ℕ → AuthDb → Option Account
get_account user_id d = find_where (λ (u : Account). u.id == user_id && not u.is_deleted) d.accounts

-- from the session on: the new pair
unfoldable pub issue_pair :
    AuthEnv → RefreshToken → Account → AuthDb → Result (AccessToken × ℕ) × AuthDb
issue_pair env row user d =
    let session = get_by_family row.family_id d in
    let d' : AuthDb = elim session [ none ↦ d | some s ↦ update_last_active env s.id d ] in
    let access : AccessToken = record {
      subject = user.id;
      role = effective_role user;
      token_version = user.token_version;
      session_id = elim session [ none ↦ none | some s ↦ some s.id ];
    } in
    let r : Result ℕ × AuthDb = create_refresh_token env user.id row.family_id d' in
    (elim r.0 [ ok raw ↦ ok (access, raw) | err e ↦ err e ], r.1)

-- what follows the claim
unfoldable pub after_claim :
    AuthEnv → RefreshToken → Bool → AuthDb → Result (AccessToken × ℕ) × AuthDb
after_claim env row false d = (err (http 401), revoke_family row.family_id d)
after_claim env row true d = elim (get_account row.user_id d) [
  | none ↦ (err (http 401), d)
  | some user ↦ if user.is_active then issue_pair env row user d else (err (http 401), d)
]

-- rotate_refresh_token from the row that get_by_raw read, which another transaction may have changed
-- since: the UPDATE of the claim looks at the table again.
unfoldable pub rotate_from : AuthEnv → RefreshToken → AuthDb → Result (AccessToken × ℕ) × AuthDb
rotate_from env row d =
    if is_spent row
    then (err (http 401), revoke_family row.family_id d)
    else if ltb row.expires_at env.now
    then (err (http 401), d)
    else let (claimed, d') = mark_used_atomic env row.id d in after_claim env row claimed d'

unfoldable pub rotate_refresh_token : AuthEnv → ℕ → AuthDb → Result (AccessToken × ℕ) × AuthDb
rotate_refresh_token env raw d = elim (get_by_raw env raw d) [
  | none ↦ (err (http 401), d)
  | some row ↦ rotate_from env row d
]

-- get_db: commit on return, roll back on an exception
abbrev pub commit : {A : Type 0} → Result A × AuthDb → AuthDb → Result A × AuthDb
commit (ok a, d') d = (ok a, d')
commit (err e, d') d = (err e, d)
