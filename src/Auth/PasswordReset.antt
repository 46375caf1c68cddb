-- ===== src/Auth/PasswordReset.antt =====
-- The reset of a password: PasswordResetTokenRepository of
-- backend/domains/auth/password_reset_token_repository.py, create_password_reset_token and
-- verify_password_reset_token of backend/domains/auth/service.py, and the two endpoints of
-- backend/domains/auth/routers/password.py in the transaction of get_db. A raw token is a number, the
-- random ones come by a counter; sha256 and the hash of a password are arguments. The rate limit and
-- the e-mail are not modelled.
mod SingleUse
mod Tests
use raycarwash_project.Base.{
  ℕ, suc, ◌+◌, Bool, true, false, not, ◌&&◌, ◌||◌, Option, none, some, List, [], ◌∷◌, ◌++◌, ◌==◌,
  ltb, leb, if◌then◌else◌, any, map, find_where, update_where, same_codes,
}
use raycarwash_project.Store.{Error, http, integrity_error, Result, ok, err}
use raycarwash_project.Catalog.{lower_code}

pub record PasswordResetToken : Type 0 where
  pub id : ℕ
  pub user_id : ℕ
  pub token_hash : ℕ
  pub used_at : Option ℕ
  pub expires_at : ℕ

-- the columns of User that a reset reads and writes
pub record ResetUser : Type 0 where
  pub id : ℕ
  pub email : List ℕ
  pub is_active : Bool
  pub is_deleted : Bool
  pub password_hash : ℕ
  pub token_version : ℕ

pub data ResetAudit : Type 0 where
  reset_requested password_changed : ℕ → ResetAudit

pub record ResetDb : Type 0 where
  pub next_id : ℕ
  pub tokens : List PasswordResetToken
  pub users : List ResetUser
  pub audit : List ResetAudit

-- one hour in microseconds
abbrev pub reset_ttl : ℕ
reset_ttl = 3600000000

abbrev pub is_unused : Option ℕ → Bool
is_unused none = true
is_unused (some _) = false

abbrev pub unused_of : ℕ → PasswordResetToken → Bool
unused_of user t = t.user_id == user && is_unused t.used_at

abbrev pub mark : ℕ → PasswordResetToken → PasswordResetToken
mark now t = record t { used_at = some now }

unfoldable pub invalidate_all_for_user : ℕ → ℕ → List PasswordResetToken → List PasswordResetToken
invalidate_all_for_user now user tokens = update_where (unused_of user) (mark now) tokens

-- the UPDATE of mark_used, which asks for the key only
unfoldable pub mark_used : ℕ → ℕ → List PasswordResetToken → List PasswordResetToken
mark_used now id tokens = update_where (λ t. t.id == id) (mark now) tokens

-- the tests of consume on the row that it has read
abbrev pub is_consumable : ℕ → PasswordResetToken → Bool
is_consumable now t = is_unused t.used_at && not (ltb t.expires_at now)

abbrev pub usable : ResetUser → Bool
usable u = u.is_active && not u.is_deleted

abbrev pub is_account : ℕ → ResetUser → Bool
is_account id u = u.id == id && not u.is_deleted

-- the transaction of a request
abbrev pub transact : {A : Type 0} → Result A × ResetDb → ResetDb → Result A × ResetDb
transact (ok a, after) before = (ok a, after)
transact (err e, after) before = (err e, before)

-- consume from a row that was read, which another transaction may have changed since
unfoldable pub consume_from :
    ℕ
    → PasswordResetToken
    → List PasswordResetToken
    → Option PasswordResetToken × List PasswordResetToken
consume_from now t tokens =
    if is_consumable now t then (some t, mark_used now t.id tokens) else (none, tokens)

module _ (sha256 : ℕ → ℕ) where
  abbrev pub has_token : ℕ → PasswordResetToken → Bool
  has_token raw t = t.token_hash == sha256 raw

  unfoldable pub create_password_reset_token : ℕ → ℕ → ℕ → ResetDb → Result (Unit {0}) × ResetDb
  create_password_reset_token now raw user d =
      let tokens = invalidate_all_for_user now user d.tokens in
      if any (has_token raw) tokens then (err integrity_error, d) else (
        ok tt,
        record d {
          next_id = suc d.next_id;
          tokens =
              tokens
              ++ (record {
                id = d.next_id;
                user_id = user;
                token_hash = sha256 raw;
                used_at = none;
                expires_at = now + reset_ttl;
              }
                  ∷ []);
        },
      )

  -- request_password_reset: the answer does not say whether there is such a user
  unfoldable pub request_password_reset : ℕ → ℕ → List ℕ → ResetDb → Result (Unit {0}) × ResetDb
  request_password_reset now raw email d =
      elim (find_where (λ u. same_codes u.email (map lower_code email) && not u.is_deleted)
        d.users) [
          | none ↦ (ok tt, d)
          | some u ↦
              if u.is_active
              then (let (r, d') = create_password_reset_token now raw u.id d in
                  (r, record d' { audit = d'.audit ++ (reset_requested u.id ∷ []) }))
              else (ok tt, d)
        ]

  unfoldable pub consume :
      ℕ → ℕ → List PasswordResetToken → Option PasswordResetToken × List PasswordResetToken
  consume now raw tokens = elim (find_where (has_token raw) tokens) [
    | none ↦ (none, tokens)
    | some t ↦ consume_from now t tokens
  ]

  -- confirm_password_reset, with the hash of the new password, from what consume gives
  abbrev pub set_password :
      ℕ
      → Option PasswordResetToken × List PasswordResetToken
      → ResetDb
      → Result (Unit {0}) × ResetDb
  set_password password (none, tokens) d = (err (http 400), d)
  set_password password (some t, tokens) d = elim (find_where (is_account t.user_id) d.users) [
    | none ↦ (err (http 400), d)
    | some u ↦
        if usable u
        then (
          ok tt,
          record d {
            tokens = tokens;
            users =
                update_where (λ x. x.id == u.id)
                  (λ x. record x { password_hash = password; token_version = suc x.token_version })
                  d.users;
            audit = d.audit ++ (password_changed u.id ∷ []);
          },
        )
        else (err (http 400), d)
  ]

  unfoldable pub confirm_password_reset : ℕ → ℕ → ℕ → ResetDb → Result (Unit {0}) × ResetDb
  confirm_password_reset now raw password d = set_password password (consume now raw d.tokens) d
