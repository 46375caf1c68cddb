-- ===== src/Users/ContactChange.antt =====
-- ContactChangeService of backend/domains/users/contact_change_service.py, with the transaction that
-- get_db puts around its requests. A token or a one-time code is a number, its hash `sha256` of it; an
-- address or a telephone number is its code points. The comparison of a password, the HMAC of a number
-- and the randomness are arguments. No log line and no message is modelled.
mod Guesses
mod SingleUse
mod RoundTrip
mod Tests
use raycarwash_project.Base.{
  ℕ, suc, ◌+◌, Bool, true, false, not, ◌&&◌, ◌||◌, Option, none, some, List, [], ◌∷◌, ◌++◌, ◌==◌,
  ltb, leb, map, if◌then◌else◌, any, find_where, select_where, update_where, same_codes,
}
use raycarwash_project.Catalog.{lower_code, strip}
use raycarwash_project.Store.{Error, http, integrity_error, Result, ok, err}
use raycarwash_project.Auth.Tokens.{AuthDb, revoke_all_for_user}

pub data ContactChangeType : Type 0 where
  email phone : ContactChangeType

pub record PendingContactChange : Type 0 where
  pub id : ℕ
  pub user_id : ℕ
  pub change_type : ContactChangeType
  pub new_value : List ℕ
  pub verification_token_hash : ℕ
  pub attempts : ℕ
  pub created_at : ℕ
  pub expires_at : ℕ
  pub consumed_at : Option ℕ

pub record ContactUser : Type 0 where
  pub id : ℕ
  pub email_address : List ℕ
  pub is_verified : Bool
  pub phone_number : Option (List ℕ)
  pub phone_hash : Option ℕ
  pub token_version : ℕ
  pub is_deleted : Bool

-- the action with the user
pub data ContactAudit : Type 0 where
  email_change_requested email_changed phone_change_requested phone_changed : ℕ → ContactAudit

pub record ContactDb : Type 0 where
  pub next_id : ℕ
  pub users : List ContactUser
  pub pending : List PendingContactChange
  pub auth : AuthDb
  pub audit : List ContactAudit

-- _EMAIL_TOKEN_TTL, _PHONE_OTP_TTL (microseconds) and _MAX_PHONE_ATTEMPTS
abbrev pub email_token_ttl : ℕ
email_token_ttl = 3600000000

abbrev pub phone_otp_ttl : ℕ
phone_otp_ttl = 600000000

abbrev pub max_phone_attempts : ℕ
max_phone_attempts = 5

abbrev pub is_type : ContactChangeType → ContactChangeType → Bool
is_type email email = true
is_type phone phone = true
is_type _ _ = false

abbrev pub is_unconsumed : Option ℕ → Bool
is_unconsumed none = true
is_unconsumed (some _) = false

-- get_db around a request: the writes of a request that raises are rolled back
module _ {A D : Type 0} where
  abbrev pub transact : Result A × D → D → Result A × D
  transact (ok a, after) before = (ok a, after)
  transact (err e, after) before = (err e, before)

abbrev pub open_change : ℕ → ContactChangeType → PendingContactChange → Bool
open_change user kind r =
    r.user_id == user && (is_type r.change_type kind && is_unconsumed r.consumed_at)

-- _purge_existing
unfoldable pub purge_existing :
    ℕ → ContactChangeType → List PendingContactChange → List PendingContactChange
purge_existing user kind rows = select_where (λ r. not (open_change user kind r)) rows

abbrev pub audited : ContactAudit → ContactDb → ContactDb
audited entry d = record d { audit = d.audit ++ (entry ∷ []) }

abbrev pub new_change : ℕ → ℕ → ContactChangeType → List ℕ → ℕ → ℕ → ℕ → PendingContactChange
new_change id user kind value hash now ttl = record {
  id = id;
  user_id = user;
  change_type = kind;
  new_value = value;
  verification_token_hash = hash;
  attempts = 0;
  created_at = now;
  expires_at = now + ttl;
  consumed_at = none;
}

-- the one change in flight of a user and a kind
abbrev pub start_change :
    ℕ → ContactChangeType → List ℕ → ℕ → ℕ → ℕ → ContactAudit → ContactDb → ContactDb
start_change user kind value hash now ttl entry d = audited entry (record d {
  next_id = suc d.next_id;
  pending =
      purge_existing user kind d.pending
      ++ (new_change d.next_id user kind value hash now ttl ∷ []);
})

-- `(user.token_version or 1) + 1`
abbrev pub next_version : ℕ → ℕ
next_version version = if version == 0 then 2 else suc version

abbrev pub consume : ℕ → ℕ → List PendingContactChange → List PendingContactChange
consume id now rows = update_where (λ r. r.id == id) (λ r. record r { consumed_at = some now }) rows

-- ORDER BY created_at DESC LIMIT 1
abbrev pub later_of : PendingContactChange → Option PendingContactChange → PendingContactChange
later_of r none = r
later_of r (some q) = if ltb r.created_at q.created_at then q else r

abbrev pub latest : List PendingContactChange → Option PendingContactChange
latest [] = none
latest (r ∷ rs) = some (later_of r (latest rs))

module _ (sha256 : ℕ → ℕ) where
  unfoldable pub request_email_change :
      Bool → ℕ → ℕ → ContactUser → List ℕ → ContactDb → Result ℕ × ContactDb
  request_email_change password_ok token now user new_email d =
      let address = map lower_code (strip new_email) in
      if not password_ok
      then (err (http 403), d)
      else if same_codes address (map lower_code user.email_address)
      then (err (http 422), d)
      else (
        ok token,
        start_change user.id email address (sha256 token) now email_token_ttl
            (email_change_requested user.id) d,
      )

  -- the swap of the address, with every refresh token of the user revoked
  abbrev pub switch_email : ℕ → PendingContactChange → ContactDb → ContactDb
  switch_email now row d = audited (email_changed row.user_id) (record d {
    users =
        update_where (λ u. u.id == row.user_id)
          (λ u. record u {
            email_address = row.new_value;
            is_verified = true;
            token_version = next_version u.token_version;
          })
          d.users;
    pending = consume row.id now d.pending;
    auth = revoke_all_for_user row.user_id d.auth;
  })

  abbrev pub for_token : ℕ → PendingContactChange → Bool
  for_token token r =
      r.verification_token_hash == sha256 token
      && (is_type r.change_type email && is_unconsumed r.consumed_at)

  -- uq_users_email is not tested before the write
  abbrev pub confirm_row : ℕ → Option PendingContactChange → ContactDb → Result ℕ × ContactDb
  confirm_row now none d = (err (http 410), d)
  confirm_row now (some row) d =
      if ltb row.expires_at now
      then (err (http 410), d)
      else if not (any (λ u. u.id == row.user_id && not u.is_deleted) d.users)
      then (err (http 404), d)
      else if any (λ u. not (u.id == row.user_id) && same_codes u.email_address row.new_value)
          d.users
      then (err integrity_error, d)
      else (ok row.user_id, switch_email now row d)

  unfoldable pub confirm_email_change : ℕ → ℕ → ContactDb → Result ℕ × ContactDb
  confirm_email_change token now d = confirm_row now (find_where (for_token token) d.pending) d

  unfoldable pub request_phone_change :
      Bool → ℕ → ℕ → ContactUser → List ℕ → ContactDb → Result ℕ × ContactDb
  request_phone_change password_ok otp now user new_phone d =
      let number = strip new_phone in
      if not password_ok
      then (err (http 403), d)
      else if elim user.phone_number [ none ↦ false | some old ↦ same_codes number old ]
      then (err (http 422), d)
      else (
        ok otp,
        start_change user.id phone number (sha256 otp) now phone_otp_ttl
            (phone_change_requested user.id) d,
      )

abbrev pub has_hash : ℕ → ContactUser → Bool
has_hash hash u = elim u.phone_hash [ none ↦ false | some h ↦ h == hash ]

module _ (sha256 : ℕ → ℕ) (hash_phone : List ℕ → ℕ) where
  -- phone_hash is unique over all users
  abbrev pub switch_phone : ℕ → PendingContactChange → ContactDb → Result ℕ × ContactDb
  switch_phone now row d =
      if any (λ u. not (u.id == row.user_id) && has_hash (hash_phone row.new_value) u) d.users
      then (err integrity_error, d)
      else (
        ok row.user_id,
        audited (phone_changed row.user_id) (record d {
          users =
              update_where (λ u. u.id == row.user_id)
                (λ u. record u {
                  phone_number = some row.new_value;
                  phone_hash = some (hash_phone row.new_value);
                  token_version = next_version u.token_version;
                })
                d.users;
          pending = consume row.id now d.pending;
          auth = revoke_all_for_user row.user_id d.auth;
        }),
      )

  abbrev pub verify_row : ℕ → ℕ → Option PendingContactChange → ContactDb → Result ℕ × ContactDb
  verify_row now otp none d = (err (http 410), d)
  verify_row now otp (some row) d =
      if ltb row.expires_at now
      then (err (http 410), d)
      else if leb max_phone_attempts row.attempts
      then (
        err (http 423),
        record d { pending = select_where (λ r. not (r.id == row.id)) d.pending },
      )
      else if not (row.verification_token_hash == sha256 otp)
      then (
        err (http 422),
        record d {
          pending =
              update_where (λ r. r.id == row.id) (λ r. record r { attempts = suc r.attempts })
                d.pending;
        },
      )
      else switch_phone now row d

  unfoldable pub verify_phone_change : ℕ → ℕ → ℕ → ContactDb → Result ℕ × ContactDb
  verify_phone_change now user otp d =
      verify_row now otp (latest (select_where (open_change user phone) d.pending)) d

  -- POST /phone/change-verify: the service in the transaction of its request
  unfoldable pub phone_change_verify : ℕ → ℕ → ℕ → ContactDb → Result ℕ × ContactDb
  phone_change_verify now user otp d = transact (verify_phone_change now user otp d) d
