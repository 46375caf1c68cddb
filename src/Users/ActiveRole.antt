-- ===== src/Users/ActiveRole.antt =====
-- The switch of the active role: ActiveRoleService of backend/domains/users/active_role_service.py over
-- the rotation of refresh tokens (Auth/Tokens) and the tables of roles (Admin/Roles).
mod Once
mod Tests
use Prim.Native.String.{String}
use text.Mathlib.Text.{◌==◌ as str_eq}
use raycarwash_project.Base.{
  ℕ, Bool, true, false, not, ◌&&◌, ◌||◌, Option, none, some, List, [], ◌∷◌, ◌++◌, ◌==◌, map,
  if◌then◌else◌, any, find_where, select_where, update_where,
}
use raycarwash_project.Store.{Error, http, Result, ok, err}
use raycarwash_project.Auth.Tokens.{
  RefreshToken, Account, AuthDb, AuthEnv, AccessToken, get_by_raw, rotate_from,
  rotate_refresh_token,
}
use raycarwash_project.Admin.Roles.{Role, RoleDb}

-- role_switched, by user, with the old and the new role
pub data RoleAudit : Type 0 where
  role_switched : (user : ℕ) → (old : Option String) → (new : String) → RoleAudit

pub record SwitchDb : Type 0 where
  pub auth : AuthDb
  pub roles : RoleDb
  pub audit : List RoleAudit

-- _SWITCHABLE_ROLES
abbrev pub is_switchable : String → Bool
is_switchable role = str_eq role "client" || (str_eq role "detailer" || str_eq role "mechanic")

abbrev pub held_roles : ℕ → RoleDb → List String
held_roles user d =
    map (λ (r : Role). r.name)
      (select_where (λ r. any (λ u. u.user_id == user && u.role_id == r.id) d.user_roles) d.roles)

-- `token_version or 1`
abbrev pub version_or_one : ℕ → ℕ
version_or_one n = if n == 0 then 1 else n

abbrev pub with_active_role : ℕ → String → AuthDb → AuthDb
with_active_role user target d = record d {
  accounts =
      update_where (λ (u : Account). u.id == user) (λ u. record u { active_role = some target })
        d.accounts;
}

-- what follows the rotation; the access token it has made is not used
abbrev pub switched :
    Account
    → String
    → Result (AccessToken × ℕ) × AuthDb
    → SwitchDb
    → Result (AccessToken × ℕ) × SwitchDb
switched user target (err e, d) s = (err e, record s { auth = d })
switched user target (ok (access, refresh), d) s = (
  ok (
    record {
      subject = user.id;
      role = target;
      token_version = version_or_one user.token_version;
      session_id = none;
    },
    refresh,
  ),
  record s {
    auth = with_active_role user.id target d;
    audit = s.audit ++ (role_switched user.id user.active_role target ∷ []);
  },
)

-- The guards, and a rotation.
abbrev pub switch_by :
    (AuthDb → Result (AccessToken × ℕ) × AuthDb)
    → Account
    → String
    → SwitchDb
    → Result (AccessToken × ℕ) × SwitchDb
switch_by rotation user target s =
    if not (is_switchable target)
    then (err (http 400), s)
    else if not (any (str_eq target) (held_roles user.id s.roles))
    then (err (http 403), s)
    else switched user target (rotation s.auth) s

-- switch from the row that get_by_raw read, which another transaction may have changed since
unfoldable pub switch_from :
    AuthEnv → Account → String → RefreshToken → SwitchDb → Result (AccessToken × ℕ) × SwitchDb
switch_from env user target row s = switch_by (rotate_from env row) user target s

unfoldable pub switch :
    AuthEnv → Account → String → ℕ → SwitchDb → Result (AccessToken × ℕ) × SwitchDb
switch env user target raw s = switch_by (rotate_refresh_token env raw) user target s

-- get_db around a request
abbrev pub transact : {A : Type 0} → Result A × SwitchDb → SwitchDb → Result A × SwitchDb
transact (ok a, after) before = (ok a, after)
transact (err e, after) before = (err e, before)
