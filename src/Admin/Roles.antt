-- ===== src/Admin/Roles.antt =====
-- Roles and permissions: the changes of backend/domains/admin/repository.py with their endpoints in
-- backend/domains/admin/router.py, and the cached check require_permission of
-- backend/domains/auth/service.py. A time is in seconds. Whether Redis answers is an argument of each
-- step, and what it holds is the map `cache`. A role's description is not modelled.
pub mod Cache
mod Staleness
mod Tests
use Prim.Native.String.{String}
use text.Mathlib.Text.{◌==◌ as str_eq}
use raycarwash_project.Base.{
  ℕ, suc, ◌+◌, Bool, true, false, not, ◌&&◌, ◌||◌, Option, none, some, List, [], ◌∷◌, ◌++◌, ◌==◌,
  ltb, map, if◌then◌else◌, any, find_where, select_where, update_where,
}
use raycarwash_project.Store.{Error, http, integrity_error, Result, ok, err}

pub record Role : Type 0 where
  pub id : ℕ
  pub name : String
  pub is_system : Bool
  pub is_deleted : Bool

pub record Permission : Type 0 where
  pub id : ℕ
  pub name : String

-- a role with a permission
pub record RolePermission : Type 0 where
  pub role_id : ℕ
  pub permission_id : ℕ

-- a user with a role
pub record UserRoleAssociation : Type 0 where
  pub user_id : ℕ
  pub role_id : ℕ

pub record RoleDb : Type 0 where
  pub next_id : ℕ
  pub roles : List Role
  pub permissions : List Permission
  pub role_permissions : List RolePermission
  pub user_roles : List UserRoleAssociation
  -- the keys of the table of users
  pub users : List ℕ

-- role_id joins an assignment, a role (deleted or not) and a grant
abbrev pub grants_to : ℕ → RoleDb → RolePermission → Bool
grants_to user d g =
    any (λ r. r.id == g.role_id) d.roles
    && any (λ u. u.user_id == user && u.role_id == g.role_id) d.user_roles

-- the SELECT of _has_permission_cached
unfoldable pub permissions_of : ℕ → RoleDb → List String
permissions_of user d =
    map (λ (p : Permission). p.name)
      (select_where
        (λ p. any (λ g. g.permission_id == p.id && grants_to user d g) d.role_permissions)
        d.permissions)

-- `permission_name in perms or "*:*" in perms`
abbrev pub holds : String → List String → Bool
holds name perms = any (λ p. str_eq p name) perms || any (λ p. str_eq p "*:*") perms

abbrev pub get_role_by_id : ℕ → RoleDb → Option Role
get_role_by_id id d = find_where (λ r. r.id == id && not r.is_deleted) d.roles

abbrev pub is_assignment : ℕ → ℕ → UserRoleAssociation → Bool
is_assignment user role u = u.user_id == user && u.role_id == role

-- An assignment to a user who does not exist violates its foreign key.
unfoldable pub assign_role_to_user : ℕ → ℕ → RoleDb → Result (Unit {0}) × RoleDb
assign_role_to_user user role d = elim (get_role_by_id role d) [
  | none ↦ (err (http 404), d)
  | some _ ↦
      if any (is_assignment user role) d.user_roles
      then (ok tt, d)
      else if any (λ u. u == user) d.users
      then (
        ok tt,
        record d { user_roles = d.user_roles ++ (record { user_id = user; role_id = role } ∷ []) },
      )
      else (err integrity_error, d)
]

unfoldable pub revoke_role_from_user : ℕ → ℕ → RoleDb → Result (Unit {0}) × RoleDb
revoke_role_from_user user role d =
    if any (is_assignment user role) d.user_roles
    then (
      ok tt,
      record d { user_roles = select_where (λ u. not (is_assignment user role u)) d.user_roles },
    )
    else (err (http 404), d)

-- the name of a role is unique, deleted ones included
unfoldable pub create_role : String → RoleDb → Result (Unit {0}) × RoleDb
create_role name d =
    if any (λ (r : Role). str_eq r.name name && not r.is_deleted) d.roles
    then (err (http 409), d)
    else if any (λ (r : Role). str_eq r.name name) d.roles
    then (err integrity_error, d)
    else (
      ok tt,
      record d {
        next_id = suc d.next_id;
        roles =
            d.roles
            ++ (record { id = d.next_id; name = name; is_system = false; is_deleted = false } ∷ []);
      },
    )

abbrev pub change_role : ℕ → (Role → Role) → RoleDb → RoleDb
change_role id change d = record d { roles = update_where (λ r. r.id == id) change d.roles }

unfoldable pub update_role : ℕ → Option String → RoleDb → Result (Unit {0}) × RoleDb
update_role id name d = elim (get_role_by_id id d) [
  | none ↦ (err (http 404), d)
  | some role ↦ if role.is_system then (err (http 404), d) else elim name [
    | none ↦ (ok tt, d)
    | some new ↦
        if any (λ (r : Role). str_eq r.name new && not (r.id == id)) d.roles
        then (err integrity_error, d)
        else (ok tt, change_role id (λ r. record r { name = new }) d)
  ]
]

unfoldable pub delete_role : ℕ → RoleDb → Result (Unit {0}) × RoleDb
delete_role id d = elim (get_role_by_id id d) [
  | none ↦ (err (http 404), d)
  | some role ↦
      if role.is_system
      then (err (http 409), d)
      else (ok tt, change_role id (λ r. record r { is_deleted = true }) d)
]

abbrev pub is_grant : ℕ → ℕ → RolePermission → Bool
is_grant role permission g = g.role_id == role && g.permission_id == permission

-- A grant to a role that does not exist violates its foreign key.
unfoldable pub assign_permission_to_role : ℕ → ℕ → RoleDb → Result (Unit {0}) × RoleDb
assign_permission_to_role role permission d =
    if any (λ (p : Permission). p.id == permission) d.permissions
    then (if any (is_grant role permission) d.role_permissions
        then (ok tt, d)
        else if any (λ (r : Role). r.id == role) d.roles
        then (
          ok tt,
          record d {
            role_permissions =
                d.role_permissions ++ (record { role_id = role; permission_id = permission } ∷ []);
          },
        )
        else (err integrity_error, d))
    else (err (http 404), d)

unfoldable pub revoke_permission_from_role : ℕ → ℕ → RoleDb → Result (Unit {0}) × RoleDb
revoke_permission_from_role role permission d =
    if any (is_grant role permission) d.role_permissions
    then (
      ok tt,
      record d {
        role_permissions = select_where (λ g. not (is_grant role permission g)) d.role_permissions;
      },
    )
    else (err (http 404), d)

unfoldable pub create_permission : String → RoleDb → Result (Unit {0}) × RoleDb
create_permission name d =
    if any (λ (p : Permission). str_eq p.name name) d.permissions
    then (err integrity_error, d)
    else (
      ok tt,
      record d {
        next_id = suc d.next_id;
        permissions = d.permissions ++ (record { id = d.next_id; name = name } ∷ []);
      },
    )

unfoldable pub delete_permission : ℕ → RoleDb → Result (Unit {0}) × RoleDb
delete_permission id d =
    if any (λ (p : Permission). p.id == id) d.permissions
    then (
      ok tt,
      record d {
        role_permissions = select_where (λ g. not (g.permission_id == id)) d.role_permissions;
        permissions = select_where (λ p. not (p.id == id)) d.permissions;
      },
    )
    else (err (http 404), d)
