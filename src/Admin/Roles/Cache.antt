-- ===== src/Admin/Roles/Cache.antt =====
-- The cached check of a permission, and what drops a cached entry.
use Prim.Native.String.{String}
use raycarwash_project.Base.{ℕ, ◌+◌, Bool, Option, none, some, List, ◌==◌, ltb, if◌then◌else◌}
use raycarwash_project.Store.{Result, ok, err}
use raycarwash_project.Admin.Roles.{
  RoleDb, permissions_of, holds, assign_role_to_user, revoke_role_from_user, create_role,
  update_role, delete_role, assign_permission_to_role, revoke_permission_from_role,
  create_permission, delete_permission,
}

-- _PERM_CACHE_TTL_SECONDS
abbrev pub cache_ttl : ℕ
cache_ttl = 600

pub record CacheEntry : Type 0 where
  pub perms : List String
  pub expires : ℕ

pub record Access : Type 0 where
  pub db : RoleDb
  pub cache : ℕ → Option CacheEntry

abbrev pub drop_key : ℕ → (ℕ → Option CacheEntry) → ℕ → Option CacheEntry
drop_key user cache u = if u == user then none else cache u

abbrev pub set_key : ℕ → CacheEntry → (ℕ → Option CacheEntry) → ℕ → Option CacheEntry
set_key user entry cache u = if u == user then some entry else cache u

-- GET of an entry that has not expired
abbrev pub get_entry : ℕ → Option CacheEntry → Option CacheEntry
get_entry now none = none
get_entry now (some e) = if ltb now e.expires then some e else none

-- the query, and SETEX when Redis answers
abbrev pub from_db : Bool → ℕ → ℕ → String → Access → Bool × Access
from_db set_up now user name s =
    let perms = permissions_of user s.db in
    (
      holds name perms,
      if set_up
          then record s {
            cache = set_key user (record { perms = perms; expires = now + cache_ttl }) s.cache;
          }
          else s,
    )

-- _has_permission_cached; `get_up` and `set_up` say whether Redis answers
unfoldable pub has_permission_cached : Bool → Bool → ℕ → ℕ → String → Access → Bool × Access
has_permission_cached get_up set_up now user name s =
    if get_up
    then elim (get_entry now (s.cache user)) [
      | some e ↦ (holds name e.perms, s)
      | none ↦ from_db set_up now user name s
    ]
    else from_db set_up now user name s

-- invalidate_permission_cache
abbrev pub invalidate_permission_cache : Bool → ℕ → Access → Access
invalidate_permission_cache up user s = if up then record s { cache = drop_key user s.cache } else s

pub data RoleChange : Type 0 where
  assigns_role revokes_role : (user role : ℕ) → RoleChange
  creates_role : String → RoleChange
  updates_role : (role : ℕ) → Option String → RoleChange
  deletes_role : (role : ℕ) → RoleChange
  assigns_permission revokes_permission : (role permission : ℕ) → RoleChange
  creates_permission : String → RoleChange
  deletes_permission : (permission : ℕ) → RoleChange

-- commit, and the invalidation that follows it when the endpoint has not raised
abbrev pub commit : Result (Unit {0}) × RoleDb → (Access → Access) → Access → Access
commit (ok u, d) next s = next (record s { db = d })
commit (err e, d) next s = s

abbrev pub keep : Access → Access
keep s = s

-- The endpoints; those of a user's roles alone drop his entry.
unfoldable pub change : Bool → RoleChange → Access → Access
change up (assigns_role user role) s =
    commit (assign_role_to_user user role s.db) (invalidate_permission_cache up user) s
change up (revokes_role user role) s =
    commit (revoke_role_from_user user role s.db) (invalidate_permission_cache up user) s
change up (creates_role name) s = commit (create_role name s.db) keep s
change up (updates_role role name) s = commit (update_role role name s.db) keep s
change up (deletes_role role) s = commit (delete_role role s.db) keep s
change up (assigns_permission role permission) s =
    commit (assign_permission_to_role role permission s.db) keep s
change up (revokes_permission role permission) s =
    commit (revoke_permission_from_role role permission s.db) keep s
change up (creates_permission name) s = commit (create_permission name s.db) keep s
change up (deletes_permission permission) s = commit (delete_permission permission s.db) keep s
