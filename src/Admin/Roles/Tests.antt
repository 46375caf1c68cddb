-- ===== src/Admin/Roles/Tests.antt =====
-- A washer whose role may write bookings.
use raycarwash_project.Base.{ℕ, ◌+◌, ◌<◌, ◌≡◌, refl, ◌⊎◌, true, false, none, List, [], ◌∷◌}
use raycarwash_project.Store.{integrity_error, err}
use raycarwash_project.Admin.Roles.{
  RoleDb, permissions_of, holds, revoke_role_from_user, create_role, delete_role,
  revoke_permission_from_role,
}
use raycarwash_project.Admin.Roles.Cache.{
  Access, revokes_role, revokes_permission, cache_ttl, has_permission_cached, change,
}
use raycarwash_project.Admin.Roles.Staleness.{
  AccessStep, checks, changes, Was, serve_all, has_permission_cached-Recent,
}

-- user 1 has role 10, which grants permission 20
abbrev access : Access
access = record {
  db = record {
    next_id = 100;
    roles = record { id = 10; name = "washer"; is_system = false; is_deleted = false } ∷ [];
    permissions = record { id = 20; name = "write:appointments" } ∷ [];
    role_permissions = record { role_id = 10; permission_id = 20 } ∷ [];
    user_roles = record { user_id = 1; role_id = 10 } ∷ [];
    users = 1 ∷ [];
  };
  cache = λ _. none;
}

-- asked 599 and 600 seconds after the check that cached the answer
permission_revoked :
    let after =
      serve_all
        (checks true true 5 1 "write:appointments" ∷ changes true (revokes_permission 10 20) ∷ [])
        access in
    ((has_permission_cached true true 604 1 "write:appointments" after).0 ≡ true)
    × ((has_permission_cached true true 605 1 "write:appointments" after).0 ≡ false)
unfolding has_permission_cached change permissions_of revoke_permission_from_role
permission_revoked = (refl, refl)

-- A user's role taken away drops his entry, if Redis answers.
role_revoked :
    ((has_permission_cached true true 6 1 "write:appointments" (
        serve_all
          (checks true true 5 1 "write:appointments" ∷ changes true (revokes_role 1 10) ∷ [])
          access)).0
      ≡ false)
    × ((has_permission_cached true true 6 1 "write:appointments" (
          serve_all
            (checks true true 5 1 "write:appointments" ∷ changes false (revokes_role 1 10) ∷ [])
            access)).0
        ≡ true)
unfolding has_permission_cached change permissions_of revoke_role_from_user
role_revoked = (refl, refl)

-- A deleted role grants what it granted, and its name is not free.
role_deleted :
    let after = (delete_role 10 access.db).1 in
    (permissions_of 1 after ≡ "write:appointments" ∷ [])
    × ((create_role "washer" after).0 ≡ err integrity_error)
unfolding delete_role permissions_of create_role
role_deleted = (refl, refl)

abbrev run : List AccessStep
run = checks true true 5 1 "write:appointments" ∷ changes true (revokes_permission 10 20) ∷ []

has_permission_cached-Recent_example :
    ((has_permission_cached true true 600 1 "write:appointments" (serve_all run access)).0
      ≡ holds "write:appointments" (permissions_of 1 (serve_all run access).db))
    ⊎ ((t : ℕ) × ((d : RoleDb) × (Was t d run access
            × ((600 < t + cache_ttl)
                × ((has_permission_cached true true 600 1 "write:appointments"
                      (serve_all run access)).0
                    ≡ holds "write:appointments" (permissions_of 1 d))))))
has_permission_cached-Recent_example =
    has_permission_cached-Recent run true true 600 1 "write:appointments" access (λ u. refl)
