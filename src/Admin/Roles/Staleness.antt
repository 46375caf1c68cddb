-- ===== src/Admin/Roles/Staleness.antt =====
-- How old an answer can be.
use Prim.Native.String.{String}
use raycarwash_project.Base.{
  ℕ, ◌+◌, ◌<◌, ◌≡◌, refl, ◌⊎◌, inl, inr, Bool, true, false, none, some, List, [], ◌∷◌, arith, ◌==◌,
  ltb, Bool-cases, Option-cases,
}
use raycarwash_project.Store.{Result, ok, err}
use raycarwash_project.Admin.Roles.{RoleDb, permissions_of, holds}
use raycarwash_project.Admin.Roles.Cache.{
  Access, CacheEntry, RoleChange, assigns_role, revokes_role, creates_role, updates_role,
  deletes_role, assigns_permission, revokes_permission, creates_permission, deletes_permission,
  cache_ttl, get_entry, from_db, has_permission_cached, change, commit, invalidate_permission_cache,
  keep,
}

-- A check of a user's permission at a time, or a change; the flags say whether Redis answers.
pub data AccessStep : Type 0 where
  checks : (get_up set_up : Bool) (now user : ℕ) → String → AccessStep
  changes : (up : Bool) → RoleChange → AccessStep

abbrev pub serve : AccessStep → Access → Access
serve (checks get_up set_up now user name) s =
    (has_permission_cached get_up set_up now user name s).1
serve (changes up c) s = change up c s

abbrev pub serve_all : List AccessStep → Access → Access
serve_all [] s = s
serve_all (a ∷ rest) s = serve_all rest (serve a s)

abbrev HappensAt : ℕ → AccessStep → Type 0
HappensAt t (checks get_up set_up now user name) = now ≡ t
HappensAt t (changes up c) = ⊥

-- In the run there was a check at time t, when the tables were d.
abbrev pub Was : ℕ → RoleDb → List AccessStep → Access → Type 0
Was t d [] s = ⊥
Was t d (a ∷ rest) s = (HappensAt t a × (s.db ≡ d)) ⊎ Was t d rest (serve a s)

-- An entry is what was granted at a check.
abbrev Taken : ℕ → CacheEntry → ℕ → RoleDb → Type 0
Taken user e t d = (e.perms ≡ permissions_of user d) × (e.expires ≡ t + cache_ttl)

commit-cache :
    (r : Result (Unit {0}) × RoleDb) (s : Access) (user : ℕ) (e : CacheEntry)
    → (commit r keep s).cache user ≡ some e
    → s.cache user ≡ some e
commit-cache (ok u, d) s user e h = h
commit-cache (err x, d) s user e h = h

commit-drop :
    (r : Result (Unit {0}) × RoleDb) (up : Bool) (who : ℕ) (s : Access) (user : ℕ) (e : CacheEntry)
    → (commit r (invalidate_permission_cache up who) s).cache user ≡ some e
    → s.cache user ≡ some e
commit-drop (ok u, d) true who s user e h = ground (arith, h)
commit-drop (ok u, d) false who s user e h = h
commit-drop (err x, d) up who s user e h = h

-- A change takes entries away and puts none.
change-cache :
    (up : Bool) (c : RoleChange) (s : Access) (user : ℕ) (e : CacheEntry)
    → (change up c s).cache user ≡ some e
    → s.cache user ≡ some e
unfolding change
change-cache up (assigns_role who role) s user e h = commit-drop _ up who s user e h
change-cache up (revokes_role who role) s user e h = commit-drop _ up who s user e h
change-cache up (creates_role name) s user e h = commit-cache _ s user e h
change-cache up (updates_role role name) s user e h = commit-cache _ s user e h
change-cache up (deletes_role role) s user e h = commit-cache _ s user e h
change-cache up (assigns_permission role p) s user e h = commit-cache _ s user e h
change-cache up (revokes_permission role p) s user e h = commit-cache _ s user e h
change-cache up (creates_permission name) s user e h = commit-cache _ s user e h
change-cache up (deletes_permission p) s user e h = commit-cache _ s user e h

from_db-cache :
    (up : Bool) (now who : ℕ) (name : String) (s : Access) (user : ℕ) (e : CacheEntry)
    → (from_db up now who name s).1.cache user ≡ some e
    → (s.cache user ≡ some e) ⊎ Taken user e now s.db
from_db-cache false now who name s user e h = inl h
from_db-cache true now who name s user e h = elim (Bool-cases (user == who)) [
  | inl same ↦ let is : user ≡ who = ground (arith, same) in inr (ground (arith, is, rw same at h))
  | inr other ↦ inl (rw other at h)
]

check-cache :
    (get_up set_up : Bool) (now who : ℕ) (name : String) (s : Access) (user : ℕ) (e : CacheEntry)
    → (has_permission_cached get_up set_up now who name s).1.cache user ≡ some e
    → (s.cache user ≡ some e) ⊎ Taken user e now s.db
unfolding has_permission_cached
check-cache false set_up now who name s user e h = from_db-cache set_up now who name s user e h
check-cache true set_up now who name s user e h =
    elim (Option-cases (get_entry now (s.cache who))) [
      | inl n ↦ from_db-cache set_up now who name s user e (rw (n, has_permission_cached) at h)
      | inr (x, f) ↦ inl (rw (f, has_permission_cached) at h)
    ]

entry-Taken :
    (run : List AccessStep) (s : Access) (user : ℕ) (e : CacheEntry)
    → (serve_all run s).cache user ≡ some e
    → (s.cache user ≡ some e) ⊎ ((t : ℕ) × ((d : RoleDb) × (Was t d run s × Taken user e t d)))
entry-Taken [] s user e h = inl h
entry-Taken (checks g u now who name ∷ rest) s user e h =
    elim (entry-Taken rest (serve (checks g u now who name) s) user e h) [
      | inl start ↦ elim (check-cache g u now who name s user e start) [
        | inl before ↦ inl before
        | inr taken ↦ inr (now, (s.db, (inl (refl, refl), taken)))
      ]
      | inr (t, (d, (was, taken))) ↦ inr (t, (d, (inr was, taken)))
    ]
entry-Taken (changes up c ∷ rest) s user e h =
    elim (entry-Taken rest (serve (changes up c) s) user e h) [
      | inl start ↦ inl (change-cache up c s user e start)
      | inr (t, (d, (was, taken))) ↦ inr (t, (d, (inr was, taken)))
    ]

-- With nothing cached at first, after any sequence of checks and changes of roles and permissions, and
-- whether Redis answers or not: a check answers what the tables grant now, or what they granted at an
-- earlier check less than ten minutes ago.
pub has_permission_cached-Recent :
    (run : List AccessStep) (get_up set_up : Bool) (now user : ℕ) (name : String) (s : Access)
    → ((u : ℕ) → s.cache u ≡ none)
    → let answer = (has_permission_cached get_up set_up now user name (serve_all run s)).0 in
      (answer ≡ holds name (permissions_of user (serve_all run s).db))
      ⊎ ((t : ℕ) × ((d : RoleDb) × (Was t d run s
              × ((now < t + cache_ttl) × (answer ≡ holds name (permissions_of user d))))))
unfolding has_permission_cached
has_permission_cached-Recent run false set_up now user name s empty = inl refl
has_permission_cached-Recent run true set_up now user name s empty =
    elim (Option-cases ((serve_all run s).cache user)) [
      | inl n ↦ inl (rw (n, has_permission_cached) refl)
      | inr (e, f) ↦ elim (Bool-cases (ltb now e.expires)) [
        | inr late ↦ inl (rw (f, has_permission_cached, late) refl)
        | inl soon ↦ elim (entry-Taken run s user e f) [
          | inl start ↦ absurd (ground (arith, start, empty user))
          | inr (t, (d, (was, (perms, expires)))) ↦ inr (
            t,
            (
              d,
              (
                was,
                (ground (arith, soon, expires), rw (f, has_permission_cached, soon, perms) refl),
              ),
            ),
          )
        ]
      ]
    ]
