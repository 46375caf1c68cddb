-- ===== src/Users/ActiveRole/Once.antt =====
-- The refresh token of a switch is spent.
use Prim.Native.String.{String}
use text.Mathlib.Text.{◌==◌ as str_eq}
use raycarwash_project.Base.{
  ℕ, ◌≡◌, refl, sym, subst, ap, inl, inr, Bool, true, false, List, [], ◌∷◌, arith, Bool-cases, any,
}
use raycarwash_project.Store.{http, Result, ok, err}
use raycarwash_project.Auth.Tokens.{
  RefreshToken, Account, AuthDb, AuthEnv, AccessToken, rotate_from, commit,
}
use raycarwash_project.Auth.Tokens.SingleUse.{
  Step, KeysUsed, Spent, run_steps, rotated-Spent, run_steps-Spent, rotate_from-Spent,
  Spent-row_fails,
}
use raycarwash_project.Users.ActiveRole.{
  SwitchDb, is_switchable, held_roles, switched, switch_from, transact,
}

-- A transaction on the tokens alone, or a switch.
pub data SwitchStep : Type 0 where
  on_tokens : Step → SwitchStep
  switches : AuthEnv → Account → String → RefreshToken → SwitchStep

abbrev pub run_switch : SwitchStep → SwitchDb → SwitchDb
run_switch (on_tokens step) s = record s { auth = run_steps (step ∷ []) s.auth }
run_switch (switches env user target row) s = (transact (switch_from env user target row s) s).1

abbrev pub run_switches : List SwitchStep → SwitchDb → SwitchDb
run_switches [] s = s
run_switches (a ∷ rest) s = run_switches rest (run_switch a s)

abbrev pub succeeds : {A : Type 0} → Result A → Bool
succeeds (ok a) = true
succeeds (err e) = false

switched-Spent :
    (i : ℕ) (user : Account) (target : String) (t : Result (AccessToken × ℕ) × AuthDb)
    (s : SwitchDb)
    → Spent i s.auth
    → Spent i t.1
    → Spent i (transact (switched user target t s) s).1.auth
switched-Spent i user target (err e, d) s h k = h
switched-Spent i user target (ok (access, refresh), d) s h k = k

switch_from-Spent :
    (i : ℕ) (env : AuthEnv) (user : Account) (target : String) (row : RefreshToken) (s : SwitchDb)
    → Spent i s.auth
    → Spent i (transact (switch_from env user target row s) s).1.auth
unfolding switch_from
switch_from-Spent i env user target row s h = elim (Bool-cases (is_switchable target)) [
  | inr e ↦ rw (e, switch_from, transact) h
  | inl e ↦ elim (Bool-cases (any (str_eq target) (held_roles user.id s.roles))) [
    | inr f ↦ rw (e, switch_from, f, transact) h
    | inl f ↦
        rw (e, switch_from, f)
          (switched-Spent i user target (rotate_from env row s.auth) s h
            (rotate_from-Spent i env row s.auth h))
  ]
]

run_switches-Spent :
    (i : ℕ) (steps : List SwitchStep) (s : SwitchDb)
    → Spent i s.auth
    → Spent i (run_switches steps s).auth
run_switches-Spent i [] s h = h
run_switches-Spent i (on_tokens step ∷ rest) s h =
    run_switches-Spent i rest _ (run_steps-Spent i (step ∷ []) s.auth h)
run_switches-Spent i (switches env user target row ∷ rest) s h =
    run_switches-Spent i rest _ (switch_from-Spent i env user target row s h)

-- A switch that succeeds has rotated.
after_switch :
    (env : AuthEnv) (user : Account) (target : String) (row : RefreshToken)
    (t : Result (AccessToken × ℕ) × AuthDb) (s s' : SwitchDb) (pair : AccessToken × ℕ)
    → KeysUsed s.auth
    → rotate_from env row s.auth ≡ t
    → switched user target t s ≡ (ok pair, s')
    → Spent row.id s'.auth
after_switch env user target row (err e, d) s s' pair keys r h = absurd (ground (arith, h))
after_switch env user target row (ok (access, refresh), d) s s' pair keys r h =
    subst (λ z. Spent row.id z.1.auth) h (rotated-Spent env row s.auth d (access, refresh) keys r)

switch_from-spends :
    (env : AuthEnv) (user : Account) (target : String) (row : RefreshToken) (s s' : SwitchDb)
    (pair : AccessToken × ℕ)
    → KeysUsed s.auth
    → switch_from env user target row s ≡ (ok pair, s')
    → Spent row.id s'.auth
unfolding switch_from
switch_from-spends env user target row s s' pair keys h = elim (Bool-cases (is_switchable target)) [
  | inr e ↦ absurd (ground (arith, rw (e, switch_from) at h))
  | inl e ↦ elim (Bool-cases (any (str_eq target) (held_roles user.id s.roles))) [
    | inr f ↦ absurd (ground (arith, rw (e, switch_from, f) at h))
    | inl f ↦
        after_switch env user target row (rotate_from env row s.auth) s s' pair keys refl
          (rw (e, switch_from, f) at h)
  ]
]

refused :
    (user : Account) (target : String) (t : Result (AccessToken × ℕ) × AuthDb) (s : SwitchDb)
    → (commit t s.auth).0 ≡ err (http 401)
    → (succeeds (transact (switched user target t s) s).0 ≡ false)
      × ((transact (switched user target t s) s).1 ≡ s)
refused user target (err e, d) s h = (refl, refl)
refused user target (ok p, d) s h = absurd (ground (arith, h))

Spent-switch_fails :
    (env : AuthEnv) (user : Account) (target : String) (row : RefreshToken) (s : SwitchDb)
    → Spent row.id s.auth
    → (succeeds (transact (switch_from env user target row s) s).0 ≡ false)
      × ((transact (switch_from env user target row s) s).1 ≡ s)
unfolding switch_from
Spent-switch_fails env user target row s h = elim (Bool-cases (is_switchable target)) [
  | inr e ↦ rw (e, switch_from, transact) (refl, refl)
  | inl e ↦ elim (Bool-cases (any (str_eq target) (held_roles user.id s.roles))) [
    | inr f ↦ rw (e, switch_from, f, transact) (refl, refl)
    | inl f ↦
        let lost : (commit (rotate_from env row s.auth) s.auth).0 ≡ err (http 401) =
          ap (λ z. z.0) (Spent-row_fails env row s.auth h) in
        rw (e, switch_from, f) (refused user target (rotate_from env row s.auth) s lost)
  ]
]

-- With all keys below the counter, a switch that succeeds spends its refresh token: after any sequence
-- of rotations, log-ins, log-outs from everywhere and switches of anyone, a switch with a row of the same
-- key, read at any time, fails and commits nothing, and so does a rotation, with 401.
pub switch_once :
    (env env' : AuthEnv) (user user' : Account) (target target' : String) (row row' : RefreshToken)
    (s s' : SwitchDb) (pair : AccessToken × ℕ) (steps : List SwitchStep)
    → KeysUsed s.auth
    → switch_from env user target row s ≡ (ok pair, s')
    → row'.id ≡ row.id
    → let later = run_switches steps s' in
      (succeeds (transact (switch_from env' user' target' row' later) later).0 ≡ false)
      × ((transact (switch_from env' user' target' row' later) later).1 ≡ later)
      × (commit (rotate_from env' row' later.auth) later.auth ≡ (err (http 401), later.auth))
switch_once env env' user user' target target' row row' s s' pair steps keys h same =
    let later = run_switches steps s' in
    let spent : Spent row'.id later.auth = run_switches-Spent row'.id steps s' (
      subst (λ i. Spent i s'.auth) (sym same)
        (switch_from-spends env user target row s s' pair keys h)) in
    let (fails, kept) = Spent-switch_fails env' user' target' row' later spent in
    (fails, kept, Spent-row_fails env' row' later.auth spent)
