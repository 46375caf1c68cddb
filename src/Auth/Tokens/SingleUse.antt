-- ===== src/Auth/Tokens/SingleUse.antt =====
-- A refresh token buys one pair of tokens, in whatever order the transactions of its holders run; and
-- what is left of the response to its reuse.
use raycarwash_project.Base.{
  ℕ, ◌≤◌, ◌<◌, ◌≡◌, refl, sym, subst, ◌==◌, ltb, Bool, true, false, some, List, [], ◌∷◌, All,
  All-append_one, All-update_where, All-count_none, update_where, any, arith, Bool-cases,
  Option-cases, ltb→lt, inl, inr, if◌then◌else◌,
}
use raycarwash_project.Auth.Tokens.{
  RefreshToken, Account, AuthDb, AuthEnv, AccessToken, is_spent, claimable, mark_used_atomic,
  get_by_raw, get_account, revoke_family, revoke_all_for_user, create_refresh_token,
  update_last_active, get_by_family, issue_pair, after_claim, rotate_from, rotate_refresh_token,
  commit,
}
use raycarwash_project.Store.{http, Result, ok, err}

-- Keys are below the counter.
abbrev pub KeysUsed : AuthDb → Type 0
KeysUsed d = All (λ (t : RefreshToken). t.id < d.next_id) d.tokens

-- No row with the key can be claimed any more, and no new row will have it.
abbrev pub Spent : ℕ → AuthDb → Type 0
Spent i d = (i < d.next_id) × All (λ t. claimable i t ≡ false) d.tokens

-- A transaction on the tokens, as the others see it once it is over.
pub data Step : Type 0 where
  rotate : AuthEnv → RefreshToken → Step
  log_in : AuthEnv → ℕ → ℕ → Step
  log_out_everywhere : ℕ → Step

unfoldable pub run_step : Step → AuthDb → AuthDb
run_step (rotate env row) d = (commit (rotate_from env row d) d).1
run_step (log_in env user_id family_id) d =
    (commit (create_refresh_token env user_id family_id d) d).1
run_step (log_out_everywhere user_id) d = revoke_all_for_user user_id d

unfoldable pub run_steps : List Step → AuthDb → AuthDb
run_steps [] d = d
run_steps (s ∷ rest) d = run_steps rest (run_step s d)

revoked_stays :
    (i : ℕ) (t : RefreshToken)
    → claimable i t ≡ false
    → claimable i (record t { revoked = true }) ≡ false
revoked_stays i t h = ground arith

used_stays :
    (i n : ℕ) (t : RefreshToken)
    → claimable i t ≡ false
    → claimable i (record t { used_at = some n }) ≡ false
used_stays i n t h = ground arith

create_refresh_token-Spent :
    (i : ℕ) (env : AuthEnv) (user_id family_id : ℕ) (d : AuthDb)
    → Spent i d
    → Spent i (create_refresh_token env user_id family_id d).1
unfolding create_refresh_token
create_refresh_token-Spent i env user_id family_id d h =
    elim (Bool-cases (
      any (λ (t : RefreshToken). t.token_hash == env.sha256 (env.token_urlsafe d.next_id))
        d.tokens)) [
          | inl e ↦ rw e h
          | inr e ↦ rw e (omega (arith, h.0), All-append_one _ d.tokens _ h.1 (ground (arith, h.0)))
        ]

revoke_family-Spent : (i f : ℕ) (d : AuthDb) → Spent i d → Spent i (revoke_family f d)
unfolding revoke_family
revoke_family-Spent i f d h = (h.0, All-update_where _ _ _ d.tokens (revoked_stays i) h.1)

revoke_all_for_user-Spent : (i u : ℕ) (d : AuthDb) → Spent i d → Spent i (revoke_all_for_user u d)
unfolding revoke_all_for_user
revoke_all_for_user-Spent i u d h = (h.0, All-update_where _ _ _ d.tokens (revoked_stays i) h.1)

mark_used_atomic-Spent :
    (i : ℕ) (env : AuthEnv) (j : ℕ) (d : AuthDb) → Spent i d → Spent i (mark_used_atomic env j d).1
unfolding mark_used_atomic
mark_used_atomic-Spent i env j d h =
    (h.0, All-update_where _ _ _ d.tokens (used_stays i env.now) h.1)

issue_pair-Spent :
    (i : ℕ) (env : AuthEnv) (row : RefreshToken) (user : Account) (d : AuthDb)
    → Spent i d
    → Spent i (issue_pair env row user d).1
unfolding issue_pair update_last_active
issue_pair-Spent i env row user d h = elim (Option-cases (get_by_family row.family_id d)) [
  | inl e ↦ rw e (create_refresh_token-Spent i env user.id row.family_id d h)
  | inr (s, e) ↦
      rw e
        (create_refresh_token-Spent i env user.id row.family_id (update_last_active env s.id d) h)
]

after_claim-Spent :
    (i : ℕ) (env : AuthEnv) (row : RefreshToken) (claimed : Bool) (d : AuthDb)
    → Spent i d
    → Spent i (after_claim env row claimed d).1
unfolding after_claim
after_claim-Spent i env row false d h = revoke_family-Spent i row.family_id d h
after_claim-Spent i env row true d h = elim (Option-cases (get_account row.user_id d)) [
  | inl e ↦ rw (after_claim, e) h
  | inr (user, e) ↦
      rw (after_claim, e)
        (elim (Bool-cases user.is_active) [
          | inl on ↦
              subst (λ b. Spent i (answer user b).1) (sym on) (issue_pair-Spent i env row user d h)
          | inr off ↦ subst (λ b. Spent i (answer user b).1) (sym off) h
        ])
]
  where
    answer : Account → Bool → Result (AccessToken × ℕ) × AuthDb
    answer user b = if b then issue_pair env row user d else (err (http 401), d)

pub rotate_from-Spent :
    (i : ℕ) (env : AuthEnv) (row : RefreshToken) (d : AuthDb)
    → Spent i d
    → Spent i (rotate_from env row d).1
unfolding rotate_from
rotate_from-Spent i env row d h = elim (Bool-cases (is_spent row)) [
  | inl e ↦ rw e (revoke_family-Spent i row.family_id d h)
  | inr e ↦ rw e (elim (Bool-cases (ltb row.expires_at env.now)) [
    | inl late ↦ rw late h
    | inr live ↦ rw live (
        after_claim-Spent i env row (mark_used_atomic env row.id d).0
          (mark_used_atomic env row.id d).1 (mark_used_atomic-Spent i env row.id d h))
  ])
]

pub commit-Spent :
    {A : Type 0} (i : ℕ) (r : Result A × AuthDb) (d : AuthDb)
    → Spent i d
    → Spent i r.1
    → Spent i (commit r d).1
commit-Spent i (ok a, d') d h k = k
commit-Spent i (err e, d') d h k = h

pub run_steps-Spent :
    (i : ℕ) (steps : List Step) (d : AuthDb) → Spent i d → Spent i (run_steps steps d)
unfolding run_steps run_step
run_steps-Spent i [] d h = h
run_steps-Spent i (rotate env row ∷ rest) d h =
    run_steps-Spent i rest _
      (commit-Spent i (rotate_from env row d) d h (rotate_from-Spent i env row d h))
run_steps-Spent i (log_in env u f ∷ rest) d h =
    run_steps-Spent i rest _ (
      commit-Spent i (create_refresh_token env u f d) d h
        (create_refresh_token-Spent i env u f d h))
run_steps-Spent i (log_out_everywhere u ∷ rest) d h =
    run_steps-Spent i rest _ (revoke_all_for_user-Spent i u d h)

-- A row that cannot be claimed is answered with 401, and nothing of the transaction is committed.
pub Spent-row_fails :
    (env : AuthEnv) (row : RefreshToken) (d : AuthDb)
    → Spent row.id d
    → commit (rotate_from env row d) d ≡ (err (http 401), d)
unfolding rotate_from mark_used_atomic after_claim
Spent-row_fails env row d h = ground (arith, All-count_none (claimable row.id) d.tokens h.1)

stamped-Spent :
    (i n : ℕ) (xs : List RefreshToken)
    → All
        (λ t. claimable i t ≡ false)
        (update_where (claimable i) (λ (t : RefreshToken). record t { used_at = some n }) xs)
stamped-Spent i n [] = tt
stamped-Spent i n (x ∷ xs) = elim (Bool-cases (claimable i x)) [
  | inl e ↦ rw e (ground arith, stamped-Spent i n xs)
  | inr e ↦ rw e (e, stamped-Spent i n xs)
]

unknown_key :
    (i n : ℕ) (xs : List RefreshToken)
    → All (λ (t : RefreshToken). t.id < n) xs
    → n ≤ i
    → All (λ t. claimable i t ≡ false) xs
unknown_key i n [] h k = tt
unknown_key i n (x ∷ xs) h k = (ground (arith, h.0, k), unknown_key i n xs h.1 k)

claimed-Spent :
    (env : AuthEnv) (i : ℕ) (d : AuthDb)
    → KeysUsed d
    → (mark_used_atomic env i d).0 ≡ true
    → Spent i (mark_used_atomic env i d).1
unfolding mark_used_atomic
claimed-Spent env i d keys h = (
  elim (Bool-cases (ltb i d.next_id)) [
    | inl e ↦ ltb→lt i d.next_id e
    | inr e ↦ absurd (
        ground (
          arith,
          h,
          All-count_none (claimable i) d.tokens
              (unknown_key i d.next_id d.tokens keys (ground (arith, e))),
        ))
  ],
  stamped-Spent i env.now d.tokens,
)

not_claimed :
    (env : AuthEnv) (row : RefreshToken) (b : Bool) (d d' : AuthDb) (pair : AccessToken × ℕ)
    → b ≡ false
    → after_claim env row b d ≡ (ok pair, d')
    → ⊥
unfolding after_claim
not_claimed env row true d d' pair e h = absurd (ground (arith, e))
not_claimed env row false d d' pair e h = absurd (ground (arith, h))

-- A rotation that succeeds leaves its row spent.
pub rotated-Spent :
    (env : AuthEnv) (row : RefreshToken) (d d' : AuthDb) (pair : AccessToken × ℕ)
    → KeysUsed d
    → rotate_from env row d ≡ (ok pair, d')
    → Spent row.id d'
unfolding rotate_from
rotated-Spent env row d d' pair keys h = elim (Bool-cases (is_spent row)) [
  | inl e ↦ absurd (ground (arith, rw e at h))
  | inr e ↦ elim (Bool-cases (ltb row.expires_at env.now)) [
    | inl late ↦ absurd (ground (arith, rw late at (rw e at h)))
    | inr live ↦ elim (Bool-cases (mark_used_atomic env row.id d).0) [
      | inl won ↦
          subst (λ r. Spent row.id r.1) (rw live at (rw e at h))
            (after_claim-Spent row.id env row (mark_used_atomic env row.id d).0
              (mark_used_atomic env row.id d).1 (claimed-Spent env row.id d keys won))
      | inr lost ↦ absurd (not_claimed env row _ _ d' pair lost (rw live at (rw e at h)))
    ]
  ]
]

-- The reuse of a token whose row is used or revoked is answered with 401, and the revocation of its
-- family does not outlive the request: the tables are what they were.
pub commit-rotate_refresh_token :
    (env : AuthEnv) (raw : ℕ) (row : RefreshToken) (d : AuthDb)
    → get_by_raw env raw d ≡ some row
    → is_spent row ≡ true
    → (rotate_refresh_token env raw d ≡ (err (http 401), revoke_family row.family_id d))
      × (commit (rotate_refresh_token env raw d) d ≡ (err (http 401), d))
unfolding rotate_refresh_token rotate_from
commit-rotate_refresh_token env raw row d found spent =
    rw (rotate_refresh_token, found, rotate_from, spent) (refl, refl)
