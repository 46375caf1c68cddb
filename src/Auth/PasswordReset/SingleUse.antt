-- ===== src/Auth/PasswordReset/SingleUse.antt =====
-- A reset link is good once, and a new one ends the older ones.
use raycarwash_project.Base.{
  ℕ, ◌≤◌, ◌≡◌, refl, sym, subst, ◌⊎◌, inl, inr, Bool, true, false, not, ◌&&◌, some, List, [], ◌∷◌,
  ◌++◌, arith, ◌==◌, Bool-cases, Option-cases, All, All-append_one, All-map, any, map,
  count_where_none, count_where, find_where, update_where, find_where-All, find_where-true,
  All-update_where_if, same_codes,
}
use raycarwash_project.Catalog.{lower_code}
use raycarwash_project.Store.{http, ok, err}
use raycarwash_project.Auth.PasswordReset.{
  PasswordResetToken, ResetDb, is_account, usable, is_unused, unused_of, mark,
  invalidate_all_for_user, mark_used, is_consumable, has_token, create_password_reset_token,
  request_password_reset, consume, consume_from, set_password, confirm_password_reset,
}

-- Every row of a token is used.
abbrev Used : (ℕ → ℕ) → ℕ → ResetDb → Type 0
Used sha256 raw d = All (λ t. (has_token sha256 raw t && is_unused t.used_at) ≡ false) d.tokens

module _ {A : Type 0} where
  find-any : (p : A → Bool) (xs : List A) (x : A) → find_where p xs ≡ some x → any p xs ≡ true
  find-any p [] x e = absurd (ground (arith, e))
  find-any p (y ∷ ys) x e = ground (arith, find-any p ys x, e)

  any-append : (p : A → Bool) (xs : List A) (y : A) → any p xs ≡ true → any p (xs ++ y ∷ []) ≡ true
  any-append p [] y e = absurd (ground (arith, e))
  any-append p (x ∷ xs) y e = ground (arith, any-append p xs y, e)

pub data ResetRequest : Type 0 where
  requests : (now raw : ℕ) (email : List ℕ) → ResetRequest
  confirms : (now raw password : ℕ) → ResetRequest

module _ (sha256 : ℕ → ℕ) where
  abbrev pub serve : ResetRequest → ResetDb → ResetDb
  serve (requests now raw email) d = (request_password_reset sha256 now raw email d).1
  serve (confirms now raw password) d = (confirm_password_reset sha256 now raw password d).1

  abbrev pub serve_all : List ResetRequest → ResetDb → ResetDb
  serve_all [] d = d
  serve_all (r ∷ rs) d = serve_all rs (serve r d)

  -- How a confirmation ends: refused with nothing changed, or the token that was found is marked.
  abbrev Ends : ℕ → ℕ → ℕ → ResetDb → Type 0
  Ends now raw password d =
      (confirm_password_reset sha256 now raw password d ≡ (err (http 400), d))
      ⊎ ((t : PasswordResetToken) × ((find_where (has_token sha256 raw) d.tokens ≡ some t)
            × ((is_consumable now t ≡ true)
                × ((confirm_password_reset sha256 now raw password d).1.tokens
                    ≡ mark_used now t.id d.tokens))))

  confirm-Ends : (now raw password : ℕ) (d : ResetDb) → Ends now raw password d
  unfolding confirm_password_reset consume consume_from
  confirm-Ends now raw password d =
      elim (Option-cases (find_where (has_token sha256 raw) d.tokens)) [
        | inl e ↦ inl (rw (e, confirm_password_reset, consume) refl)
        | inr (t, e) ↦ elim (Bool-cases (is_consumable now t)) [
          | inr stale ↦ inl (rw (e, confirm_password_reset, consume, consume_from, stale) refl)
          | inl fine ↦ elim (Option-cases (find_where (is_account t.user_id) d.users)) [
            | inl n ↦
                inl (
                  rw (e, confirm_password_reset, consume, consume_from, fine, set_password, n) refl)
            | inr (u, f) ↦ elim (Bool-cases (usable u)) [
              | inl good ↦ inr (
                t,
                (
                  e,
                  (
                    fine,
                    rw
                        (
                          e, confirm_password_reset, consume, consume_from, fine, set_password, f,
                          good,
                        )
                        refl,
                  ),
                ),
              )
              | inr bad ↦ inl (
                  rw (e, confirm_password_reset, consume, consume_from, fine, set_password, f, bad)
                    refl)
            ]
          ]
        ]
      ]

  -- Both: there is such a row, and every such row is used.
  abbrev Spent : ℕ → ResetDb → Type 0
  Spent raw d = (any (has_token sha256 raw) d.tokens ≡ true) × Used sha256 raw d

  any-marked :
      (raw now : ℕ) (q : PasswordResetToken → Bool) (tokens : List PasswordResetToken)
      → any (has_token sha256 raw) (update_where q (mark now) tokens)
        ≡ any (has_token sha256 raw) tokens
  any-marked raw now q [] = refl
  any-marked raw now q (t ∷ ts) = elim (Bool-cases (q t)) [
    | inl e ↦ rw (e, any-marked raw now q ts) refl
    | inr e ↦ rw (e, any-marked raw now q ts) refl
  ]

  Used-marked :
      (raw now : ℕ) (q : PasswordResetToken → Bool) (d : ResetDb)
      → Used sha256 raw d
      → All
          (λ t. (has_token sha256 raw t && is_unused t.used_at) ≡ false)
          (update_where q (mark now) d.tokens)
  Used-marked raw now q d used =
      All-update_where_if _ q (mark now) d.tokens (λ x _ _. ground arith) used

  confirm-Spent :
      (now raw other password : ℕ) (d : ResetDb)
      → Spent raw d
      → Spent raw (confirm_password_reset sha256 now other password d).1
  unfolding mark_used
  confirm-Spent now raw other password d (there, used) = elim (confirm-Ends now other password d) [
    | inl e ↦ rw e (there, used)
    | inr (t, (e, (fine, eq))) ↦ rw eq (
      ground (arith, any-marked raw now (λ x. x.id == t.id) d.tokens, there),
      Used-marked raw now (λ x. x.id == t.id) d used,
    )
  ]

  create-Spent :
      (now raw other user : ℕ) (d : ResetDb)
      → Spent raw d
      → Spent raw (create_password_reset_token sha256 now other user d).1
  unfolding create_password_reset_token invalidate_all_for_user
  create-Spent now raw other user d (there, used) =
      let marked = any-marked raw now (unused_of user) d.tokens in
      elim (Bool-cases
        (any (has_token sha256 other) (update_where (unused_of user) (mark now) d.tokens))) [
          | inl taken ↦ rw (taken, create_password_reset_token) (there, used)
          | inr new ↦
              rw (new, create_password_reset_token)
                (
                  any-append (has_token sha256 raw)
                      (update_where (unused_of user) (mark now) d.tokens) _
                      (ground (arith, marked, there)),
                  All-append_one _ (update_where (unused_of user) (mark now) d.tokens) _
                      (Used-marked raw now (unused_of user) d used)
                      (differs (Bool-cases (sha256 other == sha256 raw)) new
                        (ground (arith, marked, there))),
                )
        ]
    where
      differs :
          ((sha256 other == sha256 raw) ≡ true) ⊎ ((sha256 other == sha256 raw) ≡ false)
          → any (has_token sha256 other) (update_where (unused_of user) (mark now) d.tokens) ≡ false
          → any (has_token sha256 raw) (update_where (unused_of user) (mark now) d.tokens) ≡ true
          → ((sha256 other == sha256 raw) && true) ≡ false
      differs (inr e) new known = rw e refl
      differs (inl e) new known =
          let same : sha256 other ≡ sha256 raw = ground (arith, e) in
          let again : any (has_token sha256 other)
                (update_where (unused_of user) (mark now) d.tokens)
              ≡ true =
            subst
              (λ h.
                any (λ (t : PasswordResetToken). t.token_hash == h)
                  (update_where (unused_of user) (mark now) d.tokens)
                ≡ true)
              (sym same) known in
          absurd (ground (arith, new, again))

  serve-Spent : (raw : ℕ) (r : ResetRequest) (d : ResetDb) → Spent raw d → Spent raw (serve r d)
  unfolding request_password_reset
  serve-Spent raw (requests now other email) d spent =
      elim (Option-cases
        (find_where (λ u. same_codes u.email (map lower_code email) && not u.is_deleted) d.users)) [
          | inl e ↦ rw (e, serve, request_password_reset) spent
          | inr (u, e) ↦ elim (Bool-cases u.is_active) [
            | inl on ↦
                rw (e, serve, request_password_reset, on) (create-Spent now raw other u.id d spent)
            | inr off ↦ rw (e, serve, request_password_reset, off) spent
          ]
        ]
  serve-Spent raw (confirms now other password) d spent =
      confirm-Spent now raw other password d spent

  serve_all-Spent :
      (raw : ℕ) (rs : List ResetRequest) (d : ResetDb) → Spent raw d → Spent raw (serve_all rs d)
  serve_all-Spent raw [] d spent = spent
  serve_all-Spent raw (r ∷ rs) d spent =
      serve_all-Spent raw rs (serve r d) (serve-Spent raw r d spent)

  Spent-refused :
      (now raw password : ℕ) (d : ResetDb)
      → Spent raw d
      → confirm_password_reset sha256 now raw password d ≡ (err (http 400), d)
  Spent-refused now raw password d (there, used) = elim (confirm-Ends now raw password d) [
    | inl e ↦ e
    | inr (t, (e, (fine, eq))) ↦
        let kept =
          find_where-All (has_token sha256 raw)
            (λ x. (has_token sha256 raw x && is_unused x.used_at) ≡ false) d.tokens t used e in
        let own = find_where-true (has_token sha256 raw) d.tokens t e in
        absurd (ground (arith, kept, own, fine))
  ]

  -- The one row of the token is marked.
  found-marked :
      (raw now : ℕ) (tokens : List PasswordResetToken) (t : PasswordResetToken)
      → find_where (has_token sha256 raw) tokens ≡ some t
      → count_where (has_token sha256 raw) tokens ≤ 1
      → All
          (λ x. (has_token sha256 raw x && is_unused x.used_at) ≡ false)
          (update_where (λ x. x.id == t.id) (mark now) tokens)
  found-marked raw now [] t e one = absurd (ground (arith, e))
  found-marked raw now (x ∷ xs) t e one = elim (Bool-cases (has_token sha256 raw x)) [
    | inl here ↦ (
      ground (arith, here, e),
      All-update_where_if _ (λ y. y.id == t.id) (mark now) xs (λ y _ _. ground arith)
          (All-map (λ y. has_token sha256 raw y ≡ false)
            (λ y. (has_token sha256 raw y && is_unused y.used_at) ≡ false) xs
            (λ y n. ground (arith, n))
            (count_where_none (has_token sha256 raw) xs (ground (arith, one, here)))),
    )
    | inr other ↦
        (ground (arith, other), found-marked raw now xs t (rw other at e) (rw other at one))
  ]

  confirmed :
      (now raw password : ℕ) (d : ResetDb)
      → count_where (has_token sha256 raw) d.tokens ≤ 1
      → (confirm_password_reset sha256 now raw password d).0 ≡ ok tt
      → Ends now raw password d
      → Spent raw (confirm_password_reset sha256 now raw password d).1
  unfolding mark_used
  confirmed now raw password d one done (inl e) = absurd (ground (arith, rw e at done))
  confirmed now raw password d one done (inr (t, (e, (fine, eq)))) = rw eq (
    ground (
      arith,
      any-marked raw now (λ x. x.id == t.id) d.tokens,
      find-any (has_token sha256 raw) d.tokens t e,
    ),
    found-marked raw now d.tokens t e one,
  )

  -- Where no two rows have the token's hash: once a link has reset a password, it is answered with 400
  -- and nothing changes, after any further requests and confirmations.
  pub confirm_password_reset_once :
      (now later raw password other : ℕ) (rs : List ResetRequest) (d : ResetDb)
      → count_where (has_token sha256 raw) d.tokens ≤ 1
      → (confirm_password_reset sha256 now raw password d).0 ≡ ok tt
      → confirm_password_reset sha256 later raw other
          (serve_all rs (confirm_password_reset sha256 now raw password d).1)
        ≡ (err (http 400), serve_all rs (confirm_password_reset sha256 now raw password d).1)
  confirm_password_reset_once now later raw password other rs d one done =
      Spent-refused later raw other
        (serve_all rs (confirm_password_reset sha256 now raw password d).1)
        (serve_all-Spent raw rs (confirm_password_reset sha256 now raw password d).1
          (confirmed now raw password d one done (confirm-Ends now raw password d)))
