-- ===== src/Users/ContactChange/SingleUse.antt =====
-- The link of a change of address works once.
use raycarwash_project.Base.{
  ℕ, ◌≤◌, ◌≡◌, refl, sym, ap, inl, inr, Bool, not, ◌&&◌, none, some, List, [], ◌∷◌, arith, ◌==◌,
  ltb, Bool-cases, Option-cases, any, count_where, find_where, find_where-true, same_codes,
}
use raycarwash_project.Store.{ok, err, http}
use raycarwash_project.Users.Defaults.Counts.{one_if, find_where-IsIn, count-update_one}
use raycarwash_project.Users.ContactChange.{
  PendingContactChange, ContactDb, for_token, consume, confirm_row, confirm_email_change,
}

count-find_where :
    (p : PendingContactChange → Bool) (rows : List PendingContactChange)
    → count_where p rows ≡ 0
    → find_where p rows ≡ none
count-find_where p [] h = refl
count-find_where p (r ∷ rows) h = elim (Bool-cases (p r)) [
  | inl e ↦ absurd (omega (arith, rw e at h))
  | inr e ↦ rw e (count-find_where p rows (rw e at h))
]

module _ (sha256 : ℕ → ℕ) where
  confirm_row-pending :
      (now user : ℕ) (row : PendingContactChange) (d d' : ContactDb)
      → confirm_row sha256 now (some row) d ≡ (ok user, d')
      → d'.pending ≡ consume row.id now d.pending
  confirm_row-pending now user row d d' h = elim (Bool-cases (ltb row.expires_at now)) [
    | inl x ↦ absurd (ground (arith, rw x at h))
    | inr x ↦ elim (Bool-cases (any (λ u. u.id == row.user_id && not u.is_deleted) d.users)) [
      | inr y ↦ absurd (ground (arith, rw (x, y) at h))
      | inl y ↦
          elim (Bool-cases (
            any (λ u. not (u.id == row.user_id) && same_codes u.email_address row.new_value)
              d.users)) [
                | inl z ↦ absurd (ground (arith, rw (x, y, z) at h))
                | inr z ↦ ap (λ p. p.1.pending) (sym (rw (x, y, z) at h))
              ]
    ]
  ]

  -- After the row is consumed, no row answers to the token.
  consumed :
      (token now : ℕ) (row : PendingContactChange) (rows : List PendingContactChange)
      → find_where (for_token sha256 token) rows ≡ some row
      → count_where (for_token sha256 token) rows ≤ 1
      → count_where (λ r. r.id == row.id) rows ≤ 1
      → find_where (for_token sha256 token) (consume row.id now rows) ≡ none
  consumed token now row rows found one unique =
      let hit = find_where-true (for_token sha256 token) rows row found in
      let here = find_where-IsIn (for_token sha256 token) rows row found in
      let changed =
        count-update_one (for_token sha256 token) (λ r. r.id == row.id)
          (λ r. record r { consumed_at = some now }) rows row here (ground arith) unique in
      let before : one_if (for_token sha256 token row) ≡ 1 = rw hit refl in
      let after : one_if (for_token sha256 token (record row { consumed_at = some now })) ≡ 0 =
        ground arith in
      count-find_where (for_token sha256 token) (consume row.id now rows)
        (omega (arith, changed, before, after, one))

  -- When keys are distinct and no other link in flight has the token's hash: once a confirmation of a
  -- change of address has succeeded, the same link is answered with 410 and changes nothing.
  pub confirm_email_change_once :
      (token now later user : ℕ) (d d' : ContactDb)
      → ((i : ℕ) → count_where (λ r. r.id == i) d.pending ≤ 1)
      → count_where (for_token sha256 token) d.pending ≤ 1
      → confirm_email_change sha256 token now d ≡ (ok user, d')
      → confirm_email_change sha256 token later d' ≡ (err (http 410), d')
  unfolding confirm_email_change
  confirm_email_change_once token now later user d d' unique one h =
      elim (Option-cases (find_where (for_token sha256 token) d.pending)) [
        | inl n ↦ absurd (ground (arith, rw (n, confirm_email_change) at h))
        | inr (row, e) ↦
            let moved = confirm_row-pending now user row d d' (rw (e, confirm_email_change) at h) in
            let gone : find_where (for_token sha256 token) d'.pending ≡ none =
              rw moved (consumed token now row d.pending e one (unique row.id)) in
            rw (gone, confirm_email_change) refl
      ]
