-- ===== src/Users/Defaults/Settled.antt =====
-- Every user with an active row has exactly one default: what keeps it so.
use raycarwash_project.Base.{
  ℕ, ◌+◌, ◌≤◌, ◌<◌, ◌≡◌, refl, sym, subst, ◌⊎◌, inl, inr, Bool, true, false, ◌&&◌, some, List, [],
  ◌∷◌, ◌++◌, arith, ◌==◌, Bool-cases, All, count_where, find_where-true, update_where, eq_of_test,
}
use raycarwash_project.Users.Defaults.{
  Row, Table, active, default_of, wanted, get_by_id, clear_default, pivot_default,
}
use raycarwash_project.Users.Defaults.Counts.{
  one_if, find_where-IsIn, count_mono, IsIn-count, count-append_one, count-update_where,
}

module _ {A : Type 0} where
  -- One default, or nothing to choose from.
  abbrev pub Settled : ℕ → List (Row A) → Type 0
  Settled user rows =
      (count_where (default_of user) rows ≡ 1) ⊎ (count_where (active user) rows ≡ 0)

  abbrev pub Unique : List (Row A) → Type 0
  Unique rows = (i : ℕ) → count_where (λ r. r.id == i) rows ≤ 1

  abbrev pub IsSettled : Table A → Type 0
  IsSettled t =
      All (λ r. r.id < t.next_id) t.rows × Unique t.rows × ((user : ℕ) → Settled user t.rows)

  -- No deleted row is a default.
  abbrev pub Clean : List (Row A) → Type 0
  Clean rows = count_where (λ r. r.is_deleted && r.is_default) rows ≡ 0

  pub default-le :
      (user : ℕ) (rows : List (Row A))
      → count_where (default_of user) rows ≤ count_where (active user) rows
  default-le user rows = count_mono (default_of user) (active user) rows (λ r h. ground (arith, h))

  pub Unique-update_where :
      (q : Row A → Bool) (f : Row A → Row A) (rows : List (Row A))
      → ((r : Row A) → (f r).id ≡ r.id)
      → Unique rows
      → Unique (update_where q f rows)
  Unique-update_where q f rows same unique i =
      omega
        (arith, unique i, count-update_where (λ r. r.id == i) q f rows (λ r _. rw (same r) refl))

  pub wanted-le :
      (user id : ℕ) (rows : List (Row A)) → Unique rows → count_where (wanted user id) rows ≤ 1
  wanted-le user id rows unique = omega (
    arith,
    unique id,
    count_mono (wanted user id) (λ r. r.id == id) rows (λ r h. ground (arith, h)),
  )

  -- The pivot: of the user's rows the one with the key is the default.
  pub count-pivot_default :
      (user id : ℕ) (rows : List (Row A))
      → count_where (default_of user) (pivot_default user id rows)
        ≡ count_where (wanted user id) rows
  unfolding pivot_default
  count-pivot_default user id [] = refl
  count-pivot_default user id (r ∷ rows) = ground (arith, count-pivot_default user id rows)

  pub same_counts :
      (user : ℕ) (xs ys : List (Row A))
      → count_where (default_of user) xs ≡ count_where (default_of user) ys
      → count_where (active user) xs ≡ count_where (active user) ys
      → Settled user ys
      → Settled user xs
  same_counts user xs ys d a (inl one) = inl (omega (arith, d, one))
  same_counts user xs ys d a (inr none_left) = inr (omega (arith, a, none_left))

  -- An update of one user's rows does not concern another's.
  pub update_where-other :
      (user other : ℕ) (q : Row A → Bool) (f : Row A → Row A) (rows : List (Row A))
      → (other == user) ≡ false
      → ((r : Row A) → q r ≡ true → (r.user_id ≡ user) × ((f r).user_id ≡ user))
      → Settled other rows
      → Settled other (update_where q f rows)
  update_where-other user other q f rows e own h =
      same_counts other (update_where q f rows) rows
        (count-update_where (default_of other) q f rows (λ r t. ground (arith, e, own r t)))
        (count-update_where (active other) q f rows (λ r t. ground (arith, e, own r t))) h

  pub pivot_default-Settled :
      (user id other : ℕ) (rows : List (Row A)) (row : Row A)
      → get_by_id user id rows ≡ some row
      → Unique rows
      → Settled other rows
      → Settled other (pivot_default user id rows)
  unfolding pivot_default get_by_id
  pivot_default-Settled user id other rows row found unique h = elim (Bool-cases (other == user)) [
    | inl e ↦
        subst (λ v. Settled v (pivot_default user id rows)) (sym (eq_of_test other user e))
          (inl (
            omega (
              arith,
              count-pivot_default user id rows,
              wanted-le user id rows unique,
              IsIn-count (wanted user id) rows row (find_where-IsIn (wanted user id) rows row found)
                  (find_where-true (wanted user id) rows row found),
            )))
    | inr e ↦
        update_where-other user other (active user) (λ r. record r { is_default = r.id == id }) rows
          e (λ r t. ground (arith, t)) h
  ]

  pub count-clear_default :
      (user : ℕ) (rows : List (Row A)) → count_where (default_of user) (clear_default user rows) ≡ 0
  unfolding clear_default
  count-clear_default user [] = refl
  count-clear_default user (r ∷ rows) = ground (arith, count-clear_default user rows)

  pub active-clear_default :
      (user : ℕ) (rows : List (Row A))
      → count_where (active user) (clear_default user rows) ≡ count_where (active user) rows
  unfolding clear_default
  active-clear_default user rows =
      count-update_where (active user) (default_of user) (λ r. record r { is_default = false }) rows
        (λ r _. ground arith)

  pub clear_default-other :
      (user other : ℕ) (rows : List (Row A))
      → (other == user) ≡ false
      → Settled other rows
      → Settled other (clear_default user rows)
  unfolding clear_default
  clear_default-other user other rows e h =
      update_where-other user other (default_of user) (λ r. record r { is_default = false }) rows e
        (λ r t. ground (arith, t)) h

  pub append-Settled :
      (rows : List (Row A)) (r : Row A) (other : ℕ)
      → r.is_deleted ≡ false
      → count_where (default_of r.user_id) rows + one_if r.is_default ≡ 1
      → ((other == r.user_id) ≡ false → Settled other rows)
      → Settled other (rows ++ r ∷ [])
  append-Settled rows r other live one h = elim (Bool-cases (other == r.user_id)) [
    | inl e ↦
        subst (λ v. Settled v (rows ++ r ∷ [])) (sym (eq_of_test other r.user_id e))
          (inl (omega (arith, one, count-append_one (default_of r.user_id) rows r, own)))
    | inr e ↦
        same_counts other (rows ++ r ∷ []) rows
          (omega (arith, count-append_one (default_of other) rows r, foreign e))
          (omega (arith, count-append_one (active other) rows r, foreign_active e)) (h e)
  ]
    where
      own : one_if (default_of r.user_id r) ≡ one_if r.is_default
      own = ground (arith, live)

      foreign : (other == r.user_id) ≡ false → one_if (default_of other r) ≡ 0
      foreign e = ground (arith, e)

      foreign_active : (other == r.user_id) ≡ false → one_if (active other r) ≡ 0
      foreign_active e = ground (arith, e)
