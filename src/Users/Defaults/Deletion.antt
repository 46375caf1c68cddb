-- ===== src/Users/Defaults/Deletion.antt =====
-- A deletion promotes the oldest row that is left, when it takes the default away.
use raycarwash_project.Base.{
  ℕ, ◌+◌, ◌≡◌, refl, sym, ◌∙◌, All-trivial, subst, ◌⊎◌, inl, inr, Bool, true, false, not, ◌&&◌,
  Option, none, some, List, [], ◌∷◌, arith, leb, ◌==◌, Bool-cases, Option-cases, count_where,
  select_where, eq_of_test,
}
use raycarwash_project.Users.Defaults.{
  Row, active, default_of, wanted, earliest, first_active, removed, soft_delete, promote,
  delete_row,
}
use raycarwash_project.Users.Defaults.Counts.{
  one_if, IsIn, IsIn-count, count-update_one, count-update_where, count-update-le,
}
use raycarwash_project.Users.Defaults.Settled.{
  Settled, Clean, Unique, Unique-update_where, wanted-le, same_counts, update_where-other,
}

module _ {A : Type 0} where
  earliest-none : (rows : List (Row A)) → earliest rows ≡ none → rows ≡ []
  earliest-none [] h = refl
  earliest-none (r ∷ rows) h = absurd (ground (arith, h))

  earliest-IsIn : (rows : List (Row A)) (r : Row A) → earliest rows ≡ some r → IsIn r rows
  earliest-IsIn [] r h = absurd (ground (arith, h))
  earliest-IsIn (q ∷ rows) r h = elim (Option-cases (earliest rows)) [
    | inl n ↦ inl (ground (arith, rw n at h))
    | inr (p, e) ↦ elim (Bool-cases (leb q.created_at p.created_at)) [
      | inl t ↦ inl (ground (arith, rw (e, t) at h))
      | inr f ↦ inr (earliest-IsIn rows r (ground (arith, e, rw (e, f) at h)))
    ]
  ]

  select_where-IsIn :
      (p : Row A → Bool) (rows : List (Row A)) (r : Row A)
      → IsIn r (select_where p rows)
      → IsIn r rows × (p r ≡ true)
  select_where-IsIn p [] r at = absurd at
  select_where-IsIn p (q ∷ rows) r at = elim (Bool-cases (p q)) [
    | inl e ↦ here_or (select_where-IsIn p rows r) e (rw e at at)
    | inr e ↦ let (here, t) = select_where-IsIn p rows r (rw e at at) in (inr here, t)
  ]
    where
      here_or :
          (IsIn r (select_where p rows) → IsIn r rows × (p r ≡ true))
          → p q ≡ true
          → (r ≡ q) ⊎ IsIn r (select_where p rows)
          → ((r ≡ q) ⊎ IsIn r rows) × (p r ≡ true)
      here_or rest e (inl same) = (inl same, subst (λ z. p z ≡ true) (sym same) e)
      here_or rest e (inr further) = let (here, t) = rest further in (inr here, t)

  select_where-count :
      (p : Row A → Bool) (rows : List (Row A)) → select_where p rows ≡ [] → count_where p rows ≡ 0
  select_where-count p [] h = refl
  select_where-count p (q ∷ rows) h = elim (Bool-cases (p q)) [
    | inl e ↦ absurd (ground (arith, rw e at h))
    | inr e ↦ rw e (select_where-count p rows (rw e at h))
  ]

  first_active-IsIn :
      (user id : ℕ) (rows : List (Row A)) (r : Row A)
      → first_active user id rows ≡ some r
      → IsIn r rows × (active user r ≡ true)
  unfolding first_active
  first_active-IsIn user id rows r h =
      let (here, t) =
        select_where-IsIn (λ q. active user q && not (q.id == id)) rows r
          (earliest-IsIn (select_where (λ q. active user q && not (q.id == id)) rows) r h) in
      (here, ground (arith, t))

  first_active-none :
      (user id : ℕ) (rows : List (Row A))
      → first_active user id rows ≡ none
      → count_where (λ r. active user r && not (r.id == id)) rows ≡ 0
  unfolding first_active
  first_active-none user id rows h =
      select_where-count (λ r. active user r && not (r.id == id)) rows
        (earliest-none (select_where (λ r. active user r && not (r.id == id)) rows) h)

  -- Without the row of one key, the active rows are those with another key.
  others_only :
      (user id : ℕ) (rows : List (Row A))
      → count_where (wanted user id) rows ≡ 0
      → count_where (λ r. active user r && not (r.id == id)) rows ≡ 0
      → count_where (active user) rows ≡ 0
  others_only user id [] h k = refl
  others_only user id (r ∷ rows) h k = ground (arith, others_only user id rows, h, k)

  zero_if :
      (p : Row A → Bool) (rows : List (Row A)) (r : Row A)
      → IsIn r rows
      → count_where p rows ≡ 0
      → one_if (p r) ≡ 0
  zero_if p rows r here h = elim (Bool-cases (p r)) [
    | inl e ↦ absurd (omega (arith, h, IsIn-count p rows r here e))
    | inr e ↦ rw e refl
  ]

  module _ (user now : ℕ) (row : Row A) (rows : List (Row A)) (at : IsIn row rows)
      (mine : active user row ≡ true) (unique : Unique rows) where
    soft_delete-count :
        (p : Row A → Bool)
        → count_where p (soft_delete user row.id now rows) + one_if (p row)
          ≡ count_where p rows + one_if (p (removed now row))
    unfolding soft_delete
    soft_delete-count p =
        count-update_one p (wanted user row.id) (removed now) rows row at (ground (arith, mine))
          (wanted-le user row.id rows unique)

    pub soft_delete-Unique : Unique (soft_delete user row.id now rows)
    unfolding soft_delete
    soft_delete-Unique =
        Unique-update_where (wanted user row.id) (removed now) rows (λ _. refl) unique

    -- The row was the user's one default: its place is empty.
    no_default :
        row.is_default ≡ true
        → Settled user rows
        → count_where (default_of user) (soft_delete user row.id now rows) ≡ 0
    no_default was (inl one) =
        let own : one_if (default_of user row) ≡ 1 = ground (arith, mine, was) in
        let after : one_if (default_of user (removed now row)) ≡ 0 = ground arith in
        omega (arith, soft_delete-count (default_of user), own, after, one)
    no_default was (inr empty) =
        absurd (omega (arith, empty, IsIn-count (active user) rows row at mine))

    gone : count_where (wanted user row.id) (soft_delete user row.id now rows) ≡ 0
    gone =
        let own : one_if (wanted user row.id row) ≡ 1 = ground (arith, mine) in
        let after : one_if (wanted user row.id (removed now row)) ≡ 0 = ground arith in
        omega (
          arith,
          soft_delete-count (wanted user row.id),
          own,
          after,
          wanted-le user row.id rows unique,
        )

    promote-Settled :
        (o : Option (Row A))
        → first_active user row.id (soft_delete user row.id now rows) ≡ o
        → count_where (default_of user) (soft_delete user row.id now rows) ≡ 0
        → Settled user (promote o (soft_delete user row.id now rows))
    promote-Settled none e empty = inr (
        others_only user row.id (soft_delete user row.id now rows) gone
          (first_active-none user row.id (soft_delete user row.id now rows) e))
    promote-Settled (some q) e empty =
        let (here, live) = first_active-IsIn user row.id (soft_delete user row.id now rows) q e in
        let changed =
          count-update_one (default_of user) (λ r. r.id == q.id)
            (λ r. record r { is_default = true }) (soft_delete user row.id now rows) q here
            (ground arith) (soft_delete-Unique q.id) in
        let after : one_if (default_of user (record q { is_default = true })) ≡ 1 =
          ground (arith, live) in
        let before = zero_if (default_of user) (soft_delete user row.id now rows) q here empty in
        inl (omega (arith, changed, after, before, empty))

    -- Another user's rows are counted as before.
    pub promote-counts :
        (other : ℕ) (o : Option (Row A))
        → first_active user row.id (soft_delete user row.id now rows) ≡ o
        → (other == user) ≡ false
        → (count_where (default_of other) (promote o (soft_delete user row.id now rows))
            ≡ count_where (default_of other) (soft_delete user row.id now rows))
          × (count_where (active other) (promote o (soft_delete user row.id now rows))
              ≡ count_where (active other) (soft_delete user row.id now rows))
    promote-counts other none e f = (refl, refl)
    promote-counts other (some q) e f =
        let rest : List (Row A) = soft_delete user row.id now rows in
        let (here, live) = first_active-IsIn user row.id rest q e in
        let changed = λ (p : Row A → Bool).
          count-update_one p (λ r. r.id == q.id) (λ r. record r { is_default = true }) rest q here
            (ground arith) (soft_delete-Unique q.id) in
        let d : one_if (default_of other q) ≡ 0 = ground (arith, live, f) in
        let d' : one_if (default_of other (record q { is_default = true })) ≡ 0 =
          ground (arith, live, f) in
        let a : one_if (active other (record q { is_default = true })) ≡ one_if (active other q) =
          refl in
        (omega (arith, changed (default_of other), d, d'), omega (arith, changed (active other), a))

    promote-Clean :
        (o : Option (Row A))
        → first_active user row.id (soft_delete user row.id now rows) ≡ o
        → Clean (soft_delete user row.id now rows)
        → Clean (promote o (soft_delete user row.id now rows))
    promote-Clean none e h = h
    promote-Clean (some q) e h =
        let rest : List (Row A) = soft_delete user row.id now rows in
        let (here, live) = first_active-IsIn user row.id rest q e in
        let dead : Row A → Bool = λ r. r.is_deleted && r.is_default in
        let after : one_if (dead (record q { is_default = true })) ≡ 0 = ground (arith, live) in
        omega (
          arith,
          h,
          after,
          count-update_one dead (λ r. r.id == q.id) (λ r. record r { is_default = true }) rest q
              here (ground arith) (soft_delete-Unique q.id),
        )

    promote-other :
        (other : ℕ) (o : Option (Row A))
        → first_active user row.id (soft_delete user row.id now rows) ≡ o
        → (other == user) ≡ false
        → Settled other (soft_delete user row.id now rows)
        → Settled other (promote o (soft_delete user row.id now rows))
    promote-other other o e f h =
        let (d, a) = promote-counts other o e f in
        same_counts other (promote o (soft_delete user row.id now rows))
          (soft_delete user row.id now rows) d a h

    soft_delete-other :
        (other : ℕ)
        → (other == user) ≡ false
        → Settled other rows
        → Settled other (soft_delete user row.id now rows)
    unfolding soft_delete
    soft_delete-other other f h =
        update_where-other user other (wanted user row.id) (removed now) rows f
          (λ r t. ground (arith, t)) h

    -- The row was not the default: the default is still there.
    soft_delete-Settled :
        row.is_default ≡ false → Settled user rows → Settled user (soft_delete user row.id now rows)
    soft_delete-Settled was (inl one) =
        let d : one_if (default_of user row) ≡ 0 = ground (arith, was) in
        let d' : one_if (default_of user (removed now row)) ≡ 0 = ground arith in
        inl (omega (arith, soft_delete-count (default_of user), d, d', one))
    soft_delete-Settled was (inr empty) =
        absurd (omega (arith, empty, IsIn-count (active user) rows row at mine))

    pub delete_row-Settled :
        (other : ℕ)
        → Settled user rows
        → Settled other rows
        → Settled other (delete_row user row now rows)
    unfolding delete_row
    delete_row-Settled other own h = elim (Bool-cases row.is_default) [
      | inl was ↦ elim (Bool-cases (other == user)) [
        | inl e ↦
            rw (was, delete_row, eq_of_test other user e)
              (promote-Settled _ refl (no_default was own))
        | inr f ↦ rw (was, delete_row) (promote-other other _ refl f (soft_delete-other other f h))
      ]
      | inr was ↦ elim (Bool-cases (other == user)) [
        | inl e ↦ rw (was, delete_row, eq_of_test other user e) (soft_delete-Settled was own)
        | inr f ↦ rw (was, delete_row) (soft_delete-other other f h)
      ]
    ]

    pub delete_row-count :
        (other : ℕ)
        → (other == user) ≡ false
        → count_where (default_of other) (delete_row user row now rows)
          ≡ count_where (default_of other) rows
    unfolding delete_row soft_delete
    delete_row-count other f =
        let soft : count_where (default_of other) (soft_delete user row.id now rows)
            ≡ count_where (default_of other) rows =
          count-update_where (default_of other) (wanted user row.id) (removed now) rows
            (λ r t. ground (arith, t, f)) in
        elim (Bool-cases row.is_default) [
          | inl was ↦ rw (was, delete_row) ((promote-counts other _ refl f).0 ∙ soft)
          | inr was ↦ rw (was, delete_row) soft
        ]

    -- No deleted row is a default, if none was.
    pub delete_row-Clean : Clean rows → Clean (delete_row user row now rows)
    unfolding delete_row soft_delete
    delete_row-Clean clean =
        let soft : Clean (soft_delete user row.id now rows) = omega (
          arith,
          clean,
          count-update-le (λ _. Unit {0}) (λ r. r.is_deleted && r.is_default) (wanted user row.id)
              (removed now) rows (λ r _ _ k. absurd (ground (arith, k))) (All-trivial rows),
        ) in
        elim (Bool-cases row.is_default) [
          | inl was ↦ rw (was, delete_row) (promote-Clean _ refl soft)
          | inr was ↦ rw (was, delete_row) soft
        ]

    promote-Unique : (o : Option (Row A)) → Unique (promote o (soft_delete user row.id now rows))
    promote-Unique none = soft_delete-Unique
    promote-Unique (some q) =
        Unique-update_where (λ r. r.id == q.id) (λ r. record r { is_default = true })
          (soft_delete user row.id now rows) (λ _. refl) soft_delete-Unique

    pub delete_row-Unique : Unique (delete_row user row now rows)
    unfolding delete_row
    delete_row-Unique = elim (Bool-cases row.is_default) [
      | inl was ↦ rw (was, delete_row) (promote-Unique _)
      | inr was ↦ rw (was, delete_row) soft_delete-Unique
    ]
