-- ===== src/Users/Defaults/Insertion.antt =====
-- A new row: the default when it is asked for or the first; and the keys of the rows.
use raycarwash_project.Base.{
  ℕ, suc, ◌+◌, ◌<◌, ◌≡◌, refl, inl, inr, Bool, true, false, ◌||◌, Option, none, some, List, [], ◌∷◌,
  ◌++◌, arith, ◌==◌, Bool-cases, All, All-map, All-append_one, All-update_where, All-count_none,
  count_where, eq_test_false, eq_of_test,
}
use raycarwash_project.Users.Defaults.{
  Row, Table, active, default_of, wanted, count_active, clear_default, pivot_default, delete_row,
  soft_delete, promote, first_active, removed, make_room, insert_row,
}
use raycarwash_project.Users.Defaults.Counts.{one_if, one_if-le, count-append_one}
use raycarwash_project.Users.Defaults.Settled.{
  Settled, Unique, IsSettled, default-le, Unique-update_where, count-clear_default,
  clear_default-other, append-Settled,
}

module _ {A : Type 0} where
  -- Rows below the counter stay so when no key changes.
  abbrev pub Below : ℕ → List (Row A) → Type 0
  Below n rows = All (λ r. r.id < n) rows

  pub pivot_default-Below :
      (user id n : ℕ) (rows : List (Row A)) → Below n rows → Below n (pivot_default user id rows)
  unfolding pivot_default
  pivot_default-Below user id n rows h =
      All-update_where (λ r. r.id < n) (active user) (λ r. record r { is_default = r.id == id })
        rows (λ r k. k) h

  pub pivot_default-Unique :
      (user id : ℕ) (rows : List (Row A)) → Unique rows → Unique (pivot_default user id rows)
  unfolding pivot_default
  pivot_default-Unique user id rows h =
      Unique-update_where (active user) (λ r. record r { is_default = r.id == id }) rows (λ _. refl)
        h

  promote-Below :
      (o : Option (Row A)) (n : ℕ) (rows : List (Row A)) → Below n rows → Below n (promote o rows)
  promote-Below none n rows h = h
  promote-Below (some q) n rows h =
      All-update_where (λ r. r.id < n) (λ r. r.id == q.id) (λ r. record r { is_default = true })
        rows (λ r k. k) h

  pub delete_row-Below :
      (user now n : ℕ) (row : Row A) (rows : List (Row A))
      → Below n rows
      → Below n (delete_row user row now rows)
  unfolding delete_row soft_delete
  delete_row-Below user now n row rows h =
      let rest =
        All-update_where (λ r. r.id < n) (wanted user row.id) (removed now) rows (λ r k. k) h in
      elim (Bool-cases row.is_default) [
        | inl e ↦
            rw (e, delete_row)
              (promote-Below (first_active user row.id (soft_delete user row.id now rows)) n
                (soft_delete user row.id now rows) rest)
        | inr e ↦ rw (e, delete_row) rest
      ]

  -- No default of the user beside a new row that is one; the one default beside a new row that is not.
  cleared-count :
      (asked : Bool) (user : ℕ) (rows : List (Row A))
      → Settled user rows
      → count_where (default_of user) (make_room asked user rows)
          + one_if (asked || count_active user (make_room asked user rows) == 0)
        ≡ 1
  unfolding count_active
  cleared-count true user rows h = omega (arith, count-clear_default user rows)
  cleared-count false user rows (inl one) =
      let some_left : (count_where (active user) rows == 0) ≡ false =
        eq_test_false (count_where (active user) rows) 0
          (λ z. absurd (omega (arith, one, z, default-le user rows))) in
      rw some_left (omega (arith, one))
  cleared-count false user rows (inr none_left) =
      rw none_left (omega (arith, none_left, default-le user rows))

  cleared-other :
      (asked : Bool) (user other : ℕ) (rows : List (Row A))
      → (other == user) ≡ false
      → Settled other rows
      → Settled other (make_room asked user rows)
  cleared-other true user other rows e h = clear_default-other user other rows e h
  cleared-other false user other rows e h = h

  pub append-Unique :
      (n : ℕ) (rows : List (Row A)) (r : Row A)
      → r.id ≡ n
      → Below n rows
      → Unique rows
      → Unique (rows ++ r ∷ [])
  append-Unique n rows r same below unique i = elim (Bool-cases (r.id == i)) [
    | inl e ↦
        omega (arith, count-append_one (λ x. x.id == i) rows r, fresh e, one_if-le (r.id == i))
    | inr e ↦
        let z : one_if (r.id == i) ≡ 0 = rw e refl in
        omega (arith, count-append_one (λ x. x.id == i) rows r, z, unique i)
  ]
    where
      fresh : (r.id == i) ≡ true → count_where (λ x. x.id == i) rows ≡ 0
      fresh e =
          All-count_none (λ x. x.id == i) rows
            (All-map (λ x. x.id < n) (λ x. (x.id == i) ≡ false) rows
              (λ x lt.
                eq_test_false x.id i
                  (λ k. absurd (omega (arith, lt, k, same, eq_of_test r.id i e))))
              below)

  make_room-Below :
      (asked : Bool) (user n : ℕ) (rows : List (Row A))
      → Below n rows
      → Below n (make_room asked user rows)
  unfolding clear_default
  make_room-Below true user n rows h =
      All-update_where (λ r. r.id < n) (default_of user) (λ r. record r { is_default = false }) rows
        (λ r k. k) h
  make_room-Below false user n rows h = h

  make_room-Unique :
      (asked : Bool) (user : ℕ) (rows : List (Row A))
      → Unique rows
      → Unique (make_room asked user rows)
  unfolding clear_default
  make_room-Unique true user rows h =
      Unique-update_where (default_of user) (λ r. record r { is_default = false }) rows (λ _. refl)
        h
  make_room-Unique false user rows h = h

  pub insert_row-IsSettled :
      (now user : ℕ) (asked : Bool) (content : A) (t : Table A)
      → IsSettled t
      → IsSettled (insert_row now user asked content t)
  unfolding insert_row
  insert_row-IsSettled now user asked content t (below, unique, settled) = (
    All-append_one (λ r. r.id < suc t.next_id) rows _
        (All-map (λ r. r.id < t.next_id) (λ r. r.id < suc t.next_id) rows
          (λ r lt. omega (arith, lt)) low)
        (omega arith),
    append-Unique t.next_id rows _ refl low (make_room-Unique asked user t.rows unique),
    λ other.
        append-Settled rows _ other refl (cleared-count asked user t.rows (settled user))
          (λ e. cleared-other asked user other t.rows e (settled other)),
  )
    where
      rows : List (Row A)
      rows = make_room asked user t.rows

      low : Below t.next_id rows
      low = make_room-Below asked user t.next_id t.rows below
