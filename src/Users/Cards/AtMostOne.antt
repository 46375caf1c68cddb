-- ===== src/Users/Cards/AtMostOne.antt =====
-- Sequences of requests and webhooks on the cards: a user has at most one default.
use raycarwash_project.Base.{
  ℕ, suc, ◌+◌, ◌≤◌, ◌<◌, ◌≡◌, refl, sym, subst, inl, inr, Bool, true, false, ◌&&◌, ◌⊎◌, some, List,
  [], ◌∷◌, arith, ◌==◌, Bool-cases, Option-cases, All-map, All-append_one, All-trivial,
  All-update_where, count_where, count_where_none, find_where-true, update_where, eq_of_test,
}
use raycarwash_project.Users.Defaults.{
  Row, Table, active, default_of, wanted, get_by_id, count_active, pivot_default, delete_row,
  soft_delete, insert_row, new_row, removed,
}
use raycarwash_project.Users.Defaults.Counts.{
  one_if, IsIn, find_where-IsIn, IsIn-count, count-update_where, count-update-le, count-append_one,
}
use raycarwash_project.Users.Defaults.Settled.{
  Settled, Clean, Unique, default-le, Unique-update_where, wanted-le, count-pivot_default,
}
use raycarwash_project.Users.Defaults.Deletion.{
  delete_row-Settled, delete_row-Unique, delete_row-count, delete_row-Clean,
}
use raycarwash_project.Users.Defaults.Insertion.{
  Below, pivot_default-Below, pivot_default-Unique, delete_row-Below, append-Unique,
}
use raycarwash_project.Users.Cards.{
  PaymentMethod, PaymentMethodSnapshot, Wallet, set_default, delete, refreshed, attached,
  get_by_stripe_id, upsert_from_snapshot, mark_detached_by_stripe_id,
}

module _ {A : Type 0} where
  -- Distinct keys below the counter, no deleted default, and no user with two defaults.
  abbrev pub AtMostOne : Table A → Type 0
  AtMostOne t =
      Below t.next_id t.rows
      × Unique t.rows
      × Clean t.rows
      × ((user : ℕ) → count_where (default_of user) t.rows ≤ 1)

  -- An update that keeps the keys and makes no row a default.
  update_where-AtMostOne :
      (n : ℕ) (q : Row A → Bool) (f : Row A → Row A) (rows : List (Row A))
      → ((r : Row A) → (f r).id ≡ r.id)
      → ((r : Row A)
          → (r.is_deleted && r.is_default) ≡ false
          → ((f r).is_deleted && (f r).is_default) ≡ false)
      → ((user : ℕ) (r : Row A)
          → (r.is_deleted && r.is_default) ≡ false
          → default_of user (f r) ≡ true
          → default_of user r ≡ true)
      → AtMostOne (record { next_id = n; rows = rows })
      → AtMostOne (record { next_id = n; rows = update_where q f rows })
  update_where-AtMostOne n q f rows same clean fewer (below, unique, none_dead, one) =
      let live = count_where_none (λ r. r.is_deleted && r.is_default) rows none_dead in
      (
        All-update_where (λ r. r.id < n) q f rows (λ r k. rw (same r) k) below,
        Unique-update_where q f rows same unique,
        omega (
          arith,
          none_dead,
          count-update-le (λ r. (r.is_deleted && r.is_default) ≡ false)
              (λ r. r.is_deleted && r.is_default) q f rows
              (λ r c _ k. absurd (ground (arith, clean r c, k))) live,
        ),
        λ user. omega (
          arith,
          one user,
          count-update-le (λ r. (r.is_deleted && r.is_default) ≡ false) (default_of user) q f rows
              (λ r c _ k. fewer user r c k) live,
        ),
      )

  pivot-AtMostOne :
      (n user id : ℕ) (rows : List (Row A))
      → AtMostOne (record { next_id = n; rows = rows })
      → AtMostOne (record { next_id = n; rows = pivot_default user id rows })
  unfolding pivot_default
  pivot-AtMostOne n user id rows (below, unique, none_dead, one) = (
    pivot_default-Below user id n rows below,
    pivot_default-Unique user id rows unique,
    omega (
      arith,
      none_dead,
      count-update-le (λ _. Unit {0}) (λ r. r.is_deleted && r.is_default) (active user)
          (λ r. record r { is_default = r.id == id }) rows
          (λ r _ live k. absurd (ground (arith, live, k))) (All-trivial rows),
    ),
    λ other. elim (Bool-cases (other == user)) [
      | inl e ↦
          subst (λ v. count_where (default_of v) (pivot_default user id rows) ≤ 1)
            (sym (eq_of_test other user e))
            (omega (arith, count-pivot_default user id rows, wanted-le user id rows unique))
      | inr e ↦ omega (
        arith,
        one other,
        count-update_where (default_of other) (active user)
            (λ r. record r { is_default = r.id == id }) rows (λ r t. ground (arith, t, e)),
      )
    ],
  )

  delete_row-AtMostOne :
      (n user now : ℕ) (row : Row A) (rows : List (Row A))
      → get_by_id user row.id rows ≡ some row
      → AtMostOne (record { next_id = n; rows = rows })
      → AtMostOne (record { next_id = n; rows = delete_row user row now rows })
  unfolding get_by_id delete_row soft_delete
  delete_row-AtMostOne n user now row rows found (below, unique, none_dead, one) = (
    delete_row-Below user now n row rows below,
    delete_row-Unique user now row rows at mine unique,
    delete_row-Clean user now row rows at mine unique none_dead,
    λ other. elim (Bool-cases (other == user)) [
      | inl e ↦
          subst (λ v. count_where (default_of v) (delete_row user row now rows) ≤ 1)
            (sym (eq_of_test other user e)) (own (Bool-cases row.is_default))
      | inr e ↦ omega (arith, one other, delete_row-count user now row rows at mine unique other e)
    ],
  )
    where
      at : IsIn row rows
      at = find_where-IsIn (wanted user row.id) rows row found

      mine : active user row ≡ true
      mine = ground (arith, find_where-true (wanted user row.id) rows row found)

      settled_le :
          Settled user (delete_row user row now rows)
          → count_where (default_of user) (delete_row user row now rows) ≤ 1
      settled_le (inl e) = omega (arith, e)
      settled_le (inr e) = omega (arith, e, default-le user (delete_row user row now rows))

      own :
          (row.is_default ≡ true) ⊎ (row.is_default ≡ false)
          → count_where (default_of user) (delete_row user row now rows) ≤ 1
      own (inl was) = settled_le (
          delete_row-Settled user now row rows at mine unique user
            (inl (
              omega (
                arith,
                one user,
                IsIn-count (default_of user) rows row at (ground (arith, mine, was)),
              )))
            (inl (
              omega (
                arith,
                one user,
                IsIn-count (default_of user) rows row at (ground (arith, mine, was)),
              ))))
      own (inr was) =
          rw (was, delete_row)
            (omega (
              arith,
              one user,
              count-update-le (λ _. Unit {0}) (default_of user) (wanted user row.id) (removed now)
                  rows (λ r _ _ k. absurd (ground (arith, k))) (All-trivial rows),
            ))

  insert_row-AtMostOne :
      (now user : ℕ) (content : A) (t : Table A)
      → AtMostOne t
      → AtMostOne (insert_row now user false content t)
  unfolding insert_row count_active
  insert_row-AtMostOne now user content t (below, unique, none_dead, one) = (
    All-append_one (λ r. r.id < suc t.next_id) t.rows row
        (All-map (λ r. r.id < t.next_id) (λ r. r.id < suc t.next_id) t.rows
          (λ r lt. omega (arith, lt)) below)
        (omega arith),
    append-Unique t.next_id t.rows row refl below unique,
    omega (arith, none_dead, count-append_one (λ r. r.is_deleted && r.is_default) t.rows row),
    λ other. omega (arith, count-append_one (default_of other) t.rows row, fits other),
  )
    where
      row : Row A
      row = new_row t.next_id user now (count_where (active user) t.rows == 0) content

      only : (other : ℕ) → default_of other row ≡ true → count_where (default_of other) t.rows ≡ 0
      only other e =
          let same : other ≡ user = ground (arith, e) in
          let empty : count_where (active user) t.rows ≡ 0 = ground (arith, e) in
          rw same (omega (arith, empty, default-le user t.rows))

      fits : (other : ℕ) → count_where (default_of other) t.rows + one_if (default_of other row) ≤ 1
      fits other = elim (Bool-cases (default_of other row)) [
        | inl e ↦ rw e (omega (arith, only other e))
        | inr e ↦ rw e (omega (arith, one other))
      ]

pub data CardRequest : Type 0 where
  chooses : (user id : ℕ) → CardRequest
  deletes : (now user id : ℕ) → CardRequest
  attaches : (now user : ℕ) → PaymentMethodSnapshot → CardRequest
  detaches : (now pm : ℕ) → CardRequest

-- The wallet after a request or a webhook.
abbrev pub serve : CardRequest → Wallet → Wallet
serve (chooses user id) w = (set_default user id w).1
serve (deletes now user id) w = (delete now user id w).1
serve (attaches now user snapshot) w = upsert_from_snapshot now user snapshot w
serve (detaches now pm) w = (mark_detached_by_stripe_id now pm w).1

abbrev pub serve_all : List CardRequest → Wallet → Wallet
serve_all [] w = w
serve_all (r ∷ rs) w = serve_all rs (serve r w)

found_own :
    (user id : ℕ) (rows : List PaymentMethod) (row : PaymentMethod)
    → get_by_id user id rows ≡ some row
    → get_by_id user row.id rows ≡ some row
unfolding get_by_id
found_own user id rows row found =
    let t = find_where-true (wanted user id) rows row found in
    let same : row.id ≡ id = ground (arith, t) in
    subst (λ i. get_by_id user i rows ≡ some row) (sym same) found

pub upsert_from_snapshot-AtMostOne :
    (now user : ℕ) (snapshot : PaymentMethodSnapshot) (w : Wallet)
    → AtMostOne w.table
    → AtMostOne (upsert_from_snapshot now user snapshot w).table
unfolding upsert_from_snapshot
upsert_from_snapshot-AtMostOne now user snapshot w h =
    elim (Option-cases (get_by_stripe_id snapshot.stripe_payment_method_id w.table.rows)) [
      | inl n ↦ rw (n, upsert_from_snapshot) (insert_row-AtMostOne now user snapshot w.table h)
      | inr (row, e) ↦
          rw (e, upsert_from_snapshot)
            (update_where-AtMostOne w.table.next_id (λ r. r.id == row.id) (refreshed snapshot)
              w.table.rows (λ r. ground arith) (λ r c. ground (arith, c))
              (λ v r c k. ground (arith, c, k)) h)
    ]

pub mark_detached-AtMostOne :
    (now pm : ℕ) (w : Wallet)
    → AtMostOne w.table
    → AtMostOne (mark_detached_by_stripe_id now pm w).1.table
unfolding mark_detached_by_stripe_id
mark_detached-AtMostOne now pm w h =
    elim (Bool-cases (count_where (attached pm) w.table.rows == 0)) [
      | inl e ↦ rw (e, mark_detached_by_stripe_id) h
      | inr e ↦
          rw (e, mark_detached_by_stripe_id)
            (update_where-AtMostOne w.table.next_id (attached pm) (removed now) w.table.rows
              (λ r. refl) (λ r c. refl) (λ v r c k. absurd (ground (arith, k))) h)
    ]

serve-AtMostOne : (r : CardRequest) (w : Wallet) → AtMostOne w.table → AtMostOne (serve r w).table
unfolding set_default delete
serve-AtMostOne (chooses user id) w h = elim (Option-cases (get_by_id user id w.table.rows)) [
  | inl n ↦ rw (n, set_default, serve) h
  | inr (row, e) ↦
      rw (e, set_default, serve) (pivot-AtMostOne w.table.next_id user id w.table.rows h)
]
serve-AtMostOne (deletes now user id) w h = elim (Option-cases (get_by_id user id w.table.rows)) [
  | inl n ↦ rw (n, delete, serve) h
  | inr (row, e) ↦
      rw (e, delete, serve)
        (delete_row-AtMostOne w.table.next_id user now row w.table.rows
          (found_own user id w.table.rows row e) h)
]
serve-AtMostOne (attaches now user snapshot) w h =
    upsert_from_snapshot-AtMostOne now user snapshot w h
serve-AtMostOne (detaches now pm) w h = mark_detached-AtMostOne now pm w h

-- With distinct keys below the counter and no deleted default: if no user has two default cards,
-- none has after any sequence of choices, deletions and webhooks that attach, update or detach a
-- card, whether they succeed or fail.
pub serve_all-AtMostOne :
    (rs : List CardRequest) (w : Wallet) → AtMostOne w.table → AtMostOne (serve_all rs w).table
serve_all-AtMostOne [] w h = h
serve_all-AtMostOne (r ∷ rs) w h = serve_all-AtMostOne rs (serve r w) (serve-AtMostOne r w h)
