-- ===== src/Users/Defaults.antt =====
-- The queries that backend/domains/users/address_repository.py and payment_method_repository.py have
-- in common: rows of a user that are soft-deleted and of which one is the default. `content` is the
-- rest of a row. An UPDATE is one step; the partial unique index on the default is not modelled.
pub mod Counts
pub mod Settled
pub mod Deletion
pub mod Insertion
use raycarwash_project.Base.{
  ℕ, suc, Bool, true, false, not, ◌&&◌, ◌||◌, Option, none, some, List, [], ◌∷◌, ◌++◌, ◌==◌, leb,
  if◌then◌else◌, count_where, find_where, select_where, update_where, length,
}

pub record Row (A : Type 0) : Type 0 where
  pub id : ℕ
  pub user_id : ℕ
  pub is_default : Bool
  pub is_deleted : Bool
  pub deleted_at : Option ℕ
  pub created_at : ℕ
  pub content : A

pub record Table (A : Type 0) : Type 0 where
  pub next_id : ℕ
  pub rows : List (Row A)

module _ {A : Type 0} where
  abbrev pub active : ℕ → Row A → Bool
  active user r = r.user_id == user && not r.is_deleted

  abbrev pub default_of : ℕ → Row A → Bool
  default_of user r = active user r && r.is_default

  abbrev pub wanted : ℕ → ℕ → Row A → Bool
  wanted user id r = r.id == id && active user r

  unfoldable pub get_by_id : ℕ → ℕ → List (Row A) → Option (Row A)
  get_by_id user id rows = find_where (wanted user id) rows

  -- `len` of list_active
  unfoldable pub count_active : ℕ → List (Row A) → ℕ
  count_active user rows = count_where (active user) rows

  abbrev pub earlier : Row A → Option (Row A) → Row A
  earlier r none = r
  earlier r (some q) = if leb r.created_at q.created_at then r else q

  -- ORDER BY created_at ASC LIMIT 1
  abbrev pub earliest : List (Row A) → Option (Row A)
  earliest [] = none
  earliest (r ∷ rs) = some (earlier r (earliest rs))

  unfoldable pub first_active : ℕ → ℕ → List (Row A) → Option (Row A)
  first_active user exclude_id rows =
      earliest (select_where (λ r. active user r && not (r.id == exclude_id)) rows)

  abbrev pub removed : ℕ → Row A → Row A
  removed now r = record r { is_deleted = true; deleted_at = some now; is_default = false }

  unfoldable pub soft_delete : ℕ → ℕ → ℕ → List (Row A) → List (Row A)
  soft_delete user id now rows = update_where (wanted user id) (removed now) rows

  unfoldable pub clear_default : ℕ → List (Row A) → List (Row A)
  clear_default user rows =
      update_where (default_of user) (λ r. record r { is_default = false }) rows

  -- the one UPDATE of set_default_atomic
  unfoldable pub pivot_default : ℕ → ℕ → List (Row A) → List (Row A)
  pivot_default user id rows =
      update_where (active user) (λ r. record r { is_default = r.id == id }) rows

  -- `replacement.is_default = True`, if there is one
  abbrev pub promote : Option (Row A) → List (Row A) → List (Row A)
  promote none rows = rows
  promote (some q) rows =
      update_where (λ r. r.id == q.id) (λ r. record r { is_default = true }) rows

  -- what both services do on a deletion
  unfoldable pub delete_row : ℕ → Row A → ℕ → List (Row A) → List (Row A)
  delete_row user row now rows =
      let rest = soft_delete user row.id now rows in
      if row.is_default then promote (first_active user row.id rest) rest else rest

  abbrev pub new_row : ℕ → ℕ → ℕ → Bool → A → Row A
  new_row id user now is_default content = record {
    id = id;
    user_id = user;
    is_default = is_default;
    is_deleted = false;
    deleted_at = none;
    created_at = now;
    content = content;
  }

  abbrev pub add : Row A → Table A → Table A
  add r t = record { next_id = suc t.next_id; rows = t.rows ++ (r ∷ []) }

  -- the choice of a new row's default: asked for, or the first
  abbrev pub make_room : Bool → ℕ → List (Row A) → List (Row A)
  make_room true user rows = clear_default user rows
  make_room false user rows = rows

  unfoldable pub insert_row : ℕ → ℕ → Bool → A → Table A → Table A
  insert_row now user asked content t =
      let rows = make_room asked user t.rows in
      let make_default = asked || (count_active user rows == 0) in
      add (new_row t.next_id user now make_default content) (record t { rows = rows })
