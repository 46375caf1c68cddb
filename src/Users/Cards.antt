-- ===== src/Users/Cards.antt =====
-- PaymentMethodService of backend/domains/users/payment_method_service.py over payment_methods, with
-- _snapshot_from_stripe of backend/infrastructure/payments/stripe_test.py. An identifier of Stripe is a
-- number. A card's row is its snapshot with the columns of Users/Defaults. The adapter's answer to a
-- detach is only logged.
pub mod AtMostOne
mod Tests
use Prim.Native.String.{String}
use text.Mathlib.Text.{◌==◌ as str_eq}
use raycarwash_project.Base.{
  ℕ, Bool, true, false, Option, none, some, List, [], ◌∷◌, ◌++◌, ◌==◌, leb, not, ◌&&◌,
  if◌then◌else◌, count_where, find_where, update_where,
}
use raycarwash_project.Store.{Error, http, Result, ok, err}
use raycarwash_project.Users.Defaults.{
  Row, Table, active, removed, get_by_id, count_active, pivot_default, delete_row, insert_row,
}

pub record PaymentMethodSnapshot : Type 0 where
  pub stripe_payment_method_id : ℕ
  pub card_type : String
  pub brand : Option String
  pub last4 : Option String
  pub exp_month : Option ℕ
  pub exp_year : Option ℕ
  pub billing_zip : Option String

-- a PaymentMethod of Stripe's SDK
pub record StripeCard : Type 0 where
  pub brand : Option String
  pub last4 : Option String
  pub exp_month : Option ℕ
  pub exp_year : Option ℕ

pub record StripePaymentMethod : Type 0 where
  pub id : ℕ
  pub method_type : Option String
  pub card : Option StripeCard
  pub postal_code : Option String

abbrev pub no_card : StripeCard
no_card = record { brand = none; last4 = none; exp_month = none; exp_year = none }

-- `pm.get("card") or {}`
abbrev pub card_or_empty : Option StripeCard → StripeCard
card_or_empty none = no_card
card_or_empty (some c) = c

-- `_g(pm, "type", "card") or "card"`
abbrev pub type_or_card : Option String → String
type_or_card none = "card"
type_or_card (some t) = if str_eq t "" then "card" else t

abbrev pub snapshot_from_stripe : StripePaymentMethod → PaymentMethodSnapshot
snapshot_from_stripe pm =
    let card = card_or_empty pm.card in
    record {
      stripe_payment_method_id = pm.id;
      card_type = type_or_card pm.method_type;
      brand = card.brand;
      last4 = card.last4;
      exp_month = card.exp_month;
      exp_year = card.exp_year;
      billing_zip = pm.postal_code;
    }

-- the action, the key of the row or of Stripe, and the actor
pub data CardAudit : Type 0 where
  card_added : ℕ → ℕ → (is_default : Bool) → CardAudit
  default_chosen : ℕ → ℕ → CardAudit
  card_removed : ℕ → ℕ → (was_default : Bool) → CardAudit
  card_detached : ℕ → CardAudit

abbrev pub PaymentMethod : Type 0
PaymentMethod = Row PaymentMethodSnapshot

pub record Wallet : Type 0 where
  pub table : Table PaymentMethodSnapshot
  pub audit : List CardAudit

abbrev pub with_rows : List PaymentMethod → CardAudit → Wallet → Wallet
with_rows rows entry w = record w {
  table = record w.table { rows = rows };
  audit = w.audit ++ (entry ∷ []);
}

unfoldable pub set_default : ℕ → ℕ → Wallet → Result (Unit {0}) × Wallet
set_default user id w = elim (get_by_id user id w.table.rows) [
  | none ↦ (err (http 404), w)
  | some _ ↦ (ok tt, with_rows (pivot_default user id w.table.rows) (default_chosen id user) w)
]

unfoldable pub delete : ℕ → ℕ → ℕ → Wallet → Result (Unit {0}) × Wallet
delete now user id w = elim (get_by_id user id w.table.rows) [
  | none ↦ (err (http 404), w)
  | some row ↦ (
    ok tt,
    with_rows (delete_row user row now w.table.rows) (card_removed id user row.is_default) w,
  )
]

abbrev pub has_stripe_id : ℕ → PaymentMethod → Bool
has_stripe_id pm r = r.content.stripe_payment_method_id == pm

-- deleted rows as well
unfoldable pub get_by_stripe_id : ℕ → List PaymentMethod → Option PaymentMethod
get_by_stripe_id pm rows = find_where (has_stripe_id pm) rows

-- the columns of the snapshot, and the revival of a deleted row
abbrev pub refreshed : PaymentMethodSnapshot → PaymentMethod → PaymentMethod
refreshed snapshot r =
    if r.is_deleted
    then record r { content = snapshot; is_deleted = false; deleted_at = none }
    else record r { content = snapshot }

unfoldable pub upsert_from_snapshot : ℕ → ℕ → PaymentMethodSnapshot → Wallet → Wallet
upsert_from_snapshot now user snapshot w =
    elim (get_by_stripe_id snapshot.stripe_payment_method_id w.table.rows) [
      | some row ↦ record w {
        table = record w.table {
          rows = update_where (λ r. r.id == row.id) (refreshed snapshot) w.table.rows;
        };
      }
      | none ↦ record w {
        table = insert_row now user false snapshot w.table;
        audit =
            w.audit ++ (card_added w.table.next_id user (count_active user w.table.rows == 0) ∷ []);
      }
    ]

abbrev pub attached : ℕ → PaymentMethod → Bool
attached pm r = has_stripe_id pm r && not r.is_deleted

-- soft_delete_by_stripe_id: whether a row was changed, and the rows
unfoldable pub mark_detached_by_stripe_id : ℕ → ℕ → Wallet → Bool × Wallet
mark_detached_by_stripe_id now pm w =
    if count_where (attached pm) w.table.rows == 0 then (false, w) else (
      true,
      with_rows (update_where (attached pm) (removed now) w.table.rows) (card_detached pm) w,
    )
