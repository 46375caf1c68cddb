-- ===== src/Admin/Refunds.antt =====
-- refund_appointment, reassign_appointment and force_appointment_status of
-- backend/domains/admin/repository.py with their endpoints in backend/domains/admin/router.py, over the
-- tables of Store. Refund requests are validated before (amount_cents is positive). A reason that Stripe
-- does not know is replaced, and the note is not modelled. A status that no booking can have is not.
mod Cap
mod Tests
use Prim.Native.String.{String}
use text.Mathlib.Text.{◌==◌ as str_eq}
use raycarwash_project.Base.{
  ℕ, ◌+◌, Bool, true, false, not, ◌&&◌, ◌||◌, Option, none, some, List, [], ◌∷◌, ◌++◌, ◌==◌, ltb,
  if◌then◌else◌, sum_by, any, find_where, update_where,
}
use raycarwash_project.Appointments.Status.{
  Status, status_eq, pending, confirmed, searching, no_detailer_found,
}
use raycarwash_project.Store.{Appointment, Db, World, Env, Error, http, Result, ok, err}
use raycarwash_project.Rides.{scalar_one_or_none}
use raycarwash_project.Payments.Intents.{get_by_id, save, truthy, create_refund}

pub data RefundStatus : Type 0 where
  pending_refund succeeded failed : RefundStatus

pub record Refund : Type 0 where
  pub appointment_id : ℕ
  pub stripe_refund_id : Option String
  pub amount_cents : ℕ
  pub status : RefundStatus
  pub created_by_user_id : ℕ

-- the action with its actor and the booking
pub data AdminAudit : Type 0 where
  appointment_refunded : ℕ → ℕ → ℕ → AdminAudit
  appointment_reassigned : ℕ → ℕ → Option ℕ → ℕ → AdminAudit
  status_forced : ℕ → ℕ → Status → AdminAudit

-- a ProviderProfile's application
pub record Application : Type 0 where
  pub user_id : ℕ
  pub is_approved : Bool
  pub is_deleted : Bool

pub record AdminDb : Type 0 where
  pub world : World
  pub refunds : List Refund
  pub applications : List Application
  pub audit : List AdminAudit

abbrev pub is_failed : RefundStatus → Bool
is_failed failed = true
is_failed _ = false

-- `appt.actual_price or appt.estimated_price`
abbrev pub max_refundable : Appointment → ℕ
max_refundable a = elim a.actual_price [
  | none ↦ a.estimated_price
  | some price ↦ if price == 0 then a.estimated_price else price
]

abbrev pub counted : ℕ → Refund → ℕ
counted id r = if r.appointment_id == id && not (is_failed r.status) then r.amount_cents else 0

-- `coalesce(sum(amount_cents), 0)` of the booking's refunds that have not failed
abbrev pub prior_refunded : ℕ → List Refund → ℕ
prior_refunded id refunds = sum_by (counted id) refunds

abbrev pub stripe_reason : String → String
stripe_reason reason =
    if str_eq reason "duplicate"
      || (str_eq reason "fraudulent" || str_eq reason "requested_by_customer")
    then reason
    else "requested_by_customer"

abbrev pub new_refund : ℕ → ℕ → ℕ → Option String → Refund
new_refund id actor amount refund_id = record {
  appointment_id = id;
  stripe_refund_id = refund_id;
  amount_cents = amount;
  status = elim refund_id [ none ↦ pending_refund | some _ ↦ succeeded ];
  created_by_user_id = actor;
}

-- the row of what Stripe answered
abbrev pub record_refund :
    ℕ → ℕ → ℕ → Result (Option String) × World → AdminDb → Result (Option String) × AdminDb
record_refund id actor amount (err e, w) s = (err e, record s { world = w })
record_refund id actor amount (ok refund_id, w) s = (
  ok refund_id,
  record s {
    world = w;
    refunds = s.refunds ++ (new_refund id actor amount refund_id ∷ []);
    audit = s.audit ++ (appointment_refunded actor id amount ∷ []);
  },
)

-- ValueError is answered with 409.
abbrev pub refund_row :
    Env → ℕ → ℕ → String → Appointment → AdminDb → Result (Option String) × AdminDb
refund_row env actor amount reason a s = elim (truthy a.stripe_payment_intent_id) [
  | none ↦ (err (http 409), s)
  | some pi ↦
      if ltb (max_refundable a) (prior_refunded a.id s.refunds + amount)
      then (err (http 409), s)
      else record_refund a.id actor amount
          (create_refund env pi amount (stripe_reason reason) s.world) s
]

unfoldable pub refund_appointment :
    Env → ℕ → ℕ → ℕ → String → AdminDb → Result (Option String) × AdminDb
refund_appointment env id actor amount reason s = elim (get_by_id id s.world.db) [
  | none ↦ (err (http 404), s)
  | some a ↦ refund_row env actor amount reason a s
]

-- _REASSIGNABLE_STATUSES
abbrev pub is_reassignable : Status → Bool
is_reassignable pending = true
is_reassignable searching = true
is_reassignable no_detailer_found = true
is_reassignable confirmed = true
is_reassignable _ = false

abbrev pub same_detailer : Option ℕ → ℕ → Bool
same_detailer none new = false
same_detailer (some old) new = old == new

abbrev pub after_reassignment : Status → Status
after_reassignment searching = pending
after_reassignment no_detailer_found = pending
after_reassignment status = status

abbrev pub with_db : Db → AdminDb → AdminDb
with_db d s = record s { world = record s.world { db = d } }

abbrev pub reassigned : ℕ → Appointment → Appointment
reassigned detailer a = record a {
  detailer_id = some detailer;
  status = after_reassignment a.status;
}

abbrev pub is_applicant : ℕ → Application → Bool
is_applicant detailer p = p.user_id == detailer && not p.is_deleted

-- no profile and a profile that is not approved are both refused
abbrev pub is_approved_detailer : Option Application → Bool
is_approved_detailer none = false
is_approved_detailer (some p) = p.is_approved

abbrev pub reassign_row : ℕ → ℕ → Appointment → AdminDb → Result (Unit {0}) × AdminDb
reassign_row actor detailer a s =
    if not (is_reassignable a.status) || same_detailer a.detailer_id detailer
    then (err (http 409), s)
    else elim (scalar_one_or_none (is_applicant detailer) s.applications) [
      | err e ↦ (err e, s)
      | ok found ↦
          if is_approved_detailer found
          then (
            ok tt,
            record (with_db (save (reassigned detailer a) s.world.db) s) {
              audit = s.audit ++ (appointment_reassigned actor a.id a.detailer_id detailer ∷ []);
            },
          )
          else (err (http 409), s)
    ]

unfoldable pub reassign_appointment : ℕ → ℕ → ℕ → AdminDb → Result (Unit {0}) × AdminDb
reassign_appointment id actor detailer s = elim (get_by_id id s.world.db) [
  | none ↦ (err (http 404), s)
  | some a ↦ reassign_row actor detailer a s
]

-- any status, without the table of transitions
unfoldable pub force_appointment_status : ℕ → ℕ → Status → AdminDb → Result (Unit {0}) × AdminDb
force_appointment_status id actor status s = elim (get_by_id id s.world.db) [
  | none ↦ (err (http 404), s)
  | some a ↦ (
    ok tt,
    record (with_db (save (record a { status = status }) s.world.db) s) {
      audit = s.audit ++ (status_forced actor id status ∷ []);
    },
  )
]

-- get_db around a request: what has reached Stripe stays
abbrev pub transact : {A : Type 0} → Result A × AdminDb → AdminDb → Result A × AdminDb
transact (ok a, after) before = (ok a, after)
transact (err e, after) before =
    (err e, record before { world = record after.world { db = before.world.db } })
