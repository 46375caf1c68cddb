-- ===== src/Appointments/Transition.antt =====
-- AppointmentService.transition_status of backend/domains/appointments/service.py, step by step in
-- its order: guards, time stamps, capture, void, refund, status, history, cancellation, audit.
pub mod Safety
pub mod Rules
pub mod Money
use Prim.Native.String.{String}
use text.Mathlib.Text.{starts_with}
use raycarwash_project.Base.{
  ℕ, ◌==◌, ltb, Bool, true, false, not, ◌&&◌, ◌||◌, Option, none, some, List, [], ◌∷◌, ◌++◌, any,
  if◌then◌else◌,
}
use raycarwash_project.Appointments.Status.{
  Status, Role, admin, status_eq, has_role, roles_allowed, completed, arrived, in_progress,
  confirmed, cancelled_by_client, cancelled_by_detailer,
}
use raycarwash_project.Store.{
  User, Appointment, Policy, no_policy, auth_voided, Env, http, integrity_error, M, ◌>>=◌, ◌>>◌,
  pure, raise, gets, or_raise, raise_if, modify, log, emit, catch, status_changed,
  status_changed_event,
}
use raycarwash_project.Payments.Intents.{
  get_by_id, save, truthy, capture_payment_intent, cancel_payment_intent, create_refund,
}
use raycarwash_project.Appointments.Refund.{refund_policy, refund_percent}

-- AppointmentStatusUpdate of backend/domains/appointments/schemas.py
pub record StatusUpdate : Type 0 where
  pub status : Status
  pub detailer_notes : Option String
  pub actual_price : Option ℕ

abbrev pub is_participant : User → Appointment → Bool
is_participant actor a =
    a.client_id == actor.id || elim a.detailer_id [ none ↦ false | some d ↦ d == actor.id ]

-- `intent and not intent.startswith("pi_stub_NOPAY")`
abbrev pub live_intent : Appointment → Option String
live_intent a = elim (truthy a.stripe_payment_intent_id) [
  | none ↦ none
  | some pi ↦ if starts_with "pi_stub_NOPAY" pi then none else some pi
]

abbrev pub is_cancellation : Status → Bool
is_cancellation cancelled_by_client = true
is_cancellation cancelled_by_detailer = true
is_cancellation _ = false

abbrev or_else : Option ℕ → ℕ → ℕ
or_else none d = d
or_else (some n) _ = n

-- the three blocks that stamp a time
unfoldable pub stamp : Env → StatusUpdate → Appointment → Appointment
stamp env payload a = elim payload.status [
  | completed ↦ record a {
    actual_price = some (or_else payload.actual_price a.estimated_price);
    completed_at = some env.now;
  }
  | arrived ↦ record a { arrived_at = some env.now }
  | in_progress ↦ record a { started_at = some env.now }
  | _ ↦ a
]

-- Capture on COMPLETED; a failure is logged and passed over.
unfoldable pub capture_held : Env → Status → Appointment → M (Unit {0})
capture_held env new_status a =
    if status_eq new_status completed
    then elim (live_intent a) [
      | none ↦ pure tt
      | some pi ↦ catch (capture_payment_intent env pi a.actual_price >> pure tt) (pure tt)
    ]
    else pure tt

abbrev pub void_reason : Status → String
void_reason cancelled_by_client = "requested_by_customer"
void_reason _ = "abandoned"

-- Void the hold on cancellation: whether that worked.
unfoldable pub void_hold : Env → Status → Status → Appointment → M Bool
void_hold env current new_status a =
    if is_cancellation new_status && not (status_eq current completed)
    then elim (live_intent a) [
      | none ↦ pure false
      | some pi ↦
          catch (cancel_payment_intent env pi (void_reason new_status) >> pure true) (pure false)
    ]
    else pure false

-- What a cancellation gave back: the policy, the cents, and Stripe's refund.
abbrev pub Refunded : Type 0
Refunded = Policy × ℕ × Option String

send_refund : Env → String → Policy × ℕ → M Refunded
send_refund env pi (policy, cents) =
    if ltb 0 cents
    then (do
      refund ← create_refund env pi cents "requested_by_customer"
      pure (policy, cents, refund))
    else pure (policy, cents, none)

-- Refund on cancellation of a CONFIRMED appointment whose hold was not voided.
unfoldable pub refund_captured : Env → Status → Status → Bool → Appointment → M Refunded
unfolding send_refund
refund_captured env current new_status voided a =
    if is_cancellation new_status && not voided && status_eq current confirmed
    then elim (live_intent a) [
      | none ↦ pure (no_policy, 0, none)
      | some pi ↦
          send_refund env pi (refund_policy env.settings a.scheduled_time env.now a.estimated_price)
    ]
    else pure (if voided then auth_voided else no_policy, 0, none)

abbrev pub new_notes : Option String → Appointment → Appointment
new_notes none a = a
new_notes (some n) a = record a { detailer_notes = some n }

abbrev first_role : List Role → Option Role
first_role [] = none
first_role (r ∷ _) = some r

abbrev policy_norm : Policy → Option Policy
policy_norm no_policy = none
policy_norm p = some p

-- add_cancellation: one row for an appointment (uq_appointment_cancellations_appointment)
add_cancellation : User → StatusUpdate → Appointment → Refunded → M (Unit {0})
add_cancellation actor payload a (policy, cents, _) = do
  rows ← gets (λ d. d.cancellations)
  raise_if (any (λ c. c.appointment_id == a.id) rows) integrity_error
  modify (λ d. record d {
    cancellations =
        d.cancellations
        ++ (record {
          appointment_id = a.id;
          cancelled_by_user_id = actor.id;
          cancelled_by_role = first_role actor.roles;
          reason = payload.detailer_notes;
          refund_amount_cents = if cents == 0 then none else some cents;
          refund_percent = refund_percent cents a.estimated_price;
          policy_code = policy_norm policy;
        }
            ∷ []);
  })

-- from `old_status = appointment.status` to the end
unfoldable pub record_change : User → StatusUpdate → Status → Appointment → Refunded → M Appointment
unfolding add_cancellation
record_change actor payload old_status a (policy, cents, refund) = do
  let row = new_notes payload.detailer_notes (record a { status = payload.status })
  modify (save row)
  modify (λ d. record d {
    status_history =
        d.status_history
        ++ (record {
          appointment_id = a.id;
          old_status = some old_status;
          new_status = payload.status;
          actor_id = some actor.id;
          reason = payload.detailer_notes;
          price_cents = none;
          refund = some (policy, cents);
        }
            ∷ []);
  })
  (if is_cancellation payload.status
      then add_cancellation actor payload a (policy, cents, refund)
      else pure tt)
  log (
      status_changed a.id actor.id old_status payload.status payload.actual_price policy cents
        refund)
  emit (
      status_changed_event a.id a.client_id a.detailer_id old_status payload.status
        a.scheduled_time)
  pure row

-- the body once the guards have passed
unfoldable pub apply_change : Env → StatusUpdate → User → Appointment → M Appointment
apply_change env payload actor appointment = do
  let a = stamp env payload appointment
  capture_held env payload.status a
  voided ← void_hold env a.status payload.status a
  refunded ← refund_captured env a.status payload.status voided a
  record_change actor payload a.status a refunded

-- the guards of the status machine
unfoldable pub change_allowed : Env → StatusUpdate → User → Appointment → M Appointment
change_allowed env payload actor a =
    if status_eq a.status payload.status
    then pure a
    else elim (roles_allowed a.status payload.status) [
      | none ↦ raise (http 422)
      | some allowed ↦
          if any (λ r. has_role r actor.roles) allowed
          then apply_change env payload actor a
          else raise (http 403)
    ]

unfoldable pub transition_status : Env → ℕ → StatusUpdate → User → M Appointment
unfolding get_by_id
transition_status env appointment_id payload actor = do
  a ← or_raise (← gets (get_by_id appointment_id)) (http 404)
  raise_if (not (is_participant actor a) && not (has_role admin actor.roles)) (http 403)
  change_allowed env payload actor a
