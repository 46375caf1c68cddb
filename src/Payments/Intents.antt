-- ===== src/Payments/Intents.antt =====
-- PaymentService of backend/domains/payments/service.py, over the tables of Store.
use Prim.Native.String.{String}
use text.Mathlib.Text.{starts_with, ◌==◌ as str_eq}
use raycarwash_project.Base.{
  ℕ, ◌∷◌, [], Bool, true, false, not, ◌&&◌, ◌||◌, Option, none, some, ltb, leb, ◌==◌, if◌then◌else◌,
  find_where, select_where, update_where,
}
use raycarwash_project.Appointments.Status.{Status, pending, confirmed}
use raycarwash_project.Store.{
  User, Appointment, Db, Env, Intent, http, stripe_error, multiple_results, M, ◌>>=◌, ◌>>◌, pure,
  raise, gets, or_raise, raise_if, modify, call_stripe, log, fresh, create_customer, create_intent,
  capture_intent, cancel_intent, refund_intent, intent_created, payment_refunded, payment_captured,
}

-- AppointmentRepository.get_by_id and the same query of PaymentService
unfoldable pub get_by_id : ℕ → Db → Option Appointment
get_by_id appointment_id d =
    find_where (λ a. a.id == appointment_id && not a.is_deleted) d.appointments

-- a flush of the changed fields of one appointment
abbrev pub save : Appointment → Db → Db
save row d = record d {
  appointments = update_where (λ a. a.id == row.id) (λ _. row) d.appointments;
}

abbrev save_customer : ℕ → String → Db → Db
save_customer user_id customer d = record d {
  users =
      update_where (λ u. u.id == user_id) (λ u. record u { stripe_customer_id = some customer })
        d.users;
}

-- a string that is None or empty is false
abbrev pub truthy : Option String → Option String
truthy none = none
truthy (some s) = if str_eq s "" then none else some s

-- `self._is_stub_key() or payment_intent_id.startswith("pi_stub")`
abbrev pub is_stub : Env → String → Bool
is_stub env pi = env.is_stub_key || starts_with "pi_stub" pi

unfoldable pub get_or_create_stripe_customer : Env → User → M String
get_or_create_stripe_customer env actor = elim (truthy actor.stripe_customer_id) [
  | some customer ↦ pure customer
  | none ↦
      if env.is_stub_key
      then (do
        modify (save_customer actor.id (env.stub_customer actor.id))
        pure (env.stub_customer actor.id))
      else (do
        call_stripe (create_customer actor.id)
        customer ← or_raise (env.stripe.customer_create actor.id) stripe_error
        modify (save_customer actor.id customer)
        pure customer)
]

-- the answer of create_payment_intent; the currency is a setting
abbrev pub existing_intent : Env → Appointment → String → M Intent
existing_intent env a pi =
    if is_stub env pi
    then pure (record {
      intent_id = pi;
      client_secret = env.stub_secret pi;
      amount = a.estimated_price;
      intent_status = "requires_payment_method";
    })
    else or_raise (env.stripe.intent_retrieve pi) stripe_error

unfoldable pub new_stub_intent : Env → Appointment → M Intent
new_stub_intent env a = do
  n ← fresh
  pure (record {
    intent_id = env.stub_intent n;
    client_secret = env.stub_secret (env.stub_intent n);
    amount = a.estimated_price;
    intent_status = "requires_payment_method";
  })

unfoldable pub new_stripe_intent : Env → Appointment → M Intent
new_stripe_intent env a = do
  call_stripe (create_intent a.id a.estimated_price)
  intent ← or_raise (env.stripe.intent_create a.id a.estimated_price) stripe_error
  pure (record intent { amount = a.estimated_price })

unfoldable pub new_intent : Env → User → Appointment → M Intent
unfolding get_or_create_stripe_customer new_stub_intent new_stripe_intent
new_intent env actor a = do
  get_or_create_stripe_customer env actor
  intent ← (if env.is_stub_key then new_stub_intent env a else new_stripe_intent env a)
  modify (save (record a { stripe_payment_intent_id = some intent.intent_id }))
  log (intent_created a.id actor.id intent.intent_id a.estimated_price env.is_stub_key)
  pure intent

abbrev is_payable : Status → Bool
is_payable pending = true
is_payable confirmed = true
is_payable _ = false

unfoldable pub create_payment_intent : Env → ℕ → User → M Intent
unfolding get_by_id new_intent
create_payment_intent env appointment_id actor = do
  a ← or_raise (← gets (get_by_id appointment_id)) (http 404)
  raise_if (not (a.client_id == actor.id)) (http 403)
  raise_if (not (is_payable a.status)) (http 422)
  elim (truthy a.stripe_payment_intent_id) [
    | some pi ↦ existing_intent env a pi
    | none ↦ new_intent env actor a
  ]

-- `amount_cents is not None and amount_cents > 0`
abbrev pub amount_to_capture : Option ℕ → Option ℕ
amount_to_capture none = none
amount_to_capture (some n) = if ltb 0 n then some n else none

unfoldable pub capture_payment_intent : Env → String → Option ℕ → M (Option String)
capture_payment_intent env pi amount_cents = if is_stub env pi then pure none else (do
  call_stripe (capture_intent pi (amount_to_capture amount_cents))
  status ← or_raise (env.stripe.intent_capture pi (amount_to_capture amount_cents)) stripe_error
  pure (some status))

unfoldable pub cancel_payment_intent : Env → String → String → M (Option String)
cancel_payment_intent env pi reason = if is_stub env pi then pure none else (do
  call_stripe (cancel_intent pi reason)
  status ← or_raise (env.stripe.intent_cancel pi reason) stripe_error
  pure (some status))

unfoldable pub create_refund : Env → String → ℕ → String → M (Option String)
create_refund env pi amount_cents reason =
    if leb amount_cents 0
    then pure none
    else if is_stub env pi
    then (do
      n ← fresh
      log (payment_refunded pi (some (env.stub_refund n)) amount_cents reason true)
      pure (some (env.stub_refund n)))
    else (do
      call_stripe (refund_intent pi amount_cents reason)
      refund ← or_raise (env.stripe.refund_create pi amount_cents reason) stripe_error
      log (payment_refunded pi (some refund) amount_cents reason false)
      pure (some refund))

-- `Appointment.stripe_payment_intent_id == payment_intent_id`, on rows that are not deleted
has_intent : String → Appointment → Bool
has_intent pi a =
    not a.is_deleted && elim a.stripe_payment_intent_id [ none ↦ false | some p ↦ str_eq p pi ]

unfoldable pub handle_payment_succeeded : String → M (Unit {0})
unfolding has_intent
handle_payment_succeeded pi = do
  rows ← gets (λ d. select_where (has_intent pi) d.appointments)
  elim rows [
    | [] ↦ pure tt
    | a ∷ rest ↦ elim rest [
      | [] ↦ log (payment_captured a.id a.client_id pi a.estimated_price)
      | _ ∷ _ ↦ raise multiple_results
    ]
  ]
