-- ===== src/Appointments/Cancel/Preview.antt =====
-- What a cancellation by the client gives back, against what it answers.
use Prim.Native.String.{String}
use raycarwash_project.Base.{
  ℕ, ◌≡◌, refl, ◌==◌, true, false, Option, none, some, List, [], ◌∷◌, ◌++◌, any, arith, ap,
}
use raycarwash_project.Appointments.Status.{
  Status, Role, completed, status_eq, cancelled_by_client, roles_allowed,
}
use raycarwash_project.Appointments.Transition.{
  StatusUpdate, live_intent, stamp, capture_held, void_hold, refund_captured, record_change,
  apply_change, new_notes, change_allowed, transition_status,
}
use raycarwash_project.Appointments.Transition.Rules.{Permitted, edge_moves}
use raycarwash_project.Appointments.Transition.Safety.{edge_leaves_active}
use raycarwash_project.Appointments.Cancel.{RefundPreview, refund_preview, cancel_appointment}
use raycarwash_project.Payments.Intents.{get_by_id, is_stub, cancel_payment_intent}
use raycarwash_project.Store.Frames.{bind-at}
use raycarwash_project.Store.{
  User, Appointment, World, Env, Result, ok, ◌>>=◌, auth_voided, cancel_intent, Cancellation,
}

abbrev voided_world : String → World → World
voided_world pi w = record w {
  stripe_calls = w.stripe_calls ++ cancel_intent pi "requested_by_customer" ∷ [];
}

void_hold-voids :
    (env : Env) (s : Status) (a : Appointment) (pi answer : String) (w : World)
    → status_eq s completed ≡ false
    → live_intent a ≡ some pi
    → is_stub env pi ≡ false
    → env.stripe.intent_cancel pi "requested_by_customer" ≡ some answer
    → void_hold env s cancelled_by_client a w ≡ (ok true, voided_world pi w)
unfolding void_hold cancel_payment_intent ◌>>=◌
void_hold-voids env s a pi answer w h live real voids = rw (h, live, real, voids) refl

abbrev client_cancels : Option String → StatusUpdate
client_cancels reason = record {
  status = cancelled_by_client;
  detailer_notes = reason;
  actual_price = none;
}

abbrev cancelled_row : Option String → Appointment → Appointment
cancelled_row reason a = new_notes reason (record a { status = cancelled_by_client })

-- A status request that ends as a void of the hold, and nothing else at Stripe.
abbrev Voids : String → Option String → Appointment → World → Result Appointment × World → Type 0
Voids pi reason a w r =
    (r.0 ≡ ok (cancelled_row reason a)) × (r.1.stripe_calls ≡ (voided_world pi w).stripe_calls)

no_capture :
    (env : Env) (a : Appointment) (w : World)
    → capture_held env cancelled_by_client a w ≡ (ok tt, w)
unfolding capture_held
no_capture env a w = refl

no_refund_call :
    (env : Env) (s : Status) (a : Appointment) (w : World)
    → refund_captured env s cancelled_by_client true a w ≡ (ok (auth_voided, 0, none), w)
unfolding refund_captured
no_refund_call env s a w = refl

recorded :
    (reason : Option String) (actor : User) (a : Appointment) (pi : String) (w : World)
    → any (λ (c : Cancellation). c.appointment_id == a.id) w.db.cancellations ≡ false
    → Voids pi reason a w (
        record_change actor
          (client_cancels reason)
          a.status
          a
          (auth_voided, 0, none)
          (voided_world pi w))
unfolding record_change ◌>>=◌
recorded reason actor a pi w first = ground (arith, first)

apply_change-Voids :
    (env : Env) (reason : Option String) (actor : User) (a : Appointment) (pi answer : String)
    (w : World)
    → status_eq a.status completed ≡ false
    → live_intent a ≡ some pi
    → is_stub env pi ≡ false
    → env.stripe.intent_cancel pi "requested_by_customer" ≡ some answer
    → any (λ (c : Cancellation). c.appointment_id == a.id) w.db.cancellations ≡ false
    → Voids pi reason a w (apply_change env (client_cancels reason) actor a w)
unfolding apply_change stamp
apply_change-Voids env reason actor a pi answer w h live real voids first =
    let P = Voids pi reason a w in
    bind-at P _ tt _ w w (no_capture env a w) (
      bind-at P _ true _ w (voided_world pi w)
        (void_hold-voids env a.status a pi answer w h live real voids)
        (bind-at P _ (auth_voided, 0, none) _ (voided_world pi w) (voided_world pi w)
          (no_refund_call env a.status a _) (recorded reason actor a pi w first)))

cancellable :
    (s : Status) (l : List Role)
    → roles_allowed s cancelled_by_client ≡ some l
    → status_eq s completed ≡ false
unfolding roles_allowed
cancellable s l h = ground arith

transition_status-Voids :
    (env : Env) (n : ℕ) (reason : Option String) (actor : User) (a : Appointment)
    (pi answer : String) (w : World)
    → get_by_id n w.db ≡ some a
    → (a.client_id == actor.id) ≡ true
    → Permitted actor a.status cancelled_by_client
    → live_intent a ≡ some pi
    → is_stub env pi ≡ false
    → env.stripe.intent_cancel pi "requested_by_customer" ≡ some answer
    → any (λ (c : Cancellation). c.appointment_id == a.id) w.db.cancellations ≡ false
    → Voids pi reason a w (transition_status env n (client_cancels reason) actor w)
unfolding transition_status change_allowed ◌>>=◌
transition_status-Voids env n reason actor a pi answer w found owner (allowed, listed, mine) live
      real voids first =
    rw (found, owner, edge_moves a.status cancelled_by_client allowed listed, listed, mine)
      (apply_change-Voids env reason actor a pi answer w (cancellable a.status allowed listed) live
        real voids first)

cancelled_row-id : (reason : Option String) (a : Appointment) → (cancelled_row reason a).id ≡ a.id
cancelled_row-id none a = refl
cancelled_row-id (some r) a = refl

-- The cancellation answers with the preview, and its only call to Stripe voids the hold.
abbrev pub Voided : Env → String → Appointment → World → Result (ℕ × RefundPreview) × World → Type 0
Voided env pi a w r =
    (r.0 ≡ ok (a.id, refund_preview env.settings env.now a))
    × (r.1.stripe_calls ≡ w.stripe_calls ++ cancel_intent pi "requested_by_customer" ∷ [])

-- A client who cancels an own appointment, in a status from which a client may cancel, with a live
-- hold that Stripe voids and with no earlier cancellation row, gets the preview as the answer. The
-- only call to Stripe is the one that voids the whole hold: no refund is made whatever part of the
-- price the preview names.
pub cancel_appointment-Voided :
    (env : Env) (n : ℕ) (reason : Option String) (actor : User) (a : Appointment)
    (pi answer : String) (w : World)
    → get_by_id n w.db ≡ some a
    → (a.client_id == actor.id) ≡ true
    → Permitted actor a.status cancelled_by_client
    → live_intent a ≡ some pi
    → is_stub env pi ≡ false
    → env.stripe.intent_cancel pi "requested_by_customer" ≡ some answer
    → any (λ (c : Cancellation). c.appointment_id == a.id) w.db.cancellations ≡ false
    → Voided env pi a w (cancel_appointment env n reason actor w)
unfolding cancel_appointment
cancel_appointment-Voided env n reason actor a pi answer w found owner p live real voids first =
    let done =
      transition_status-Voids env n reason actor a pi answer w found owner p live real voids
        first in
    let after = (transition_status env n (client_cancels reason) actor w).1 in
    bind-at P _ _ _ w w refl (
      bind-at P _ a _ w w (rw found refl) (
        bind-at P _ tt _ w w (rw owner refl) (
          bind-at P _ tt _ w w (rw (edge_leaves_active a.status cancelled_by_client p.0 p.1) refl) (
            bind-at P _ (cancelled_row reason a) _ w after (ap (λ r. (r, after)) done.0)
              (bind-at P _ tt _ after _ refl (rw (cancelled_row-id reason a) (refl, done.1)))))))
  where
    P : Result (ℕ × RefundPreview) × World → Type 0
    P r = Voided env pi a w r
