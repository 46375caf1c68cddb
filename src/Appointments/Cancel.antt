-- ===== src/Appointments/Cancel.antt =====
-- _refund_preview and cancel_appointment of backend/domains/appointments/router.py.
pub mod Preview
use Prim.Native.String.{String}
use raycarwash_project.Base.{ℕ, ◌==◌, not, Option, none, if◌then◌else◌, Bool, true, false}
use raycarwash_project.Pricing.{Settings}
use raycarwash_project.Appointments.Status.{
  Status, is_terminal, completed, pending, status_eq, cancelled_by_client,
}
use raycarwash_project.Appointments.Refund.{hours_at_least, partial_refund}
use raycarwash_project.Appointments.Transition.{StatusUpdate, transition_status}
use raycarwash_project.Store.{
  User, Appointment, Env, http, M, ◌>>=◌, ◌>>◌, pure, gets, or_raise, raise_if, emit, broadcast,
}
use raycarwash_project.Payments.Intents.{get_by_id}

-- the refund_note, by the branch that writes it
pub data Note : Type 0 where
  already_terminal already_completed hold_released full_refund partial_refund_note no_refund : Note

pub record RefundPreview : Type 0 where
  pub refund_cents : ℕ
  pub refund_pct : ℕ
  pub refund_note : Note

unfoldable pub refund_preview : Settings → ℕ → Appointment → RefundPreview
refund_preview s now a =
    if is_terminal a.status
    then record { refund_cents = 0; refund_pct = 0; refund_note = already_terminal }
    else if status_eq a.status completed
    then record { refund_cents = 0; refund_pct = 0; refund_note = already_completed }
    else if status_eq a.status pending
    then record { refund_cents = a.estimated_price; refund_pct = 100; refund_note = hold_released }
    else if hours_at_least a.scheduled_time now s.full_refund_hours
    then record { refund_cents = a.estimated_price; refund_pct = 100; refund_note = full_refund }
    else if hours_at_least a.scheduled_time now s.partial_refund_hours
    then record {
      refund_cents = partial_refund a.estimated_price s.partial_refund_percent;
      refund_pct = s.partial_refund_percent;
      refund_note = partial_refund_note;
    }
    else record { refund_cents = 0; refund_pct = 0; refund_note = no_refund }

-- the answer: the appointment's id with the preview
unfoldable pub cancel_appointment : Env → ℕ → Option String → User → M (ℕ × RefundPreview)
cancel_appointment env appointment_id reason actor = do
  a ← or_raise (← gets (get_by_id appointment_id)) (http 404)
  raise_if (not (a.client_id == actor.id)) (http 403)
  raise_if (is_terminal a.status) (http 409)
  updated ←
      transition_status env appointment_id
        (record { status = cancelled_by_client; detailer_notes = reason; actual_price = none })
        actor
  emit (broadcast appointment_id updated.status)
  pure (updated.id, refund_preview env.settings env.now a)
