-- ===== src/Appointments/Requests.antt =====
-- The endpoints that change bookings, one after another: POST /appointments, PATCH /{id}/status and
-- POST /{id}/cancel of backend/domains/appointments/router.py, and create_payment_intent of
-- backend/domains/payments/service.py. Each runs in its own transaction (get_db); the
-- advisory lock of create_appointment puts bookings of one detailer in an order.
pub mod Safety
use Prim.Native.String.{String}
use raycarwash_project.Base.{ℕ, Option, List, [], ◌∷◌}
use raycarwash_project.Appointments.Transition.{StatusUpdate, transition_status}
use raycarwash_project.Appointments.Booking.{AppointmentCreate}
use raycarwash_project.Appointments.Booking.Create.{create_appointment}
use raycarwash_project.Appointments.Cancel.{cancel_appointment}
use raycarwash_project.Payments.Intents.{create_payment_intent}
use raycarwash_project.Store.{
  User, Appointment, Env, World, M, ◌>>=◌, ◌>>◌, pure, emit, broadcast, request,
}

pub data Request : Type 0 where
  book : AppointmentCreate → Request
  update_status : ℕ → StatusUpdate → Request
  cancel : ℕ → Option String → Request
  pay : ℕ → Request

-- update_appointment_status of the router
unfoldable pub update_appointment_status : Env → ℕ → StatusUpdate → User → M Appointment
update_appointment_status env appointment_id payload actor = do
  updated ← transition_status env appointment_id payload actor
  emit (broadcast appointment_id updated.status)
  pure updated

-- the world after the request of an actor
unfoldable pub serve : Env → User → Request → World → World
serve env actor (book payload) w = (request (create_appointment env payload actor) w).1
serve env actor (update_status n payload) w =
    (request (update_appointment_status env n payload actor) w).1
serve env actor (cancel n reason) w = (request (cancel_appointment env n reason actor) w).1
serve env actor (pay n) w = (request (create_payment_intent env n actor) w).1

-- Requests in the order of their transactions, each with its own clock, settings and answers of
-- Stripe.
unfoldable pub serve_all : List (Env × User × Request) → World → World
serve_all [] w = w
serve_all ((env, actor, req) ∷ rest) w = serve_all rest (serve env actor req w)
