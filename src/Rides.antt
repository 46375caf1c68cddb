-- ===== src/Rides.antt =====
-- Rides on demand: the tables fare_estimates and appointment_assignments beside the appointments
-- and the ledger (backend/domains/payments/models.py, backend/domains/appointments/models.py),
-- the assignment_events and assignment_responses of app.state, and the locks and the queue that
-- the code keeps in Redis. A dictionary is a function; a token, a hex digest, is a number.
pub mod Fares
pub mod Matching
mod Acts
mod Carried
mod Booked
mod Tests
use raycarwash_project.Base.{
  ℕ, suc, Bool, true, false, ◌&&◌, Option, none, some, List, [], ◌∷◌, ◌==◌, if◌then◌else◌,
  count_where, find_where, leb,
}
use raycarwash_project.Float.{Double}
use raycarwash_project.Catalog.{Service, VehicleSize}
use raycarwash_project.Store.{Appointment, Error, multiple_results, Result, ok, err}
use raycarwash_project.Payments.Ledger.{PaymentLedger}

pub data AssignmentStatus : Type 0 where
  offered accepted declined timeout : AssignmentStatus

pub record AppointmentAssignment : Type 0 where
  pub id : ℕ
  pub appointment_id : ℕ
  pub detailer_id : ℕ
  pub status : AssignmentStatus
  pub offered_at : ℕ
  pub offer_expires_at : ℕ
  pub responded_at : Option ℕ

pub record FareEstimate : Type 0 where
  pub id : ℕ
  pub client_id : ℕ
  pub service_id : ℕ
  pub vehicle_sizes : List VehicleSize
  pub base_price_cents : ℕ
  pub surge_multiplier : Double
  pub estimated_price_cents : ℕ
  pub nearby_detailers_count : ℕ
  pub fare_token : ℕ
  pub expires_at : ℕ

-- assignment_responses["{appointment}:{detailer}"]
pub data Response : Type 0 where
  said_accepted said_declined : Response

pub record Rides : Type 0 where
  pub next_id : ℕ
  pub services : List Service
  pub fares : List FareEstimate
  pub appointments : List Appointment
  pub assignments : List AppointmentAssignment
  pub ledger : List PaymentLedger
  pub queue : List ℕ
  -- none: no event; some b: an event, set or not
  pub events : ℕ → ℕ → Option Bool
  pub responses : ℕ → ℕ → Option Response
  pub locks : ℕ → Bool

-- `scalar_one_or_none`
module _ {A : Type 0} where
  abbrev pub scalar_one_or_none : (A → Bool) → List A → Result (Option A)
  scalar_one_or_none p xs =
      if leb (count_where p xs) 1 then ok (find_where p xs) else err multiple_results

  -- `d[a, b] = x`
  abbrev pub set_key : (ℕ → ℕ → A) → ℕ → ℕ → A → ℕ → ℕ → A
  set_key f a b x a' b' = if a' == a && b' == b then x else f a' b'

abbrev pub is_offered : AssignmentStatus → Bool
is_offered offered = true
is_offered _ = false

abbrev pub is_accepted : AssignmentStatus → Bool
is_accepted accepted = true
is_accepted _ = false
