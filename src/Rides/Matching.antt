-- ===== src/Rides/Matching.antt =====
-- PUT /rides/{id}/accept and /decline of backend/domains/payments/rides_router.py, and the loop
-- `assign` of backend/domains/matching/service.py, which offers a ride to one candidate after the
-- other. The candidates, ranked by `score`, are a parameter of a run.
pub mod Run
mod Rows
mod OneOffer
mod Once
mod Tests
use raycarwash_project.Base.{
  ℕ, suc, ◌+◌, Bool, true, false, ◌&&◌, Option, none, some, List, [], ◌∷◌, ◌++◌, ◌==◌,
  if◌then◌else◌, any, find_where, update_where,
}
use raycarwash_project.Store.{
  Appointment, Error, http, stripe_error, integrity_error, Result, ok, err,
}
use raycarwash_project.Appointments.Status.{
  Status, confirmed, searching, no_detailer_found, status_eq,
}
use raycarwash_project.Payments.Ledger.{PaymentProcessor, capture}
use raycarwash_project.Rides.{
  AssignmentStatus, offered, accepted, declined, timeout, AppointmentAssignment, Response,
  said_accepted, said_declined, Rides, scalar_one_or_none, set_key, is_offered,
}

-- OFFER_TIMEOUT_SECONDS
abbrev pub offer_timeout_seconds : ℕ
offer_timeout_seconds = 15

-- MAX_CANDIDATES
abbrev pub max_candidates : ℕ
max_candidates = 3

-- `UPDATE appointment_assignments SET status, responded_at WHERE id`
abbrev pub answer : ℕ → AssignmentStatus → ℕ → Rides → Rides
answer id status now s = record s {
  assignments =
      update_where (λ r. r.id == id) (λ r. record r { status = status; responded_at = some now })
        s.assignments;
}

abbrev pub active_offer : ℕ → ℕ → AppointmentAssignment → Bool
active_offer appointment detailer r =
    r.appointment_id == appointment && (r.detailer_id == detailer && is_offered r.status)

abbrev pub confirm : ℕ → ℕ → Rides → Rides
confirm appointment detailer s = record s {
  appointments =
      update_where (λ x. x.id == appointment)
        (λ x. record x { status = confirmed; detailer_id = some detailer }) s.appointments;
}

-- The queries of accept_ride and decline_ride, each of its own: the price of a ride that is searching,
-- and the key of the detailer's offer. Nothing that they read is locked.
unfoldable pub find_ride : ℕ → Rides → Result ℕ
find_ride appointment s =
    elim (find_where (λ x. x.id == appointment && status_eq x.status searching) s.appointments) [
      | none ↦ err (http 404)
      | some x ↦ ok x.estimated_price
    ]

abbrev pub offer_key : ℕ → Result (Option AppointmentAssignment) → Result ℕ
offer_key code (err e) = err e
offer_key code (ok none) = err (http code)
offer_key code (ok (some r)) = ok r.id

-- `code` is the answer when there is no offer
unfoldable pub find_offer : ℕ → ℕ → ℕ → Rides → Result ℕ
find_offer code appointment detailer s =
    offer_key code (scalar_one_or_none (active_offer appointment detailer) s.assignments)

-- what accept_ride commits: two updates by key alone
unfoldable pub accept_write : ℕ → ℕ → ℕ → ℕ → Rides → Rides
accept_write appointment detailer id now s = confirm appointment detailer (answer id accepted now s)

-- what decline_ride commits
unfoldable pub decline_write : ℕ → ℕ → Rides → Rides
decline_write id now s = answer id declined now s

-- accept_ride up to its commit, when nothing comes between its queries and its updates: the price
unfoldable pub accept_commit : ℕ → ℕ → ℕ → Rides → Result ℕ × Rides
accept_commit appointment detailer now s = elim (find_ride appointment s) [
  | err e ↦ (err e, s)
  | ok price ↦ elim (find_offer 409 appointment detailer s) [
    | err e ↦ (err e, s)
    | ok id ↦ (ok price, accept_write appointment detailer id now s)
  ]
]

-- decline_ride up to its commit, likewise
unfoldable pub decline_commit : ℕ → ℕ → ℕ → Rides → Result (Unit {0}) × Rides
decline_commit appointment detailer now s = elim (find_offer 404 appointment detailer s) [
  | err e ↦ (err e, s)
  | ok id ↦ (ok tt, decline_write id now s)
]

-- the signal to the loop after the commit, if the loop has an event
unfoldable pub signal : ℕ → ℕ → Response → Rides → Rides
signal appointment detailer response s = elim (s.events appointment detailer) [
  | none ↦ s
  | some _ ↦ record s {
    events = set_key s.events appointment detailer (some true);
    responses = set_key s.responses appointment detailer (some response);
  }
]

-- what accept_ride does after its commit: the signal, then the capture
abbrev pub finish_accept : PaymentProcessor → ℕ → ℕ → Result ℕ × Rides → Result (Unit {0}) × Rides
finish_accept processor appointment detailer (err e, s) = (err e, s)
finish_accept processor appointment detailer (ok price, s) =
    let s' = signal appointment detailer said_accepted s in
    let (captured, ledger) = capture processor appointment price s'.ledger in
    (captured, record s' { ledger = ledger })

unfoldable pub accept_ride : PaymentProcessor → ℕ → ℕ → ℕ → Rides → Result (Unit {0}) × Rides
accept_ride processor appointment detailer now s =
    finish_accept processor appointment detailer (accept_commit appointment detailer now s)

abbrev pub finish_decline : ℕ → ℕ → Result (Unit {0}) × Rides → Result (Unit {0}) × Rides
finish_decline appointment detailer (err e, s) = (err e, s)
finish_decline appointment detailer (ok _, s) = (ok tt, signal appointment detailer said_declined s)

unfoldable pub decline_ride : ℕ → ℕ → ℕ → Rides → Result (Unit {0}) × Rides
decline_ride appointment detailer now s =
    finish_decline appointment detailer (decline_commit appointment detailer now s)

abbrev pub new_offer : ℕ → ℕ → ℕ → ℕ → AppointmentAssignment
new_offer id appointment detailer now = record {
  id = id;
  appointment_id = appointment;
  detailer_id = detailer;
  status = offered;
  offered_at = now;
  offer_expires_at = now + offer_timeout_seconds;
  responded_at = none;
}

-- the new offer, under the lock; a second row for the detailer breaks
-- uq_assignment_appointment_detailer
unfoldable pub make_offer : ℕ → ℕ → ℕ → Rides → Result ℕ × Rides
make_offer appointment detailer now s =
    let locked = record s { locks = λ a. if a == appointment then true else s.locks a } in
    if any (λ r. r.appointment_id == appointment && r.detailer_id == detailer) s.assignments
    then (err integrity_error, locked)
    else (
      ok s.next_id,
      record locked {
        next_id = suc s.next_id;
        assignments = s.assignments ++ (new_offer s.next_id appointment detailer now ∷ []);
      },
    )

abbrev pub register_event : ℕ → ℕ → Rides → Rides
register_event appointment detailer s = record s {
  events = set_key s.events appointment detailer (some false);
}

abbrev pub unlock : ℕ → Rides → Rides
unlock appointment s = record s { locks = λ a. if a == appointment then false else s.locks a }

-- the `finally` of an offer
abbrev pub end_offer : ℕ → ℕ → Rides → Rides
end_offer appointment detailer s =
    unlock appointment (record s { events = set_key s.events appointment detailer none })

abbrev pub pop_response : ℕ → ℕ → Rides → Rides
pop_response appointment detailer s = record s {
  responses = set_key s.responses appointment detailer none;
}

-- _mark_no_detailer
unfoldable pub mark_no_detailer : ℕ → Rides → Rides
mark_no_detailer appointment s = record s {
  appointments =
      update_where (λ x. x.id == appointment) (λ x. record x { status = no_detailer_found })
        s.appointments;
}
