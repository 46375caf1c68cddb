-- ===== src/Admin/Refunds/Tests.antt =====
-- A paid booking that an administrator refunds twice, and two bookings at one time.
use raycarwash_project.Base.{◌≡◌, refl, true, false, none, some, List, [], ◌∷◌, arith, map}
use raycarwash_project.Appointments.Status.{pending, completed}
use raycarwash_project.Store.{Appointment, Env, Stripe, http, err, ◌>>=◌}
use raycarwash_project.Payments.Intents.{get_by_id, create_refund}
use raycarwash_project.Admin.Refunds.{
  AdminDb, refund_appointment, reassign_appointment, force_appointment_status, prior_refunded,
}
use raycarwash_project.Admin.Refunds.Cap.{
  AdminRequest, refunds_booking, reassigns, forces, WithinCap, serve_all, serve_all-WithinCap,
}

abbrev a_booking : Appointment
a_booking = record {
  id = 50;
  client_id = 1;
  detailer_id = some 2;
  vehicle_id = some 20;
  service_id = 10;
  scheduled_time = 100;
  estimated_end_time = some 200;
  travel_buffer_end_time = some 300;
  arrived_at = none;
  started_at = none;
  completed_at = none;
  status = pending;
  estimated_price = 5000;
  actual_price = none;
  stripe_payment_intent_id = some "pi_1";
  client_notes = none;
  detailer_notes = none;
  service_address = none;
  is_deleted = false;
}

abbrev another : Appointment
another = record a_booking { id = 51; detailer_id = some 3 }

abbrev answers : Stripe
answers = record {
  customer_create = λ _. none;
  intent_create = λ _ _. none;
  intent_retrieve = λ _. none;
  intent_capture = λ _ _. none;
  intent_cancel = λ _ _. none;
  refund_create = λ pi cents reason. some "re_1";
}

abbrev an_env : Env
an_env = record {
  settings = record {
    travel_buffer_minutes = 30;
    full_refund_hours = 24;
    partial_refund_hours = 2;
    partial_refund_percent = 50;
  };
  is_stub_key = false;
  now = 10;
  stripe = answers;
  stub_intent = λ _. "pi_stub";
  stub_secret = λ _. "secret";
  stub_refund = λ _. "re_stub";
  stub_customer = λ _. "cus_stub";
}

abbrev tables : AdminDb
tables = record {
  world = record {
    db = record {
      next_id = 100;
      users = [];
      services = [];
      vehicles = [];
      addons = [];
      appointments = a_booking ∷ another ∷ [];
      appointment_vehicles = [];
      appointment_addons = [];
      status_history = [];
      cancellations = [];
      audit_log = [];
    };
    stripe_calls = [];
    events = [];
  };
  refunds = [];
  applications = record { user_id = 3; is_approved = true; is_deleted = false } ∷ [];
  audit = [];
}

-- the second refund would exceed the price of 5000 cents
second_refused :
    (refund_appointment an_env 50 9 2000 "other"
      (refund_appointment an_env 50 9 4000 "duplicate" tables).1).0
    ≡ err (http 409)
unfolding refund_appointment get_by_id create_refund ◌>>=◌
second_refused = refl

-- The new detailer has a booking at that time, and is assigned all the same.
double_booked :
    map
      (λ (a : Appointment). a.detailer_id)
      (reassign_appointment 50 9 3 tables).1.world.db.appointments
    ≡ some 3 ∷ some 3 ∷ []
unfolding reassign_appointment get_by_id
double_booked = refl

nothing_refunded : WithinCap tables
nothing_refunded id a h = omega arith

abbrev requests : List AdminRequest
requests =
    refunds_booking 50 9 4000 "duplicate"
    ∷ reassigns 50 9 3
    ∷ refunds_booking 50 9 1000 "x"
    ∷ forces 50 9 completed
    ∷ []

-- the whole price is given back
all_refunded : prior_refunded 50 (serve_all an_env requests tables).refunds ≡ 5000
unfolding refund_appointment reassign_appointment force_appointment_status get_by_id create_refund
    ◌>>=◌
all_refunded = refl

serve_all-WithinCap_example : WithinCap (serve_all an_env requests tables)
serve_all-WithinCap_example = serve_all-WithinCap an_env requests tables nothing_refunded
