-- ===== src/Appointments/Tests.antt =====
-- Concrete requests: the theorems of the appointment modules at worked examples.
use raycarwash_project.Base.{
  ◌+◌, ◌*◌, ◌/◌, ◌≤◌, ◌≡◌, refl, true, false, none, some, List, [], ◌∷◌, arith,
}
use raycarwash_project.Catalog.{Service, Vehicle, codes, medium, Addon}
use raycarwash_project.Pricing.{scaled, hours, minutes}
use raycarwash_project.Pricing.Exact.{exact_scaled, scaled-exact}
use raycarwash_project.Appointments.Status.{
  Status, client, detailer, admin, pending, confirmed, arrived, cancelled_by_client, roles_allowed,
}
use raycarwash_project.Appointments.Calendar.{IsValid, NoClash}
use raycarwash_project.Appointments.Refund.{partial_refund, hours_at_least, hours_until}
use raycarwash_project.Float.{of_ℕ, of_ratio, find_shift, round_div, div, floor}
use raycarwash_project.Appointments.Refund.Exact.{partial_refund-exact}
use raycarwash_project.Appointments.Transition.{StatusUpdate, transition_status}
use raycarwash_project.Appointments.Transition.Money.{refunds, transition_status-refunds}
use raycarwash_project.Appointments.Booking.{AppointmentCreate}
use raycarwash_project.Appointments.Booking.Create.{create_appointment}
use raycarwash_project.Appointments.Cancel.{partial_refund_note, refund_preview, cancel_appointment}
use raycarwash_project.Appointments.Cancel.Preview.{Voided, cancel_appointment-Voided}
use raycarwash_project.Appointments.Requests.{Request, book, update_status, cancel, pay, serve_all}
use raycarwash_project.Appointments.Requests.Safety.{serve_all-NoClash}
use raycarwash_project.Payments.Intents.{get_by_id}
use raycarwash_project.Store.{User, Appointment, Db, World, Stripe, Env, Result, request}

abbrev a_client : User
a_client = record {
  id = 1;
  roles = client ∷ [];
  is_active = true;
  is_deleted = false;
  stripe_customer_id = none;
}

abbrev a_detailer : User
a_detailer = record {
  id = 2;
  roles = detailer ∷ [];
  is_active = true;
  is_deleted = false;
  stripe_customer_id = none;
}

abbrev a_wash : Service
a_wash = record {
  id = 10;
  base_price_cents = 4999;
  base_duration_minutes = 45;
  price_small = 4999;
  price_medium = 5999;
  price_large = 7499;
  price_xl = 9998;
  is_active = true;
  is_deleted = false;
}

abbrev a_car : Vehicle
a_car = record {
  id = 20;
  owner_id = 1;
  body_class = some (codes "Sport Utility Vehicle");
  is_deleted = false;
}

abbrev a_booking : Appointment
a_booking = record {
  id = 50;
  client_id = 1;
  detailer_id = some 2;
  vehicle_id = some 20;
  service_id = 10;
  scheduled_time = hours 100;
  estimated_end_time = some (hours 101);
  travel_buffer_end_time = some (hours 102);
  arrived_at = none;
  started_at = none;
  completed_at = none;
  status = confirmed;
  estimated_price = 5999;
  actual_price = none;
  stripe_payment_intent_id = some "pi_live";
  client_notes = none;
  detailer_notes = none;
  service_address = none;
  is_deleted = false;
}

abbrev db_with : List Appointment → Db
db_with rows = record {
  next_id = 100;
  users = a_client ∷ a_detailer ∷ [];
  services = a_wash ∷ [];
  vehicles = a_car ∷ [];
  addons = [];
  appointments = rows;
  appointment_vehicles = [];
  appointment_addons = [];
  status_history = [];
  cancellations = [];
  audit_log = [];
}

abbrev world_with : List Appointment → World
world_with rows = record { db = db_with rows; stripe_calls = []; events = [] }

abbrev busy : World
busy = world_with (a_booking ∷ [])

busy_db-IsValid : IsValid busy.db
busy_db-IsValid = record { keys_used = (omega arith, tt); no_clash = (tt, tt) }

abbrev good_stripe : Stripe
good_stripe = record {
  customer_create = λ _. some "cus_1";
  intent_create = λ _ price. some (record {
    intent_id = "pi_new";
    client_secret = "secret";
    amount = price;
    intent_status = "requires_capture";
  });
  intent_retrieve = λ _. none;
  intent_capture = λ _ _. some "succeeded";
  intent_cancel = λ _ _. some "canceled";
  refund_create = λ _ _ _. some "re_1";
}

abbrev an_env : Env
an_env = record {
  settings = record {
    travel_buffer_minutes = 30;
    full_refund_hours = 24;
    partial_refund_hours = 2;
    partial_refund_percent = 50;
  };
  is_stub_key = false;
  now = hours 90;
  stripe = good_stripe;
  stub_intent = λ _. "pi_stub_1";
  stub_secret = λ _. "secret";
  stub_refund = λ _. "re_stub";
  stub_customer = λ _. "cus_stub";
}

abbrev a_payload : AppointmentCreate
a_payload = record {
  detailer_id = 2;
  scheduled_time = hours 110;
  vehicles = record { vehicle_id = 20; service_id = 10; addon_ids = [] } ∷ [];
  service_address = none;
  client_notes = none;
}

abbrev to_status : Status → StatusUpdate
to_status s = record { status = s; detailer_notes = none; actual_price = none }

abbrev some_requests : List (Env × User × Request)
some_requests =
    (an_env, a_client, book a_payload)
    ∷ (an_env, a_client, pay 100)
    ∷ (an_env, a_detailer, update_status 100 (to_status confirmed))
    ∷ (an_env, a_client, cancel 100 none)
    ∷ []

serve_all-NoClash_example : NoClash (serve_all some_requests (world_with [])).db.appointments
serve_all-NoClash_example = serve_all-NoClash some_requests (world_with []) refl

abbrev arrived_booking : Appointment
arrived_booking = record a_booking { arrived_at = some (hours 90); status = arrived }

abbrev after_arrival : World
after_arrival = (transition_status an_env 50 (to_status arrived) a_detailer busy).1

transition_status-refunds_example :
    refunds (request (transition_status an_env 50 (to_status cancelled_by_client) a_client) busy).1
    ≤ refunds busy + 5999
unfolding get_by_id
transition_status-refunds_example =
    transition_status-refunds an_env 50 (to_status cancelled_by_client) a_client a_booking busy refl
      (omega arith) (omega arith)

cancel_appointment-Voided_example :
    Voided an_env "pi_live" a_booking busy (cancel_appointment an_env 50 none a_client busy)
unfolding get_by_id roles_allowed
cancel_appointment-Voided_example =
    cancel_appointment-Voided an_env 50 none a_client a_booking "pi_live" "canceled" busy refl refl
      (client ∷ admin ∷ [], refl, refl) refl refl refl refl

-- Ten hours before the appointment the answer names half the price.
cancel_preview_is_half :
    refund_preview an_env.settings an_env.now a_booking
    ≡ record { refund_cents = 2999; refund_pct = 50; refund_note = partial_refund_note }
unfolding refund_preview hours_at_least hours_until partial_refund div of_ℕ of_ratio find_shift
    round_div floor
cancel_preview_is_half = refl

abbrev booked : Result Appointment × World
booked = create_appointment an_env a_payload a_client (world_with [])

abbrev new_row : Appointment
new_row = record {
  id = 100;
  client_id = 1;
  detailer_id = some 2;
  vehicle_id = some 20;
  service_id = 10;
  scheduled_time = hours 110;
  estimated_end_time = some (hours 110 + minutes 54);
  travel_buffer_end_time = some (hours 110 + minutes 84);
  arrived_at = none;
  started_at = none;
  completed_at = none;
  status = pending;
  estimated_price = 5999;
  actual_price = none;
  stripe_payment_intent_id = none;
  client_notes = none;
  detailer_notes = none;
  service_address = none;
  is_deleted = false;
}

abbrev a_wax : Addon
a_wax = record {
  id = 30;
  price_cents = 1500;
  duration_minutes = 20;
  is_active = true;
  is_deleted = false;
}

scaled-exact_example : scaled 4999 medium ≡ exact_scaled 4999 medium
scaled-exact_example = scaled-exact 4999 medium (omega arith)

partial_refund-exact_example : partial_refund 5999 50 ≡ 5999 * 50 / 100
partial_refund-exact_example = partial_refund-exact 5999 50 (omega arith)
