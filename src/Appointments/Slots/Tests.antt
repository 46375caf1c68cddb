-- ===== src/Appointments/Slots/Tests.antt =====
-- One working day, in a zone that is UTC.
use raycarwash_project.Base.{
  ℕ, ◌+◌, ◌*◌, ◌≡◌, refl, inl, Bool, List, none, some, [], ◌∷◌, arith, true, false,
}
use raycarwash_project.Float.{ceil, mul, of_ratio, round_div, of_ℕ, find_shift}
use raycarwash_project.Catalog.{Service, small, size_multiplier}
use raycarwash_project.Pricing.{minutes, hours, scaled, calculate_appointment_data}
use raycarwash_project.Appointments.Status.{confirmed}
use raycarwash_project.Appointments.Queries.{
  get_overlapping_count, get_active_for_detailer_on_date, sort_rows, insert_row,
}
use raycarwash_project.Appointments.Slots.{
  TimeSlot, slots_from, slot_fuel, slot_available, any_occupied, DayConfig, Zones, day_window,
  day_slots, work_start_of, work_end_of, occupied_of, service_minutes,
}
use raycarwash_project.Appointments.Slots.Day.{DayGrid, day_slots-Grid}
use raycarwash_project.Appointments.Slots.Bookable.{slot-bookable}
use raycarwash_project.Store.{Appointment, Db, Env}

abbrev utc : Zones
utc = record {
  to_utc = λ name date (h, m). hours (24 * date + h) + minutes m;
  midnight = λ date. hours (24 * date);
  weekday = λ date. 0;
}

abbrev nine_to_five : DayConfig
nine_to_five = record { enabled = some true; start = some (9, 0); finish = some (17, 0) }

abbrev noon_booking : Appointment
noon_booking = record {
  id = 50;
  client_id = 1;
  detailer_id = some 2;
  vehicle_id = none;
  service_id = 10;
  scheduled_time = hours 36;
  estimated_end_time = some (hours 37);
  travel_buffer_end_time = some (hours 38);
  arrived_at = none;
  started_at = none;
  completed_at = none;
  status = confirmed;
  estimated_price = 5999;
  actual_price = none;
  stripe_payment_intent_id = none;
  client_notes = none;
  detailer_notes = none;
  service_address = none;
  is_deleted = false;
}

abbrev a_db : Db
a_db = record {
  next_id = 100;
  users = [];
  services = [];
  vehicles = [];
  addons = [];
  appointments = noon_booking ∷ [];
  appointment_vehicles = [];
  appointment_addons = [];
  status_history = [];
  cancellations = [];
  audit_log = [];
}

abbrev an_env : Env
an_env = record {
  settings = record {
    travel_buffer_minutes = 30;
    full_refund_hours = 24;
    partial_refund_hours = 2;
    partial_refund_percent = 50;
  };
  is_stub_key = true;
  now = hours 20;
  stripe = record {
    customer_create = λ _. none;
    intent_create = λ _ _. none;
    intent_retrieve = λ _. none;
    intent_capture = λ _ _. none;
    intent_cancel = λ _ _. none;
    refund_create = λ _ _ _. none;
  };
  stub_intent = λ _. "pi_stub_1";
  stub_secret = λ _. "secret";
  stub_refund = λ _. "re_stub";
  stub_customer = λ _. "cus_stub";
}

day_slots-Grid_example : DayGrid utc an_env a_db 2 1 none nine_to_five none (some 60)
unfolding day_window occupied_of get_active_for_detailer_on_date sort_rows insert_row
day_slots-Grid_example = day_slots-Grid utc an_env a_db 2 1 none nine_to_five none (some 60) tt

-- One hour of work at any size below, and half an hour of buffer.
abbrev hour_wash : Service
hour_wash = record {
  id = 10;
  base_price_cents = 5999;
  base_duration_minutes = 60;
  price_small = 5999;
  price_medium = 6999;
  price_large = 7999;
  price_xl = 8999;
  is_active = true;
  is_deleted = false;
}

abbrev with_service : Db
with_service = record a_db { services = hour_wash ∷ [] }

abbrev two_hours : DayConfig
two_hours = record { enabled = some true; start = some (10, 0); finish = some (12, 0) }

abbrev half_hour : Bool → ℕ → TimeSlot
half_hour free start = record {
  start_time = start;
  end_time = start + minutes 30;
  is_available = free;
}

-- at 11:00 the buffer would reach beyond the working hours
abbrev morning : List TimeSlot
morning =
    half_hour true (hours 34)
    ∷ half_hour true (hours 34 + minutes 30)
    ∷ half_hour false (hours 35)
    ∷ half_hour false (hours 35 + minutes 30)
    ∷ []

slot-bookable_example :
    get_overlapping_count 2
      (hours 34)
      (hours 34 + minutes (scaled 60 small) + minutes 30)
      with_service
    ≡ 0
unfolding day_window day_slots occupied_of get_active_for_detailer_on_date sort_rows insert_row
    service_minutes work_start_of work_end_of slots_from slot_fuel slot_available any_occupied
    calculate_appointment_data scaled ceil mul of_ratio round_div of_ℕ find_shift size_multiplier
slot-bookable_example =
    slot-bookable utc an_env with_service 2 1 none two_hours 10 small hour_wash morning
      (half_hour true (hours 34)) (omega arith, omega arith)
      ((λ _ early. absurd (omega (arith, early))), tt) refl refl (inl refl) refl
