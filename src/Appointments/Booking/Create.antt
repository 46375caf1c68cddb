-- ===== src/Appointments/Booking/Create.antt =====
-- The second half of create_appointment: the overlap check under the detailer's lock, the rows, and
-- the guards before them (backend/domains/appointments/service.py; the constraints are those of
-- AppointmentVehicle and AppointmentAddon in backend/domains/appointments/models.py).
use raycarwash_project.Base.{
  ℕ, ◌+◌, ◌==◌, ltb, Bool, true, false, not, ◌&&◌, none, some, List, [], ◌∷◌, ◌++◌, map, any,
}
use raycarwash_project.Catalog.{Addon}
use raycarwash_project.Pricing.{scaled, minutes}
use raycarwash_project.Appointments.Status.{client, pending, has_role}
use raycarwash_project.Appointments.Queries.{get_overlapping_count}
use raycarwash_project.Appointments.Booking.{
  Entry, AppointmentCreate, Calc, get_active_detailer, load_services, load_vehicles, load_addons,
  calc_entries, total_price, total_duration,
}
use raycarwash_project.Store.{
  User, Appointment, AppointmentVehicle, AppointmentAddon, Env, http, integrity_error, index_error,
  M, ◌>>=◌, ◌>>◌, pure, raise, gets, or_raise, raise_if, modify, log, emit, fresh,
  appointment_created, created,
}

unfoldable pub vehicle_row : ℕ → Calc → AppointmentVehicle
vehicle_row appointment_id c = record {
  appointment_id = appointment_id;
  vehicle_id = c.vehicle.id;
  vehicle_size = c.size;
  price_cents = scaled c.service.base_price_cents c.size;
  duration_minutes = scaled c.service.base_duration_minutes c.size;
}

unfoldable pub addon_row : ℕ → Addon → AppointmentAddon
addon_row appointment_id a = record {
  appointment_id = appointment_id;
  addon_id = a.id;
  price_cents = a.price_cents;
  duration_minutes = a.duration_minutes;
}

-- the rows of the loop over per_entry_calcs
unfoldable pub vehicle_rows : ℕ → List Calc → List AppointmentVehicle
unfolding vehicle_row
vehicle_rows n [] = []
vehicle_rows n (c ∷ rest) = vehicle_row n c ∷ vehicle_rows n rest

unfoldable pub addon_rows : ℕ → List Calc → List AppointmentAddon
unfolding addon_row
addon_rows n [] = []
addon_rows n (c ∷ rest) = map (addon_row n) c.addons ++ addon_rows n rest

-- ck_appointment_vehicles_duration_positive and uq_appointment_vehicle_pair, among the new rows
unfoldable pub vehicles_accepted : List AppointmentVehicle → Bool
vehicles_accepted [] = true
vehicles_accepted (r ∷ rest) =
    ltb 0 r.duration_minutes
    && not (any (λ (q : AppointmentVehicle). q.vehicle_id == r.vehicle_id) rest)
    && vehicles_accepted rest

-- ck_appointment_addons_duration_positive and uq_appointment_addon_pair
unfoldable pub addons_accepted : List AppointmentAddon → Bool
addons_accepted [] = true
addons_accepted (r ∷ rest) =
    ltb 0 r.duration_minutes
    && not (any (λ (q : AppointmentAddon). q.addon_id == r.addon_id) rest)
    && addons_accepted rest

entry_vehicle_ids : List Entry → List ℕ
entry_vehicle_ids [] = []
entry_vehicle_ids (e ∷ rest) = e.vehicle_id ∷ entry_vehicle_ids rest

-- the new row of appointments
unfoldable pub new_appointment : ℕ → Env → AppointmentCreate → User → Calc → List Calc → Appointment
new_appointment n env payload actor first calcs =
    let end_time = payload.scheduled_time + minutes (total_duration calcs) in
    record {
      id = n;
      client_id = actor.id;
      detailer_id = some payload.detailer_id;
      vehicle_id = some first.vehicle.id;
      service_id = first.service.id;
      scheduled_time = payload.scheduled_time;
      estimated_end_time = some end_time;
      travel_buffer_end_time = some (end_time + minutes env.settings.travel_buffer_minutes);
      arrived_at = none;
      started_at = none;
      completed_at = none;
      status = pending;
      estimated_price = total_price calcs;
      actual_price = none;
      stripe_payment_intent_id = none;
      client_notes = payload.client_notes;
      detailer_notes = none;
      service_address = payload.service_address;
      is_deleted = false;
    }

first_calc : List Calc → M Calc
first_calc [] = raise index_error
first_calc (c ∷ _) = pure c

-- from `created = …create(appointment)` to the end
unfoldable pub insert_booking :
    Env → AppointmentCreate → User → Appointment → List Calc → M Appointment
unfolding vehicle_rows addon_rows vehicles_accepted addons_accepted entry_vehicle_ids
insert_booking env payload actor row calcs = do
  modify (λ d. record d { appointments = d.appointments ++ (row ∷ []) })
  raise_if
      (not (
        vehicles_accepted (vehicle_rows row.id calcs) && addons_accepted (addon_rows row.id calcs)))
      integrity_error
  modify (λ d. record d {
    appointment_vehicles = d.appointment_vehicles ++ vehicle_rows row.id calcs;
    appointment_addons = d.appointment_addons ++ addon_rows row.id calcs;
  })
  log (
      appointment_created row.id actor.id (entry_vehicle_ids payload.vehicles) (total_price calcs)
        (total_duration calcs))
  modify (λ d. record d {
    status_history =
        d.status_history
        ++ (record {
          appointment_id = row.id;
          old_status = none;
          new_status = pending;
          actor_id = some actor.id;
          reason = none;
          price_cents = some (total_price calcs);
          refund = none;
        }
            ∷ []);
  })
  emit (created row.id actor.id payload.detailer_id payload.scheduled_time)
  pure row

-- the check under the lock and the insertion
unfoldable pub book_slot : Env → AppointmentCreate → User → List Calc → M Appointment
unfolding first_calc
book_slot env payload actor calcs = do
  let end_time = payload.scheduled_time + minutes (total_duration calcs)
  count ← gets (
      get_overlapping_count payload.detailer_id payload.scheduled_time
        (end_time + minutes env.settings.travel_buffer_minutes))
  raise_if (ltb 0 count) (http 409)
  first ← first_calc calcs
  n ← fresh
  insert_booking env payload actor (new_appointment n env payload actor first calcs) calcs

unfoldable pub create_appointment : Env → AppointmentCreate → User → M Appointment
create_appointment env payload actor = do
  raise_if (not (has_role client actor.roles)) (http 400)
  raise_if (payload.detailer_id == actor.id) (http 400)
  or_raise (← gets (get_active_detailer payload.detailer_id)) (http 404)
  services ← load_services payload.vehicles
  vehicles ← load_vehicles actor.id payload.vehicles
  rows ← load_addons payload.vehicles
  calcs ← calc_entries services vehicles rows payload.vehicles
  book_slot env payload actor calcs
