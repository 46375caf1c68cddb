-- ===== src/Appointments/Booking/Safety.antt =====
-- create_appointment never books a detailer twice.
use raycarwash_project.Base.{
  ℕ, ◌+◌, ◌≡◌, refl, suc, ltb, some, List, [], ◌∷◌, ◌++◌, inl, inr, arith, Bool-cases,
}
use raycarwash_project.Catalog.{Service, Vehicle, Addon}
use raycarwash_project.Pricing.{minutes}
use raycarwash_project.Appointments.Queries.{get_overlapping_count}
use raycarwash_project.Appointments.Calendar.{IsValid, Hold, holds, append-IsValid}
use raycarwash_project.Appointments.Booking.{
  Entry, AppointmentCreate, Calc, load_services, load_vehicles, load_addons, calc_entries,
  total_duration,
}
use raycarwash_project.Appointments.Booking.Create.{
  new_appointment, insert_booking, book_slot, create_appointment,
}
use raycarwash_project.Store.{User, Appointment, World, Env, Result, ◌>>=◌, request}
use raycarwash_project.Store.Frames.{Reads, bind-Reads, or_raise-Reads, request-keeps}

-- The invariant of the world that a step leaves behind.
abbrev pub Safe : {A : Type 0} → Result A × World → Type 0
Safe r = IsValid r.1.db

-- Every result of the insertion has the new row in the table, also where a constraint fails.
insert_booking-rows :
    (env : Env) (payload : AppointmentCreate) (actor : User) (row : Appointment) (calcs : List Calc)
    (w : World)
    → let d = (insert_booking env payload actor row calcs w).1.db in
      (d.appointments ≡ w.db.appointments ++ row ∷ []) × (d.next_id ≡ w.db.next_id)
unfolding insert_booking ◌>>=◌
insert_booking-rows env payload actor row calcs w = ground arith

new_appointment-holds :
    (n : ℕ) (env : Env) (payload : AppointmentCreate) (actor : User) (c : Calc) (calcs : List Calc)
    → holds (new_appointment n env payload actor c calcs)
      ≡ some (record {
        detailer = payload.detailer_id;
        start = payload.scheduled_time;
        finish =
            payload.scheduled_time
            + minutes (total_duration calcs)
            + minutes env.settings.travel_buffer_minutes;
      })
unfolding holds new_appointment
new_appointment-holds n env payload actor c calcs = refl

abbrev interval_end : Env → AppointmentCreate → List Calc → ℕ
interval_end env payload calcs =
    payload.scheduled_time
    + minutes (total_duration calcs)
    + minutes env.settings.travel_buffer_minutes

abbrev pub conflicts : Env → AppointmentCreate → List Calc → World → ℕ
conflicts env payload calcs w =
    get_overlapping_count payload.detailer_id payload.scheduled_time
      (interval_end env payload calcs) w.db

-- With the row of the new booking appended to a free calendar, the invariant holds.
pub book_slot-Safe :
    (env : Env) (payload : AppointmentCreate) (actor : User) (calcs : List Calc) (w : World)
    → IsValid w.db
    → Safe (book_slot env payload actor calcs w)
unfolding book_slot new_appointment ◌>>=◌
book_slot-Safe env payload actor [] w v = elim (Bool-cases (ltb 0 (conflicts env payload [] w))) [
  | inl e ↦ rw e v
  | inr e ↦ rw e v
]
book_slot-Safe env payload actor (c ∷ cs) w v =
    elim (Bool-cases (ltb 0 (conflicts env payload (c ∷ cs) w))) [
      | inl e ↦ rw e v
      | inr e ↦ rw e (
          append-IsValid row hold w.db (insert_booking env payload actor row (c ∷ cs) w').1.db v
            (new_appointment-holds w.db.next_id env payload actor c (c ∷ cs)) (ground arith) refl
            frame.1 frame.0)
    ]
  where
    row : Appointment
    row = new_appointment w.db.next_id env payload actor c (c ∷ cs)

    hold : Hold
    hold = record {
      detailer = payload.detailer_id;
      start = payload.scheduled_time;
      finish = interval_end env payload (c ∷ cs);
    }

    w' : World
    w' = record w { db = record w.db { next_id = suc w.db.next_id } }

    frame :
        let d = (insert_booking env payload actor row (c ∷ cs) w').1.db in
        (d.appointments ≡ w.db.appointments ++ row ∷ []) × (d.next_id ≡ suc w.db.next_id)
    frame = insert_booking-rows env payload actor row (c ∷ cs) w'

-- The look-ups leave the world alone.
abbrev Same : {A : Type 0} → World → Result A × World → Type 0
Same w r = r.1 ≡ w

pub load_services-Reads : (es : List Entry) → Reads (load_services es)
unfolding load_services
load_services-Reads [] w = refl
load_services-Reads (e ∷ es) w =
    bind-Reads (Same w) _ _ w (λ v. refl) (λ x. refl)
      (λ o.
        bind-Reads (Same w) _ _ w (or_raise-Reads o _) (λ x. refl)
          (λ s. bind-Reads (Same w) _ _ w (load_services-Reads es) (λ x. refl) (λ more. refl)))

pub load_vehicles-Reads : (n : ℕ) (es : List Entry) → Reads (load_vehicles n es)
unfolding load_vehicles
load_vehicles-Reads n [] w = refl
load_vehicles-Reads n (e ∷ es) w =
    bind-Reads (Same w) _ _ w (λ v. refl) (λ x. refl)
      (λ o.
        bind-Reads (Same w) _ _ w (or_raise-Reads o _) (λ x. refl)
          (λ v.
            bind-Reads (Same w) _ _ w (λ v. refl) (λ x. refl)
              (λ u.
                bind-Reads (Same w) _ _ w (load_vehicles-Reads n es) (λ x. refl) (λ more. refl))))

pub load_addons-Reads : (es : List Entry) → Reads (load_addons es)
unfolding load_addons ◌>>=◌
load_addons-Reads es w = ground arith

pub calc_entries-Reads :
    (ss : List Service) (vs : List Vehicle) (rows : List Addon) (es : List Entry)
    → Reads (calc_entries ss vs rows es)
unfolding calc_entries
calc_entries-Reads ss vs rows [] w = refl
calc_entries-Reads ss vs rows (e ∷ es) w =
    bind-Reads (Same w) _ _ w (or_raise-Reads _ _) (λ x. refl)
      (λ c. bind-Reads (Same w) _ _ w (calc_entries-Reads ss vs rows es) (λ x. refl) (λ more. refl))

create_appointment-Safe :
    (env : Env) (payload : AppointmentCreate) (actor : User) (w : World)
    → IsValid w.db
    → Safe (create_appointment env payload actor w)
unfolding create_appointment
create_appointment-Safe env payload actor w v =
    bind-Reads Safe _ _ w (λ v. refl) (λ x. v)
      (λ u.
        bind-Reads Safe _ _ w (λ v. refl) (λ x. v)
          (λ u.
            bind-Reads Safe _ _ w (λ v. refl) (λ x. v)
              (λ o.
                bind-Reads Safe _ _ w (or_raise-Reads o _) (λ x. v)
                  (λ found.
                    bind-Reads Safe _ _ w (load_services-Reads payload.vehicles) (λ x. v)
                      (λ ss.
                        bind-Reads Safe _ _ w (load_vehicles-Reads actor.id payload.vehicles)
                          (λ x. v)
                          (λ vs.
                            bind-Reads Safe _ _ w (load_addons-Reads payload.vehicles) (λ x. v)
                              (λ rows.
                                bind-Reads Safe _ _ w
                                  (calc_entries-Reads ss vs rows payload.vehicles) (λ x. v)
                                  (λ calcs. book_slot-Safe env payload actor calcs w v))))))))

-- A booking request that finds the calendar valid, with distinct keys below the counter and no two
-- active appointments of one detailer overlapping (travel buffer included), leaves it valid: whatever
-- the payload and the actor, and whether the request succeeds or fails.
pub create_appointment-IsValid :
    (env : Env) (payload : AppointmentCreate) (actor : User) (w : World)
    → IsValid w.db
    → IsValid (request (create_appointment env payload actor) w).1.db
create_appointment-IsValid env payload actor w v =
    request-keeps IsValid (create_appointment env payload actor) w v
      (create_appointment-Safe env payload actor w v)
