-- ===== src/Appointments/Booking/Breakdown.antt =====
-- The price and the length of a booking against the rows that list its vehicles and add-ons.
use raycarwash_project.Base.{ℕ, ◌+◌, ◌≡◌, some, sum_by}
use raycarwash_project.Pricing.{scaled, minutes}
use raycarwash_project.Appointments.Booking.{Calc, sum_price, sum_duration}
use raycarwash_project.Store.{Appointment, AppointmentVehicle, AppointmentAddon, World, Env, Db}

-- The cents and the minutes that the rows of all bookings list.
abbrev pub listed_price : Db → ℕ
listed_price d =
    sum_by (λ (r : AppointmentVehicle). r.price_cents) d.appointment_vehicles
    + sum_by (λ (r : AppointmentAddon). r.price_cents) d.appointment_addons

abbrev pub listed_minutes : Db → ℕ
listed_minutes d =
    sum_by (λ (r : AppointmentVehicle). r.duration_minutes) d.appointment_vehicles
    + sum_by (λ (r : AppointmentAddon). r.duration_minutes) d.appointment_addons

-- A priced entry is its scaled service and its add-ons.
abbrev Priced : Calc → Type 0
Priced c =
    (c.price ≡ scaled c.service.base_price_cents c.size + sum_price c.addons)
    × (c.duration ≡ scaled c.service.base_duration_minutes c.size + sum_duration c.addons)

-- A booking with priced entries lists them.
abbrev pub Listed : Env → World → Appointment → World → Type 0
Listed env w row w' =
    (listed_price w'.db ≡ listed_price w.db + row.estimated_price)
    × (m : ℕ) × (listed_minutes w'.db ≡ listed_minutes w.db + m)
    × (row.estimated_end_time ≡ some (row.scheduled_time + minutes m))
    × (row.travel_buffer_end_time
        ≡ some (row.scheduled_time + minutes m + minutes env.settings.travel_buffer_minutes))
