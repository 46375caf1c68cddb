-- ===== src/Pricing/Totals.antt =====
-- calculate_multi_appointment_data against sums over its vehicles and add-ons.
use raycarwash_project.Base.{ℕ, ◌+◌, ◌≡◌, refl, List, [], ◌∷◌, sum_by, arith}
use raycarwash_project.Catalog.{VehicleSize, Service, Addon, Vehicle}
use raycarwash_project.Pricing.{
  Settings, AppointmentCalculation, minutes, scaled, calculate_appointment_data,
  calculate_multi_appointment_data, add_vehicles, add_addons,
}

abbrev pub vehicle_price : Service → Vehicle × VehicleSize → ℕ
vehicle_price service (vehicle, size) = scaled service.base_price_cents size

abbrev pub vehicle_minutes : Service → Vehicle × VehicleSize → ℕ
vehicle_minutes service (vehicle, size) = scaled service.base_duration_minutes size

add_vehicles-sums :
    (service : Service) (vehicles : List (Vehicle × VehicleSize)) (price duration : ℕ)
    → let r = add_vehicles service vehicles (price, duration) in
      (r.0 ≡ price + sum_by (vehicle_price service) vehicles)
      × (r.1 ≡ duration + sum_by (vehicle_minutes service) vehicles)
unfolding add_vehicles
add_vehicles-sums service [] price duration = (omega arith, omega arith)
add_vehicles-sums service ((v, size) ∷ rest) price duration =
    let more =
      add_vehicles-sums service rest (price + scaled service.base_price_cents size)
        (duration + scaled service.base_duration_minutes size) in
    (omega (arith, more.0), omega (arith, more.1))

add_addons-sums :
    (addons : List Addon) (price duration : ℕ)
    → let r = add_addons addons (price, duration) in
      (r.0 ≡ price + sum_by (λ (a : Addon). a.price_cents) addons)
      × (r.1 ≡ duration + sum_by (λ (a : Addon). a.duration_minutes) addons)
unfolding add_addons
add_addons-sums [] price duration = (omega arith, omega arith)
add_addons-sums (a ∷ rest) price duration =
    let more = add_addons-sums rest (price + a.price_cents) (duration + a.duration_minutes) in
    (omega (arith, more.0), omega (arith, more.1))

-- A calculation is the sums over vehicles and add-ons, and ends after them and the buffer.
abbrev pub IsSum :
    Settings
    → Service
    → List (Vehicle × VehicleSize)
    → List Addon
    → ℕ
    → AppointmentCalculation
    → Type 0
IsSum settings service vehicles addons start r =
    (r.price_cents
      ≡ sum_by (vehicle_price service) vehicles + sum_by (λ (a : Addon). a.price_cents) addons)
    × (r.duration_minutes
        ≡ sum_by (vehicle_minutes service) vehicles
          + sum_by (λ (a : Addon). a.duration_minutes) addons)
    × (r.estimated_end_time ≡ start + minutes r.duration_minutes)
    × (r.travel_buffer_end_time ≡ r.estimated_end_time + minutes settings.travel_buffer_minutes)

-- Two calculations agree up to the multiplier.
abbrev pub Agrees : AppointmentCalculation → AppointmentCalculation → Type 0
Agrees r s =
    (r.price_cents ≡ s.price_cents)
    × (r.duration_minutes ≡ s.duration_minutes)
    × (r.estimated_end_time ≡ s.estimated_end_time)
    × (r.travel_buffer_end_time ≡ s.travel_buffer_end_time)

-- The price and the duration of several vehicles with add-ons are the sums of the single vehicles'
-- and the add-ons'; the end is that much after the start, and the buffer's end the buffer later. For one
-- vehicle without add-ons all four are those of calculate_appointment_data.
pub calculate_multi_appointment_data-IsSum :
    (settings : Settings) (service : Service) (vehicles : List (Vehicle × VehicleSize))
    (addons : List Addon) (start : ℕ) (vehicle : Vehicle) (size : VehicleSize)
    → IsSum settings service vehicles addons start (
        calculate_multi_appointment_data service vehicles addons start
          settings.travel_buffer_minutes)
      × Agrees
          (calculate_multi_appointment_data service
            ((vehicle, size) ∷ [])
            []
            start
            settings.travel_buffer_minutes)
          (calculate_appointment_data settings service size start)
unfolding calculate_multi_appointment_data calculate_appointment_data
calculate_multi_appointment_data-IsSum settings service vehicles addons start vehicle size =
    let v = add_vehicles-sums service vehicles 0 0 in
    let a =
      add_addons-sums addons (add_vehicles service vehicles (0, 0)).0
        (add_vehicles service vehicles (0, 0)).1 in
    (
      (omega (arith, v.0, a.0), omega (arith, v.1, a.1), refl, refl),
      (omega arith, omega arith, omega arith, omega arith),
    )
