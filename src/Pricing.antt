-- ===== src/Pricing.antt =====
-- AppointmentCalculation, calculate_appointment_data and calculate_multi_appointment_data of
-- backend/domains/appointments/service.py, and the policy numbers of backend/app/core/config.py.
-- A datetime is a number of microseconds (UTC).
pub mod Exact
pub mod Totals
use raycarwash_project.Base.{ℕ, ◌+◌, ◌*◌, List, [], ◌∷◌}
use raycarwash_project.Float.{Double, of_ℕ, mul, ceil}
use raycarwash_project.Float as Float
use raycarwash_project.Catalog.{VehicleSize, size_multiplier, Service, Addon, Vehicle}

pub record Settings : Type 0 where
  pub travel_buffer_minutes : ℕ
  pub full_refund_hours : ℕ
  pub partial_refund_hours : ℕ
  pub partial_refund_percent : ℕ

-- `timedelta(minutes=m)` and `timedelta(hours=h)`
abbrev pub minutes : ℕ → ℕ
minutes m = m * 60000000

abbrev pub hours : ℕ → ℕ
hours h = h * 3600000000

pub record AppointmentCalculation : Type 0 where
  pub price_cents : ℕ
  pub duration_minutes : ℕ
  pub estimated_end_time : ℕ
  pub travel_buffer_end_time : ℕ
  pub multiplier : Double

-- `ceil(base * SIZE_MULTIPLIERS[size])`
unfoldable pub scaled : ℕ → VehicleSize → ℕ
scaled base size = ceil (mul (of_ℕ base) (size_multiplier size))

unfoldable pub calculate_appointment_data :
    Settings → Service → VehicleSize → ℕ → AppointmentCalculation
calculate_appointment_data settings service vehicle_size scheduled_time =
    let price = scaled service.base_price_cents vehicle_size in
    let duration = scaled service.base_duration_minutes vehicle_size in
    let end_time = scheduled_time + minutes duration in
    record {
      price_cents = price;
      duration_minutes = duration;
      estimated_end_time = end_time;
      travel_buffer_end_time = end_time + minutes settings.travel_buffer_minutes;
      multiplier = size_multiplier vehicle_size;
    }

-- the first loop of calculate_multi_appointment_data: price and duration over the vehicles
add_vehicles : Service → List (Vehicle × VehicleSize) → ℕ × ℕ → ℕ × ℕ
add_vehicles service [] total = total
add_vehicles service ((vehicle, size) ∷ rest) (price, duration) = add_vehicles service rest (
  price + scaled service.base_price_cents size,
  duration + scaled service.base_duration_minutes size,
)

-- the second loop: the add-ons
add_addons : List Addon → ℕ × ℕ → ℕ × ℕ
add_addons [] total = total
add_addons (addon ∷ rest) (price, duration) =
    add_addons rest (price + addon.price_cents, duration + addon.duration_minutes)

unfoldable pub calculate_multi_appointment_data :
    Service → List (Vehicle × VehicleSize) → List Addon → ℕ → ℕ → AppointmentCalculation
unfolding add_vehicles add_addons
calculate_multi_appointment_data service vehicles addons scheduled_time travel_buffer_minutes =
    let (price, duration) = add_addons addons (add_vehicles service vehicles (0, 0)) in
    let end_time = scheduled_time + minutes duration in
    record {
      price_cents = price;
      duration_minutes = duration;
      estimated_end_time = end_time;
      travel_buffer_end_time = end_time + minutes travel_buffer_minutes;
      multiplier = Float.of_ratio 1 1;
    }
