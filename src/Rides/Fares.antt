-- ===== src/Rides/Fares.antt =====
-- calculate_surge, generate_fare_token and verify_fare_token of
-- backend/domains/payments/fare_service.py, POST /fares/estimate of fare_router.py and
-- POST /rides/request of rides_router.py beside it. The HMAC under the server's key is a parameter,
-- the digest of a fare's id, price and expiry; so are the answers of Redis.

mod Surge
pub mod Booking
pub mod Tests
use raycarwash_project.Base.{
  ℕ, suc, ◌+◌, Bool, true, false, not, ◌&&◌, ◌||◌, Option, none, some, List, [], ◌∷◌, ◌++◌, ltb,
  leb, ◌==◌, if◌then◌else◌, any, count_where, find_where, sum_by,
}
use raycarwash_project.Float.{Double, of_ratio, of_ℕ, mul, ceil}
use raycarwash_project.Catalog.{Service, VehicleSize, small, medium, large, xl}
use raycarwash_project.Store.{Appointment, Error, http, Result, ok, err}
use raycarwash_project.Appointments.Status.{searching}
use raycarwash_project.Payments.Ledger.{PaymentProcessor, authorize}
use raycarwash_project.Rides.{FareEstimate, Rides}

-- An entry (max_count, multiplier) of SURGE_THRESHOLDS; none is float("inf").
pub record Threshold : Type 0 where
  pub max_count : Option ℕ
  pub multiplier : Double

-- `x <= y` on the counts
abbrev pub within : Option ℕ → Option ℕ → Bool
within _ none = true
within none (some b) = false
within (some a) (some b) = leb a b

-- `sorted(..., key=lambda t: t[0])`, which keeps the order of equal keys
abbrev pub insert_threshold : Threshold → List Threshold → List Threshold
insert_threshold t [] = t ∷ []
insert_threshold t (u ∷ us) =
    let rest = insert_threshold t us in
    if within t.max_count u.max_count then t ∷ u ∷ us else u ∷ rest

abbrev pub sort_thresholds : List Threshold → List Threshold
sort_thresholds [] = []
sort_thresholds (t ∷ ts) = insert_threshold t (sort_thresholds ts)

abbrev pub first_threshold : ℕ → List Threshold → Double
first_threshold active_count [] = of_ratio 1 1
first_threshold active_count (t ∷ ts) =
    if within (some active_count) t.max_count then t.multiplier else first_threshold active_count ts

-- `set.update`
abbrev pub add_member : ℕ → List ℕ → List ℕ
add_member x xs = if any (λ y. y == x) xs then xs else x ∷ xs

abbrev pub add_members : List ℕ → List ℕ → List ℕ
add_members [] seen = seen
add_members (x ∷ xs) seen = add_members xs (add_member x seen)

abbrev pub all_detailers : List (List ℕ) → List ℕ → List ℕ
all_detailers [] seen = seen
all_detailers (members ∷ results) seen = all_detailers results (add_members members seen)

-- `members_of_cells` is the answer for each cell around the client, `is_active` the flag of a
-- detailer.
unfoldable pub calculate_surge : List Threshold → List (List ℕ) → (ℕ → Bool) → Double × ℕ
calculate_surge thresholds members_of_cells is_active =
    let active_count = count_where is_active (all_detailers members_of_cells []) in
    (first_threshold active_count (sort_thresholds thresholds), active_count)

abbrev pub size_field : Service → VehicleSize → ℕ
size_field s small = s.price_small
size_field s medium = s.price_medium
size_field s large = s.price_large
size_field s xl = s.price_xl

-- FARE_TTL_SECONDS
abbrev pub fare_ttl_seconds : ℕ
fare_ttl_seconds = 900

pub record EstimateRequest : Type 0 where
  pub service_id : ℕ
  pub vehicle_sizes : List VehicleSize

-- the new row; the vehicle and the times that a booking has are left out
abbrev pub ride_of : ℕ → ℕ → FareEstimate → ℕ → Appointment
ride_of now client fare id = record {
  id = id;
  client_id = client;
  detailer_id = none;
  vehicle_id = none;
  service_id = fare.service_id;
  scheduled_time = now;
  estimated_end_time = none;
  travel_buffer_end_time = none;
  arrived_at = none;
  started_at = none;
  completed_at = none;
  status = searching;
  estimated_price = fare.estimated_price_cents;
  actual_price = none;
  stripe_payment_intent_id = none;
  client_notes = none;
  detailer_notes = none;
  service_address = none;
  is_deleted = false;
}

-- The row is committed before the authorization, so it stays when the processor raises; the ride
-- is then not queued.
unfoldable pub open_ride : PaymentProcessor → ℕ → ℕ → FareEstimate → Rides → Result ℕ × Rides
open_ride processor now client fare s =
    let (r, ledger) = authorize processor s.next_id fare.estimated_price_cents s.ledger in
    let s' = record s {
      next_id = suc s.next_id;
      appointments = s.appointments ++ (ride_of now client fare s.next_id ∷ []);
      ledger = ledger;
    } in
    elim r [
      | err e ↦ (err e, s')
      | ok _ ↦ (ok s.next_id, record s' { queue = s'.queue ++ (s.next_id ∷ []) })
    ]

module _ (hmac : ℕ → ℕ → ℕ → ℕ) where
  unfoldable pub verify_fare_token : ℕ → ℕ → ℕ → ℕ → ℕ → Bool
  verify_fare_token now token fare_id price_cents expires_at =
      not (ltb expires_at now) && hmac fare_id price_cents expires_at == token

  abbrev pub add_fare :
      ℕ → ℕ → EstimateRequest → Service → Double × ℕ → Rides → FareEstimate × Rides
  add_fare now client payload service (surge, nearby) s =
      let base = sum_by (size_field service) payload.vehicle_sizes in
      let price = ceil (mul (of_ℕ base) surge) in
      let expires_at = now + fare_ttl_seconds in
      let fare : FareEstimate = record {
        id = s.next_id;
        client_id = client;
        service_id = payload.service_id;
        vehicle_sizes = payload.vehicle_sizes;
        base_price_cents = base;
        surge_multiplier = surge;
        estimated_price_cents = price;
        nearby_detailers_count = nearby;
        fare_token = hmac s.next_id price expires_at;
        expires_at = expires_at;
      } in
      (fare, record s { next_id = suc s.next_id; fares = s.fares ++ (fare ∷ []) })

  unfoldable pub estimate_fare :
      ℕ → ℕ → EstimateRequest → Double × ℕ → Rides → Result FareEstimate × Rides
  estimate_fare now client payload surge s =
      elim (find_where (λ x. x.id == payload.service_id && x.is_active) s.services) [
        | none ↦ (err (http 404), s)
        | some service ↦
            let (fare, s') = add_fare now client payload service surge s in (ok fare, s')
      ]

  unfoldable pub request_ride : PaymentProcessor → ℕ → ℕ → Option ℕ → Rides → Result ℕ × Rides
  request_ride processor now client none s = (err (http 400), s)
  request_ride processor now client (some token) s =
      elim (find_where (λ f. f.fare_token == token) s.fares) [
        | none ↦ (err (http 404), s)
        | some fare ↦
            if verify_fare_token now token fare.id fare.estimated_price_cents fare.expires_at
            then open_ride processor now client fare s
            else (err (http 400), s)
      ]
