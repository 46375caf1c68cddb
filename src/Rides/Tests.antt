-- ===== src/Rides/Tests.antt =====
-- An estimate and its booking, with other requests in between.
use raycarwash_project.Base.{◌+◌, ◌≡◌, refl, true, false, some, List, [], ◌∷◌, leb, if◌then◌else◌}
use raycarwash_project.Float.{ceil, mul, of_ratio, round_div, of_ℕ, find_shift}
use raycarwash_project.Catalog.{Service, small, large}
use raycarwash_project.Store.{err, http}
use raycarwash_project.Rides.{FareEstimate, Rides}
use raycarwash_project.Rides.Fares.{EstimateRequest, estimate_fare, request_ride}
use raycarwash_project.Rides.Fares.Tests.{empty_rides, a_processor, by_key}
use raycarwash_project.Rides.Acts.{Act, estimates, requests, exhausts, perform_all}
use raycarwash_project.Rides.Booked.{outcome, booked_at, request_ride-estimate_fare}

abbrev full_wash : Service
full_wash = record {
  id = 1;
  base_price_cents = 2000;
  base_duration_minutes = 60;
  price_small = 2000;
  price_medium = 2400;
  price_large = 3001;
  price_xl = 4000;
  is_active = true;
  is_deleted = false;
}

abbrev opening : Rides
opening = record empty_rides { services = full_wash ∷ []; fares = [] }

abbrev one_small : EstimateRequest
one_small = record { service_id = 1; vehicle_sizes = small ∷ [] }

abbrev two_vehicles : EstimateRequest
two_vehicles = record { service_id = 1; vehicle_sizes = small ∷ large ∷ [] }

abbrev first_estimate : List Act
first_estimate = estimates 10 6 one_small (of_ratio 1 1, 5) ∷ []

abbrev meanwhile : List Act
meanwhile =
    estimates 120 7 one_small (of_ratio 2 1, 1)
    ∷ requests 130 6 (some 4)
    ∷ exhausts 7
    ∷ requests 140 6 (some 99)
    ∷ []

-- 50.01 at 1.5, rounded up
abbrev an_estimate : FareEstimate
an_estimate = record {
  id = 5;
  client_id = 7;
  service_id = 1;
  vehicle_sizes = small ∷ large ∷ [];
  base_price_cents = 5001;
  surge_multiplier = of_ratio 15 10;
  estimated_price_cents = 7502;
  nearby_detailers_count = 3;
  fare_token = 5;
  expires_at = 1000;
}

request_ride-estimate_fare_example :
    let s = perform_all by_key a_processor first_estimate opening in
    let t =
      perform_all by_key a_processor meanwhile
        (estimate_fare by_key 100 7 two_vehicles (of_ratio 15 10, 3) s).1 in
    outcome (request_ride by_key a_processor 1000 7 (some 5) t) ≡ (
      if leb 1000 (100 + 900)
      then booked_at a_processor 7 1 7502 t
      else outcome (err (http 400), t))
unfolding estimate_fare ceil mul of_ratio round_div of_ℕ find_shift
request_ride-estimate_fare_example =
    request_ride-estimate_fare by_key a_processor first_estimate meanwhile opening 100 7 1000 7
      two_vehicles (of_ratio 15 10, 3) an_estimate (λ i j p q t u same. same) refl refl
