-- ===== src/Rides/Fares/Tests.antt =====
-- A stored fare and its booking.
use raycarwash_project.Base.{ℕ, ◌≡◌, refl, true, false, none, some, List, [], ◌∷◌}
use raycarwash_project.Float.{of_ratio}
use raycarwash_project.Catalog.{small}
use raycarwash_project.Payments.Ledger.{PaymentProcessor}
use raycarwash_project.Rides.{FareEstimate, Rides}
use raycarwash_project.Rides.Fares.{Threshold, calculate_surge}

abbrev pub a_processor : PaymentProcessor
a_processor = record {
  authorize_call = λ _ _. some 1;
  capture_call = λ _ _. some 1;
  payout_call = λ _ _. some 1;
}

-- a stand-in for the HMAC that tells keys apart
abbrev pub by_key : ℕ → ℕ → ℕ → ℕ
by_key id price expires_at = id

abbrev pub a_fare : FareEstimate
a_fare = record {
  id = 3;
  client_id = 7;
  service_id = 1;
  vehicle_sizes = small ∷ [];
  base_price_cents = 2000;
  surge_multiplier = of_ratio 15 10;
  estimated_price_cents = 3000;
  nearby_detailers_count = 3;
  fare_token = 3;
  expires_at = 1000;
}

abbrev pub empty_rides : Rides
empty_rides = record {
  next_id = 4;
  services = [];
  fares = a_fare ∷ [];
  appointments = [];
  assignments = [];
  ledger = [];
  queue = [];
  events = λ _ _. none;
  responses = λ _ _. none;
  locks = λ _. false;
}

abbrev default_thresholds : List Threshold
default_thresholds =
    record { max_count = some 2; multiplier = of_ratio 2 1 }
    ∷ record { max_count = none; multiplier = of_ratio 1 1 }
    ∷ record { max_count = some 4; multiplier = of_ratio 15 10 }
    ∷ []

-- detailer 2 is a member of two cells and counts once
three_active :
    calculate_surge default_thresholds ((1 ∷ 2 ∷ []) ∷ (2 ∷ 3 ∷ []) ∷ []) (λ _. true)
    ≡ (of_ratio 15 10, 3)
unfolding calculate_surge
three_active = refl
