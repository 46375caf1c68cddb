-- ===== src/Rides/Booked.antt =====
-- A fare that was estimated can be booked, at its price and until it expires.
use raycarwash_project.Base.{
  ℕ, ◌+◌, ◌<◌, ◌≡◌, refl, sym, ap, ◌∙◌, subst, inl, inr, ◌&&◌, some, List, [], ◌∷◌, ◌++◌, ◌==◌,
  arith, leb, if◌then◌else◌, map, Option-cases, Bool-cases, All, find_where,
}
use raycarwash_project.Float.{Double}
use raycarwash_project.Store.{Appointment, Result, ok, err, http, Result-cases}
use raycarwash_project.Appointments.Status.{Status, searching}
use raycarwash_project.Payments.Ledger.{PaymentProcessor, PaymentLedger, authorize}
use raycarwash_project.Rides.{FareEstimate, Rides}
use raycarwash_project.Rides.Fares.{
  EstimateRequest, add_fare, estimate_fare, open_ride, request_ride,
}
use raycarwash_project.Rides.Fares.Booking.{
  IsIn, CollisionFree, IsSigned, Distinct, estimate_fare-Signed, request_ride-fare,
}
use raycarwash_project.Rides.Acts.{Act, perform_all}
use raycarwash_project.Rides.Carried.{perform_all-Signed, perform_all-Holds}

IsIn-last : (fs : List FareEstimate) (f : FareEstimate) → IsIn f (fs ++ f ∷ [])
IsIn-last [] f = inl refl
IsIn-last (g ∷ fs) f = inr (IsIn-last fs f)

module _ (hmac : ℕ → ℕ → ℕ → ℕ) where
  -- What an estimate answers.
  estimated :
      (now client : ℕ) (payload : EstimateRequest) (surge : Double × ℕ) (fare : FareEstimate)
      (s : Rides)
      → (estimate_fare hmac now client payload surge s).0 ≡ ok fare
      → IsIn fare (estimate_fare hmac now client payload surge s).1.fares
        × (fare.expires_at ≡ now + 900)
        × (fare.service_id ≡ payload.service_id)
  unfolding estimate_fare
  estimated now client payload surge fare s h =
      elim (Option-cases (find_where (λ x. x.id == payload.service_id && x.is_active) s.services)) [
        | inl n ↦ absurd (ground (arith, rw (n, estimate_fare) at h))
        | inr (service, e) ↦
            let new = (add_fare hmac now client payload service surge s).0 in
            let same : new ≡ fare = ground (arith, rw (e, estimate_fare) at h) in
            rw (e, estimate_fare)
              (
                subst (λ f. IsIn f (s.fares ++ new ∷ [])) same (IsIn-last s.fares new),
                sym (ap (λ f. f.expires_at) same),
                sym (ap (λ f. f.service_id) same),
              )
      ]

-- who has which service booked, in which status and at which price
abbrev pub booking_of : Appointment → ℕ × ℕ × Status × ℕ
booking_of x = (x.client_id, x.service_id, x.status, x.estimated_price)

-- The answer, the bookings and the ledger.
abbrev pub outcome : Result ℕ × Rides → Result ℕ × List (ℕ × ℕ × Status × ℕ) × List PaymentLedger
outcome (r, s) = (r, map booking_of s.appointments, s.ledger)

-- the key of a ride whose authorization succeeds
abbrev pub ride_key : {A : Type 0} → ℕ → Result A → Result ℕ
ride_key id (ok _) = ok id
ride_key id (err e) = err e

map-append_one :
    (xs : List Appointment) (y : Appointment)
    → map booking_of (xs ++ y ∷ []) ≡ map booking_of xs ++ booking_of y ∷ []
map-append_one [] y = refl
map-append_one (x ∷ xs) y = ap (λ t. booking_of x ∷ t) (map-append_one xs y)

-- The fare is booked at its price.
abbrev pub booked_at :
    PaymentProcessor
    → (who service price : ℕ) → Rides
    → Result ℕ × List (ℕ × ℕ × Status × ℕ) × List PaymentLedger
booked_at processor who service price s =
    let (r, ledger) = authorize processor s.next_id price s.ledger in
    (
      ride_key s.next_id r,
      map booking_of s.appointments ++ (who, service, searching, price) ∷ [],
      ledger,
    )

open_ride-outcome :
    (processor : PaymentProcessor) (now who : ℕ) (f : FareEstimate) (s : Rides)
    → outcome (open_ride processor now who f s)
      ≡ booked_at processor who f.service_id f.estimated_price_cents s
unfolding open_ride
open_ride-outcome processor now who f s =
    elim (Result-cases (authorize processor s.next_id f.estimated_price_cents s.ledger).0) [
      | inl (x, e) ↦ rw (e, open_ride, map-append_one) refl
      | inr (x, e) ↦ rw (e, open_ride, map-append_one) refl
    ]

in_time :
    (processor : PaymentProcessor) (now who : ℕ) (f : FareEstimate) (s : Rides)
    → outcome
        (if leb now f.expires_at then open_ride processor now who f s else (err (http 400), s))
      ≡ (if leb now f.expires_at
          then booked_at processor who f.service_id f.estimated_price_cents s
          else outcome (err (http 400), s))
in_time processor now who f s = elim (Bool-cases (leb now f.expires_at)) [
  | inl soon ↦ rw soon (open_ride-outcome processor now who f s)
  | inr late ↦ rw late refl
]

-- When fares with different keys have different digests: from a start without fares, after any acts,
-- an estimate that answers `fare`, and any further acts, a request with the token of `fare` within
-- 900 seconds of the estimate adds one ride, searching, of the service that was asked for, at the price
-- that the estimate answered, authorizes exactly that price, and answers the ride's key unless the
-- processor fails; later it answers 400 and adds and authorizes nothing.
pub request_ride-estimate_fare :
    (hmac : ℕ → ℕ → ℕ → ℕ) (processor : PaymentProcessor) (before between : List Act)
    (start : Rides) (now client later who : ℕ) (payload : EstimateRequest) (surge : Double × ℕ)
    (fare : FareEstimate)
    → CollisionFree hmac
    → start.fares ≡ []
    → let s = perform_all hmac processor before start in
      (estimate_fare hmac now client payload surge s).0 ≡ ok fare
      → let t =
          perform_all hmac processor between (estimate_fare hmac now client payload surge s).1 in
        outcome (request_ride hmac processor later who (some fare.fare_token) t) ≡ (
          if leb later (now + 900)
          then booked_at processor who payload.service_id fare.estimated_price_cents t
          else outcome (err (http 400), t))
request_ride-estimate_fare hmac processor before between start now client later who payload surge
      fare free empty answered =
    let s = perform_all hmac processor before start in
    let e = (estimate_fare hmac now client payload surge s).1 in
    let t = perform_all hmac processor between e in
    let (at, expires, service) = estimated hmac now client payload surge fare s answered in
    let signed = perform_all-Signed hmac processor before start (
      subst (λ fs. All (λ f. (f.id < start.next_id) × IsSigned hmac f) fs × Distinct fs) (sym empty)
        (tt, tt)) in
    let (all_signed, still) =
      perform_all-Holds hmac processor fare between e
        (estimate_fare-Signed hmac now client payload surge s signed, at) in
    ap outcome (request_ride-fare hmac processor later who fare t free all_signed still)
    ∙ in_time processor later who fare t
    ∙ ap
        (λ x.
          if leb later x
          then booked_at processor who fare.service_id fare.estimated_price_cents t
          else outcome (err (http 400), t))
        expires
    ∙ ap
        (λ x.
          if leb later (now + 900)
          then booked_at processor who x fare.estimated_price_cents t
          else outcome (err (http 400), t))
        service
