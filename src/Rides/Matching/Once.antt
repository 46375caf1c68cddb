-- ===== src/Rides/Matching/Once.antt =====
-- A ride is accepted once.
use raycarwash_project.Base.{
  ℕ, ◌<◌, ◌≡◌, refl, inl, inr, Bool, false, ◌&&◌, Option, none, some, List, [], ◌∷◌, ◌++◌, ◌==◌,
  arith, Option-cases, Bool-cases, any, find_where, update_where, eq_test_false,
}
use raycarwash_project.Float.{Double}
use raycarwash_project.Store.{Appointment, err, http, Result-cases}
use raycarwash_project.Appointments.Status.{no_detailer_found, confirmed, searching, status_eq}
use raycarwash_project.Payments.Ledger.{PaymentProcessor, authorize}
use raycarwash_project.Rides.{FareEstimate, Response, said_accepted, Rides}
use raycarwash_project.Rides.Fares.{
  EstimateRequest, estimate_fare, verify_fare_token, ride_of, ride_of, open_ride, request_ride,
}
use raycarwash_project.Rides.Acts.{
  Act, accepts, captures, declines, tells, offers, registers, ends, answers, exhausts, estimates,
  requests, perform, perform_all,
}
use raycarwash_project.Rides.Matching.{
  find_ride, accept_write, decline_write, accept_commit, accept_ride, signal, make_offer,
  mark_no_detailer,
}

abbrev sought : ℕ → Appointment → Bool
sought a x = x.id == a && status_eq x.status searching

-- The ride is not searching, and no ride to come has its key.
abbrev Gone : ℕ → Rides → Type 0
Gone a s = (find_where (sought a) s.appointments ≡ none) × (a < s.next_id)

-- An update that makes no ride searching.
find_where-update :
    (a : ℕ) (q : Appointment → Bool) (f : Appointment → Appointment) (xs : List Appointment)
    → ((x : Appointment) → sought a (f x) ≡ false)
    → find_where (sought a) xs ≡ none
    → find_where (sought a) (update_where q f xs) ≡ none
find_where-update a q f [] shut h = refl
find_where-update a q f (x ∷ xs) shut h = elim (Bool-cases (sought a x)) [
  | inl e ↦ absurd (ground (arith, rw e at h))
  | inr e ↦ elim (Bool-cases (q x)) [
    | inl t ↦ rw (t, shut x) (find_where-update a q f xs shut (rw e at h))
    | inr t ↦ rw (t, e) (find_where-update a q f xs shut (rw e at h))
  ]
]

find_where-confirmed :
    (a d : ℕ) (xs : List Appointment)
    → find_where (sought a) (
        update_where
          (λ x. x.id == a)
          (λ x. record x { status = confirmed; detailer_id = some d })
          xs)
      ≡ none
find_where-confirmed a d [] = refl
find_where-confirmed a d (x ∷ xs) = elim (Bool-cases (x.id == a)) [
  | inl e ↦ rw e (ground (arith, e, find_where-confirmed a d xs))
  | inr e ↦ rw e (ground (arith, e, find_where-confirmed a d xs))
]

find_where-append_one :
    (a : ℕ) (xs : List Appointment) (y : Appointment)
    → sought a y ≡ false
    → find_where (sought a) xs ≡ none
    → find_where (sought a) (xs ++ y ∷ []) ≡ none
find_where-append_one a [] y shut h = rw shut refl
find_where-append_one a (x ∷ xs) y shut h = elim (Bool-cases (sought a x)) [
  | inl e ↦ absurd (ground (arith, rw e at h))
  | inr e ↦ rw e (find_where-append_one a xs y shut (rw e at h))
]

Gone-signal :
    (a b d : ℕ) (response : Response) (s : Rides) → Gone a s → Gone a (signal b d response s)
unfolding signal
Gone-signal a b d response s h = elim (Option-cases (s.events b d)) [
  | inl n ↦ rw (n, signal) h
  | inr (_, on) ↦ rw (on, signal) h
]

Gone-make_offer : (a b d now : ℕ) (s : Rides) → Gone a s → Gone a (make_offer b d now s).1
unfolding make_offer
Gone-make_offer a b d now s (none_left, below) =
    elim (Bool-cases (any (λ r. r.appointment_id == b && r.detailer_id == d) s.assignments)) [
      | inl t ↦ rw (t, make_offer) (none_left, below)
      | inr t ↦ rw (t, make_offer) (none_left, omega (arith, below))
    ]

module _ (hmac : ℕ → ℕ → ℕ → ℕ) where
  Gone-estimate_fare :
      (a now client : ℕ) (payload : EstimateRequest) (surge : Double × ℕ) (s : Rides)
      → Gone a s
      → Gone a (estimate_fare hmac now client payload surge s).1
  unfolding estimate_fare
  Gone-estimate_fare a now client payload surge s (none_left, below) =
      elim (Option-cases (find_where (λ x. x.id == payload.service_id && x.is_active) s.services)) [
        | inl n ↦ rw (n, estimate_fare) (none_left, below)
        | inr (service, e) ↦ rw (e, estimate_fare) (none_left, omega (arith, below))
      ]

  Gone-open_ride :
      (processor : PaymentProcessor) (a now client : ℕ) (fare : FareEstimate) (s : Rides)
      → Gone a s
      → Gone a (open_ride processor now client fare s).1
  unfolding open_ride
  Gone-open_ride processor a now client fare s (none_left, below) =
      let differ : ¬ (s.next_id ≡ a) = λ same. absurd (omega (arith, same, below)) in
      let gone : find_where (sought a) (s.appointments ++ ride_of now client fare s.next_id ∷ [])
          ≡ none =
        find_where-append_one a s.appointments _ (rw (eq_test_false s.next_id a differ) refl)
          none_left in
      elim (Result-cases (authorize processor s.next_id fare.estimated_price_cents s.ledger).0) [
        | inl (x, e) ↦ rw (e, open_ride) (gone, omega (arith, below))
        | inr (x, e) ↦ rw (e, open_ride) (gone, omega (arith, below))
      ]

  Gone-request_ride :
      (processor : PaymentProcessor) (a now client : ℕ) (o : Option ℕ) (s : Rides)
      → Gone a s
      → Gone a (request_ride hmac processor now client o s).1
  unfolding request_ride
  Gone-request_ride processor a now client none s h = h
  Gone-request_ride processor a now client (some token) s h =
      elim (Option-cases (find_where (λ f. f.fare_token == token) s.fares)) [
        | inl n ↦ rw (n, request_ride) h
        | inr (fare, e) ↦
            elim (Bool-cases (
              verify_fare_token hmac now token fare.id fare.estimated_price_cents
                fare.expires_at)) [
                  | inl t ↦ rw (e, request_ride, t) (Gone-open_ride processor a now client fare s h)
                  | inr t ↦ rw (e, request_ride, t) h
                ]
      ]

  Gone-perform :
      (processor : PaymentProcessor) (a : ℕ) (act : Act) (s : Rides)
      → Gone a s
      → Gone a (perform hmac processor act s)
  unfolding accept_write decline_write mark_no_detailer
  Gone-perform processor a (accepts b d id now) s (none_left, below) = (
    find_where-update a (λ x. x.id == b)
        (λ x. record x { status = confirmed; detailer_id = some d }) s.appointments
        (λ x. ground arith) none_left,
    below,
  )
  Gone-perform processor a (captures b d price) s h = Gone-signal a b d said_accepted s h
  Gone-perform processor a (declines id now) s h = h
  Gone-perform processor a (tells b d response) s h = Gone-signal a b d response s h
  Gone-perform processor a (offers b d now) s h = Gone-make_offer a b d now s h
  Gone-perform processor a (registers b d) s h = h
  Gone-perform processor a (ends b d) s h = h
  Gone-perform processor a (answers id status now) s h = h
  Gone-perform processor a (exhausts b) s (none_left, below) = (
    find_where-update a (λ x. x.id == b) (λ x. record x { status = no_detailer_found })
        s.appointments (λ x. ground arith) none_left,
    below,
  )
  Gone-perform processor a (estimates now client payload surge) s h =
      Gone-estimate_fare a now client payload surge s h
  Gone-perform processor a (requests now client token) s h =
      Gone-request_ride processor a now client token s h

  Gone-perform_all :
      (processor : PaymentProcessor) (a : ℕ) (acts : List Act) (s : Rides)
      → Gone a s
      → Gone a (perform_all hmac processor acts s)
  Gone-perform_all processor a [] s h = h
  Gone-perform_all processor a (act ∷ acts) s h =
      Gone-perform_all processor a acts (perform hmac processor act s)
        (Gone-perform processor a act s h)

accept_ride_refused :
    (processor : PaymentProcessor) (a e later : ℕ) (s : Rides)
    → find_where (sought a) s.appointments ≡ none
    → accept_ride processor a e later s ≡ (err (http 404), s)
unfolding accept_ride accept_commit find_ride
accept_ride_refused processor a e later s n = rw (n, accept_ride, accept_commit, find_ride) refl

-- Once an acceptance of a ride whose key has been drawn is committed, a request to accept it, of any
-- detailer, is answered with 404 and changes nothing, whatever is written in between: commits of other
-- acceptances and refusals, of this ride too, that had read before, their signals and captures, offers,
-- timeouts and ends of loops, estimates and requests of rides.
pub accept_ride_once :
    (hmac : ℕ → ℕ → ℕ → ℕ) (processor : PaymentProcessor) (a d e id now later : ℕ) (acts : List Act)
    (s : Rides)
    → a < s.next_id
    → let t = perform_all hmac processor acts (accept_write a d id now s) in
      accept_ride processor a e later t ≡ (err (http 404), t)
unfolding accept_write
accept_ride_once hmac processor a d e id now later acts s below =
    accept_ride_refused processor a e later _
      (Gone-perform_all hmac processor a acts (accept_write a d id now s)
        (find_where-confirmed a d s.appointments, below)).0
