-- ===== src/Rides/Carried.antt =====
-- Whatever requests and loops write, fares stay signed and stay in the table.
use raycarwash_project.Base.{
  ℕ, ◌≤◌, ◌≡◌, refl, sym, subst, inl, inr, ◌&&◌, Option, none, some, List, [], ◌∷◌, ◌++◌, ◌==◌,
  arith, Option-cases, Bool-cases, All-map, any, find_where,
}
use raycarwash_project.Float.{Double}
use raycarwash_project.Store.{Result-cases}
use raycarwash_project.Payments.Ledger.{PaymentProcessor, authorize}
use raycarwash_project.Rides.{FareEstimate, Response, said_accepted, Rides}
use raycarwash_project.Rides.Fares.{
  EstimateRequest, add_fare, estimate_fare, verify_fare_token, open_ride, request_ride,
}
use raycarwash_project.Rides.Fares.Booking.{IsIn, Signed, estimate_fare-Signed}
use raycarwash_project.Rides.Matching.{
  accept_write, decline_write, signal, make_offer, mark_no_detailer,
}
use raycarwash_project.Rides.Acts.{
  Act, accepts, captures, declines, tells, offers, registers, ends, answers, exhausts, estimates,
  requests, perform, perform_all,
}

-- The fares are as they were.
abbrev Same : Rides → Rides → Type 0
Same s t = (t.fares ≡ s.fares) × (s.next_id ≤ t.next_id)

Same-signal : (a d : ℕ) (response : Response) (s : Rides) → Same s (signal a d response s)
unfolding signal
Same-signal a d response s = elim (Option-cases (s.events a d)) [
  | inl n ↦ rw (n, signal) (refl, omega arith)
  | inr (_, on) ↦ rw (on, signal) (refl, omega arith)
]

Same-make_offer : (a d now : ℕ) (s : Rides) → Same s (make_offer a d now s).1
unfolding make_offer
Same-make_offer a d now s =
    elim (Bool-cases (any (λ r. r.appointment_id == a && r.detailer_id == d) s.assignments)) [
      | inl t ↦ rw (t, make_offer) (refl, omega arith)
      | inr t ↦ rw (t, make_offer) (refl, omega arith)
    ]

Same-open_ride :
    (processor : PaymentProcessor) (now client : ℕ) (fare : FareEstimate) (s : Rides)
    → Same s (open_ride processor now client fare s).1
unfolding open_ride
Same-open_ride processor now client fare s =
    elim (Result-cases (authorize processor s.next_id fare.estimated_price_cents s.ledger).0) [
      | inl (x, e) ↦ rw (e, open_ride) (refl, omega arith)
      | inr (x, e) ↦ rw (e, open_ride) (refl, omega arith)
    ]

IsIn-append_one : (fs : List FareEstimate) (f g : FareEstimate) → IsIn f fs → IsIn f (fs ++ g ∷ [])
IsIn-append_one [] f g at = absurd at
IsIn-append_one (h ∷ fs) f g (inl same) = inl same
IsIn-append_one (h ∷ fs) f g (inr at) = inr (IsIn-append_one fs f g at)

module _ (hmac : ℕ → ℕ → ℕ → ℕ) (processor : PaymentProcessor) where
  Same-request_ride :
      (now client : ℕ) (o : Option ℕ) (s : Rides)
      → Same s (request_ride hmac processor now client o s).1
  unfolding request_ride
  Same-request_ride now client none s = (refl, omega arith)
  Same-request_ride now client (some token) s =
      elim (Option-cases (find_where (λ f. f.fare_token == token) s.fares)) [
        | inl n ↦ rw (n, request_ride) (refl, omega arith)
        | inr (f, e) ↦
            elim (Bool-cases
              (verify_fare_token hmac now token f.id f.estimated_price_cents f.expires_at)) [
                | inl t ↦ rw (e, request_ride, t) (Same-open_ride processor now client f s)
                | inr t ↦ rw (e, request_ride, t) (refl, omega arith)
              ]
      ]

  Signed-Same : (s t : Rides) → Same s t → Signed hmac s → Signed hmac t
  Signed-Same s t (same, grows) (signed, distinct) =
      rw same (
        All-map _ _ s.fares (λ f (below, own). (omega (arith, below, grows), own)) signed,
        distinct,
      )

  -- Every fare is signed, and this one is still there.
  abbrev pub Holds : FareEstimate → Rides → Type 0
  Holds f s = Signed hmac s × IsIn f s.fares

  Holds-Same : (f : FareEstimate) (s t : Rides) → Same s t → Holds f s → Holds f t
  Holds-Same f s t same (signed, at) = (Signed-Same s t same signed, subst (IsIn f) (sym same.0) at)

  IsIn-estimate_fare :
      (now client : ℕ) (payload : EstimateRequest) (surge : Double × ℕ) (f : FareEstimate)
      (s : Rides)
      → IsIn f s.fares
      → IsIn f (estimate_fare hmac now client payload surge s).1.fares
  unfolding estimate_fare
  IsIn-estimate_fare now client payload surge f s at =
      elim (Option-cases (find_where (λ x. x.id == payload.service_id && x.is_active) s.services)) [
        | inl n ↦ rw (n, estimate_fare) at
        | inr (service, e) ↦
            rw (e, estimate_fare)
              (IsIn-append_one s.fares f (add_fare hmac now client payload service surge s).0 at)
      ]

  -- An act leaves the fares alone, or is an estimate.
  perform-cases :
      (P : Rides → Type 0) (s : Rides)
      → ((t : Rides) → Same s t → P t)
      → ((now client : ℕ) (payload : EstimateRequest) (surge : Double × ℕ)
          → P (estimate_fare hmac now client payload surge s).1)
      → (act : Act) → P (perform hmac processor act s)
  unfolding accept_write decline_write mark_no_detailer
  perform-cases P s same new (accepts a d id now) = same _ (refl, omega arith)
  perform-cases P s same new (captures a d price) = same _ (Same-signal a d said_accepted s)
  perform-cases P s same new (declines id now) = same _ (refl, omega arith)
  perform-cases P s same new (tells a d response) = same _ (Same-signal a d response s)
  perform-cases P s same new (offers a d now) = same _ (Same-make_offer a d now s)
  perform-cases P s same new (registers a d) = same _ (refl, omega arith)
  perform-cases P s same new (ends a d) = same _ (refl, omega arith)
  perform-cases P s same new (answers id status now) = same _ (refl, omega arith)
  perform-cases P s same new (exhausts a) = same _ (refl, omega arith)
  perform-cases P s same new (estimates now client payload surge) = new now client payload surge
  perform-cases P s same new (requests now client token) =
      same _ (Same-request_ride now client token s)

  pub perform_all-Signed :
      (acts : List Act) (s : Rides)
      → Signed hmac s
      → Signed hmac (perform_all hmac processor acts s)
  perform_all-Signed [] s h = h
  perform_all-Signed (act ∷ acts) s h = perform_all-Signed acts (perform hmac processor act s) (
      perform-cases (Signed hmac) s (λ t same. Signed-Same s t same h)
        (λ now client payload surge. estimate_fare-Signed hmac now client payload surge s h) act)

  pub perform_all-Holds :
      (f : FareEstimate) (acts : List Act) (s : Rides)
      → Holds f s
      → Holds f (perform_all hmac processor acts s)
  perform_all-Holds f [] s h = h
  perform_all-Holds f (act ∷ acts) s h = perform_all-Holds f acts (perform hmac processor act s) (
      perform-cases (Holds f) s (λ t same. Holds-Same f s t same h)
        (λ now client payload surge. (
          estimate_fare-Signed hmac now client payload surge s h.0,
          IsIn-estimate_fare now client payload surge f s h.1,
        ))
        act)
