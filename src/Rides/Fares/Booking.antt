-- ===== src/Rides/Fares/Booking.antt =====
-- The token of a stored fare finds that fare.
use raycarwash_project.Base.{
  ℕ, ◌<◌, ◌≡◌, refl, sym, ◌∙◌, subst, ◌⊎◌, inl, inr, ◌&&◌, some, List, [], ◌∷◌, ◌++◌, arith, leb,
  ◌==◌, if◌then◌else◌, Option-cases, All, All-map, All-append_one, find_where, eq_test_false,
}
use raycarwash_project.Float.{Double}
use raycarwash_project.Catalog.{Service}
use raycarwash_project.Store.{err, http}
use raycarwash_project.Payments.Ledger.{PaymentProcessor}
use raycarwash_project.Rides.{FareEstimate, Rides}
use raycarwash_project.Rides.Fares.{
  EstimateRequest, verify_fare_token, add_fare, estimate_fare, open_ride, request_ride,
}

abbrev pub IsIn : FareEstimate → List FareEstimate → Type 0
IsIn f [] = ⊥
IsIn f (g ∷ gs) = (f ≡ g) ⊎ IsIn f gs

All-IsIn :
    (P : FareEstimate → Type 0) (fs : List FareEstimate) (f : FareEstimate)
    → All P fs
    → IsIn f fs
    → P f
All-IsIn P [] f h here = absurd here
All-IsIn P (g ∷ gs) f h (inl same) = subst P (sym same) h.0
All-IsIn P (g ∷ gs) f h (inr further) = All-IsIn P gs f h.1 further

abbrev pub Distinct : List FareEstimate → Type 0
Distinct [] = Unit
Distinct (f ∷ fs) = All (λ g. ¬ (f.id ≡ g.id)) fs × Distinct fs

Distinct-append_one :
    (fs : List FareEstimate) (f : FareEstimate)
    → Distinct fs
    → All (λ g. ¬ (g.id ≡ f.id)) fs
    → Distinct (fs ++ f ∷ [])
Distinct-append_one [] f h k = (tt, tt)
Distinct-append_one (g ∷ gs) f h k =
    (All-append_one (λ x. ¬ (g.id ≡ x.id)) gs f h.0 k.0, Distinct-append_one gs f h.1 k.1)

module _ (hmac : ℕ → ℕ → ℕ → ℕ) where
  abbrev pub IsSigned : FareEstimate → Type 0
  IsSigned f = f.fare_token ≡ hmac f.id f.estimated_price_cents f.expires_at

  -- Keys are distinct and below the counter, and each fare has the digest of its own fields.
  abbrev pub Signed : Rides → Type 0
  Signed s = All (λ f. (f.id < s.next_id) × IsSigned f) s.fares × Distinct s.fares

  -- Fares with different keys have different digests.
  abbrev pub CollisionFree : Type 0
  CollisionFree = (i j p q t u : ℕ) → hmac i p t ≡ hmac j q u → i ≡ j

  find_token :
      (fs : List FareEstimate) (f : FareEstimate)
      → CollisionFree
      → All IsSigned fs
      → Distinct fs
      → IsIn f fs
      → find_where (λ g. g.fare_token == f.fare_token) fs ≡ some f
  find_token [] f free signed distinct at = absurd at
  find_token (g ∷ gs) f free signed distinct (inl same) = ground (arith, same)
  find_token (g ∷ gs) f free signed distinct (inr further) =
      let own = All-IsIn IsSigned gs f signed.1 further in
      let other = All-IsIn (λ x. ¬ (g.id ≡ x.id)) gs f distinct.0 further in
      let differ : ¬ (g.fare_token ≡ f.fare_token) =
        λ same. other (free g.id f.id _ _ _ _ (sym signed.0 ∙ same ∙ own)) in
      rw (eq_test_false g.fare_token f.fare_token differ)
        (find_token gs f free signed.1 distinct.1 further)

  add_fare-Signed :
      (now client : ℕ) (payload : EstimateRequest) (service : Service) (surge : Double × ℕ)
      (s : Rides)
      → Signed s
      → Signed (add_fare hmac now client payload service surge s).1
  add_fare-Signed now client payload service surge s (signed, distinct) = (
    All-append_one _ s.fares _
        (All-map _ _ s.fares (λ f (below, own). (omega (arith, below), own)) signed)
        (omega arith, refl),
    Distinct-append_one s.fares _ distinct
        (All-map _ _ s.fares (λ f (below, _) same. absurd (omega (arith, below, same))) signed),
  )

  -- An estimate keeps the keys distinct and every fare signed, whether it answers or fails.
  pub estimate_fare-Signed :
      (now client : ℕ) (payload : EstimateRequest) (surge : Double × ℕ) (s : Rides)
      → Signed s
      → Signed (estimate_fare hmac now client payload surge s).1
  unfolding estimate_fare
  estimate_fare-Signed now client payload surge s signed =
      elim (Option-cases (find_where (λ x. x.id == payload.service_id && x.is_active) s.services)) [
        | inl n ↦ rw (n, estimate_fare) signed
        | inr (service, e) ↦
            rw (e, estimate_fare) (add_fare-Signed now client payload service surge s signed)
      ]

  -- When distinct fares have distinct digests, the token of any stored fare books that fare: up to
  -- its expiry `request_ride` opens the ride of that very estimate, and later it answers 400.
  pub request_ride-fare :
      (processor : PaymentProcessor) (now client : ℕ) (f : FareEstimate) (s : Rides)
      → CollisionFree
      → Signed s
      → IsIn f s.fares
      → request_ride hmac processor now client (some f.fare_token) s
        ≡ (if leb now f.expires_at then open_ride processor now client f s else (err (http 400), s))
  unfolding request_ride verify_fare_token
  request_ride-fare processor now client f s free (signed, distinct) at =
      let own = (All-IsIn (λ g. (g.id < s.next_id) × IsSigned g) s.fares f signed at).1 in
      rw
        (
          find_token s.fares f free (All-map _ IsSigned s.fares (λ g p. p.1) signed) distinct at,
          request_ride,
        )
        (ground (arith, own))
