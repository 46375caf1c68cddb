-- ===== src/Rides/Acts.antt =====
-- What requests and loops write, about any ride, as one list of acts: the routes of
-- backend/domains/payments/rides_router.py and fare_router.py, and the loop of
-- backend/domains/matching/service.py. A commit is an act of its own, with the keys that its request read.
use raycarwash_project.Base.{ℕ, Option, List, [], ◌∷◌}
use raycarwash_project.Float.{Double}
use raycarwash_project.Store.{ok}
use raycarwash_project.Payments.Ledger.{PaymentProcessor}
use raycarwash_project.Rides.{AssignmentStatus, Response, Rides}
use raycarwash_project.Rides.Fares.{EstimateRequest, estimate_fare, request_ride}
use raycarwash_project.Rides.Matching.{
  answer, accept_write, decline_write, finish_accept, signal, make_offer, register_event, end_offer,
  mark_no_detailer,
}

pub data Act : Type 0 where
  accepts : (appointment detailer id now : ℕ) → Act
  captures : (appointment detailer price : ℕ) → Act
  declines : (id now : ℕ) → Act
  tells : (appointment detailer : ℕ) → Response → Act
  offers : (appointment detailer now : ℕ) → Act
  registers : (appointment detailer : ℕ) → Act
  ends : (appointment detailer : ℕ) → Act
  answers : (id : ℕ) → AssignmentStatus → (now : ℕ) → Act
  exhausts : (appointment : ℕ) → Act
  estimates : (now client : ℕ) → EstimateRequest → Double × ℕ → Act
  requests : (now client : ℕ) → Option ℕ → Act

module _ (hmac : ℕ → ℕ → ℕ → ℕ) (processor : PaymentProcessor) where
  abbrev pub perform : Act → Rides → Rides
  perform (accepts a d id now) s = accept_write a d id now s
  perform (captures a d price) s = (finish_accept processor a d (ok price, s)).1
  perform (declines id now) s = decline_write id now s
  perform (tells a d response) s = signal a d response s
  perform (offers a d now) s = (make_offer a d now s).1
  perform (registers a d) s = register_event a d s
  perform (ends a d) s = end_offer a d s
  perform (answers id status now) s = answer id status now s
  perform (exhausts a) s = mark_no_detailer a s
  perform (estimates now client payload surge) s = (estimate_fare hmac now client payload surge s).1
  perform (requests now client token) s = (request_ride hmac processor now client token s).1

  abbrev pub perform_all : List Act → Rides → Rides
  perform_all [] s = s
  perform_all (a ∷ acts) s = perform_all acts (perform a s)
