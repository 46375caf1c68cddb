-- ===== src/Rides/Matching/Tests.antt =====
-- One ride and its candidates.
use raycarwash_project.Base.{
  arith, ◌≤◌, ◌≡◌, refl, Bool, true, false, List, [], ◌∷◌, map, count_where,
}
use raycarwash_project.Store.{err, http}
use raycarwash_project.Appointments.Status.{Status, no_detailer_found}
use raycarwash_project.Rides.{
  AssignmentStatus, timeout, declined, said_accepted, said_declined, Rides,
}
use raycarwash_project.Rides.Fares.Tests.{empty_rides, a_processor, a_fare, by_key}
use raycarwash_project.Rides.Fares.{ride_of}
use raycarwash_project.Rides.Matching.{
  find_ride, find_offer, accept_write, decline_write, accept_ride, make_offer, register_event,
  signal, mark_no_detailer,
}
use raycarwash_project.Rides.Matching.Run.{
  waiting, accepting, declining, System, start, respond, offer, register, wake, expire,
  record_timeout, exhausted, seek, seek_offer, accept, seek_refusal, decline, deliver, Reach, here,
  later,
}
use raycarwash_project.Rides.Matching.Rows.{open_for}
use raycarwash_project.Rides.Matching.OneOffer.{one_offer_at_a_time}
use raycarwash_project.Rides.Acts.{Act, accepts, captures, declines, exhausts, perform_all}
use raycarwash_project.Rides.Matching.Once.{accept_ride_once}

-- the ride 5, of fare `a_fare`
abbrev searching_rides : Rides
searching_rides = record empty_rides { next_id = 20; appointments = ride_of 100 7 a_fare 5 ∷ [] }

-- detailer 8 is asked, accepts, and the loop hears it
abbrev asked : Rides
asked = (make_offer 5 8 100 searching_rides).1

abbrev listening : Rides
listening = register_event 5 8 asked

abbrev after_offer : System
after_offer = record { rides = listening; pc = waiting 20 8 (9 ∷ []); in_flight = []; pending = [] }

run_to_offer : (late : Bool) → Reach 5 late (start searching_rides (8 ∷ 9 ∷ [])) after_offer
unfolding make_offer
run_to_offer late = later (later here (offer 100 refl refl)) register

-- detailer 8 alone is asked, and both queries of an acceptance are done
run_to_accept :
    (late : Bool)
    → Reach 5 late (start searching_rides (8 ∷ [])) (record {
      rides = listening;
      pc = waiting 20 8 [];
      in_flight = accepting 8 20 3000 ∷ [];
      pending = [];
    })
unfolding make_offer find_ride find_offer
run_to_accept late =
    later (later (later (later here (offer 100 refl refl)) register) (seek {price = 3000} 8 refl))
      (seek_offer {id = 20} [] [] 8 3000 refl)

one_offer_at_a_time_example : count_where (open_for 5) after_offer.rides.assignments ≤ 1
one_offer_at_a_time_example =
    one_offer_at_a_time 5 true searching_rides (8 ∷ 9 ∷ []) after_offer tt (run_to_offer true)

-- between the two requests the loop gives up, and a refusal that had read before is committed
abbrev meanwhile : List Act
meanwhile = captures 5 8 3000 ∷ declines 20 106 ∷ exhausts 5 ∷ accepts 6 9 21 107 ∷ []

accept_ride_once_example :
    let t = perform_all by_key a_processor meanwhile (accept_write 5 8 20 105 listening) in
    accept_ride a_processor 5 9 110 t ≡ (err (http 404), t)
unfolding make_offer
accept_ride_once_example =
    accept_ride_once by_key a_processor 5 8 9 20 105 110 meanwhile listening (omega arith)

ends_as : System → List Status × List AssignmentStatus
ends_as s = (map (λ x. x.status) s.rides.appointments, map (λ r. r.status) s.rides.assignments)

-- The loop times out after the acceptance and before its signal: the ride ends with no detailer, and
-- the offer that was accepted as a timeout.
acceptance_lost :
    (s : System) × Reach 5 true (start searching_rides (8 ∷ [])) s
    × (ends_as s ≡ (no_detailer_found ∷ [], timeout ∷ []))
unfolding make_offer accept_write mark_no_detailer ends_as
acceptance_lost = (
  _,
  later
      (later (later (later (run_to_accept true) (accept [] [] 8 20 3000 105)) (expire refl refl))
        (record_timeout 115))
      exhausted,
  refl,
)

-- No offer times out, and the detailer accepts and declines at once: the queries of both requests find
-- the offer before either is committed. The ride is confirmed, and then ends with no detailer.
acceptance_declined :
    (s : System) × Reach 5 false (start searching_rides (8 ∷ [])) s
    × (ends_as s ≡ (no_detailer_found ∷ [], declined ∷ []))
unfolding make_offer find_offer accept_write decline_write signal respond mark_no_detailer ends_as
acceptance_declined = (
  _,
  later
      (later
        (later
          (later
            (later
              (later (later (run_to_accept false) (seek_refusal {id = 20} 8 refl))
                (accept (declining 8 20 ∷ []) [] 8 20 3000 105))
              (decline [] [] 8 20 105))
            (deliver ((8, said_declined) ∷ []) [] 8 said_accepted))
          (deliver [] [] 8 said_declined))
        (wake 106 refl))
      exhausted,
  refl,
)
