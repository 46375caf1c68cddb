-- ===== src/Reviews/Tests.antt =====
-- A completed booking and its review.
use raycarwash_project.Base.{ℕ, refl, none, some, [], ◌∷◌, arith}
use raycarwash_project.Store.{Appointment}
use raycarwash_project.Appointments.Status.{completed}
use raycarwash_project.Rides.Fares.{ride_of}
use raycarwash_project.Rides.Fares.Tests.{a_fare}
use raycarwash_project.Reviews.{ReviewDb, create_review}
use raycarwash_project.Reviews.Invariant.{IsReviewed, create_review-IsReviewed}

-- `blend` that takes the last rating
abbrev last_rating : ℕ → ℕ → ℕ → ℕ
last_rating average total rating = rating

abbrev done_booking : Appointment
done_booking = record (ride_of 100 7 a_fare 5) { status = completed; detailer_id = some 8 }

abbrev review_db : ReviewDb ℕ
review_db = record {
  next_id = 1;
  appointments = done_booking ∷ [];
  reviews = [];
  profiles = record { user_id = 8; average_rating = none; total_reviews = 0 } ∷ [];
  audit = [];
}

create_review-IsReviewed_example : IsReviewed (create_review last_rating 5 7 4 review_db).1
create_review-IsReviewed_example =
    create_review-IsReviewed last_rating 5 7 4 review_db (tt, (λ i. omega arith), (refl, tt))
