-- ===== src/Reviews/Cases.antt =====
-- The ways a request to review ends.
use raycarwash_project.Base.{
  ℕ, ◌≡◌, inl, inr, true, not, ◌&&◌, Option, none, some, ◌==◌, Bool-cases, Option-cases, find_where,
}
use raycarwash_project.Appointments.Status.{completed, status_eq}
use raycarwash_project.Store.{Appointment}
use raycarwash_project.Users.Defaults.Counts.{IsIn, find_where-IsIn}
use raycarwash_project.Reviews.{
  Review, new_review, ReviewDb, get_by_appointment, insert_review, add_review, review_of,
  create_for, create_review,
}

module _ {Average : Type 0} (blend : Average → ℕ → ℕ → Average)
    (P : ReviewDb Average → Type 0) where
  -- The request is refused and changes nothing, or inserts the review of a completed booking.
  abbrev Inserts : ℕ → ℕ → ReviewDb Average → Type 0
  Inserts reviewer rating db =
      (a : Appointment) (d : ℕ)
      → IsIn a db.appointments
      → status_eq a.status completed ≡ true
      → (a.client_id == reviewer) ≡ true
      → P
          (add_review blend (new_review db.next_id a.id reviewer d rating)
            (insert_review (new_review db.next_id a.id reviewer d rating) db) db).1

  review_of_cases :
      (o : Option ℕ) (a : Appointment) (reviewer rating : ℕ) (db : ReviewDb Average)
      → IsIn a db.appointments
      → status_eq a.status completed ≡ true
      → (a.client_id == reviewer) ≡ true
      → P db
      → Inserts reviewer rating db
      → P (review_of blend o a.id reviewer rating db).1
  review_of_cases none a reviewer rating db at done client h k = h
  review_of_cases (some d) a reviewer rating db at done client h k = k a d at done client

  create_for_cases :
      (existing : Option Review) (a : Appointment) (reviewer rating : ℕ) (db : ReviewDb Average)
      → IsIn a db.appointments
      → P db
      → Inserts reviewer rating db
      → P (create_for blend existing a reviewer rating db).1
  create_for_cases existing a reviewer rating db at h k =
      elim (Bool-cases (status_eq a.status completed)) [
        | inr e ↦ rw e h
        | inl e ↦ elim (Bool-cases (a.client_id == reviewer)) [
          | inr f ↦ rw (e, f) h
          | inl f ↦ elim (Option-cases existing) [
            | inr (r, x) ↦ rw (e, f, x) h
            | inl n ↦ rw (e, f, n) (review_of_cases a.detailer_id a reviewer rating db at e f h k)
          ]
        ]
      ]

  pub create_review_cases :
      (appointment reviewer rating : ℕ) (db : ReviewDb Average)
      → P db
      → Inserts reviewer rating db
      → P (create_review blend appointment reviewer rating db).1
  unfolding create_review
  create_review_cases appointment reviewer rating db h k =
      elim (Option-cases
        (find_where (λ a. a.id == appointment && not a.is_deleted) db.appointments)) [
          | inl n ↦ rw (n, create_review) h
          | inr (a, e) ↦
              rw (e, create_review)
                (create_for_cases (get_by_appointment appointment db) a reviewer rating db
                  (find_where-IsIn (λ a. a.id == appointment && not a.is_deleted) db.appointments a
                    e)
                  h k)
        ]
