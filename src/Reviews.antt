-- ===== src/Reviews.antt =====
-- ReviewService of backend/domains/reviews/service.py and ReviewRepository beside it, with the
-- aggregates of provider_profiles. The average is a numeric column: `blend` is what PostgreSQL
-- computes of the old average, the old number of reviews and the new rating, and stores.
mod Cases
mod Invariant
mod Unrated
mod Tests
use raycarwash_project.Base.{
  ℕ, suc, Bool, true, false, not, ◌&&◌, Option, none, some, List, [], ◌∷◌, ◌++◌, ◌==◌,
  if◌then◌else◌, any, find_where, update_where,
}
use raycarwash_project.Appointments.Status.{Status, completed, status_eq}
use raycarwash_project.Store.{Appointment, Error, http, integrity_error, Result, ok, err}

pub record Review : Type 0 where
  pub id : ℕ
  pub appointment_id : ℕ
  pub reviewer_id : ℕ
  pub detailer_id : ℕ
  pub rating : ℕ
  pub is_deleted : Bool

pub record ProviderProfile (Average : Type 0) : Type 0 where
  pub user_id : ℕ
  pub average_rating : Option Average
  pub total_reviews : ℕ

pub record ReviewDb (Average : Type 0) : Type 0 where
  pub next_id : ℕ
  pub appointments : List Appointment
  pub reviews : List Review
  pub profiles : List (ProviderProfile Average)
  -- review_created, by review and reviewer
  pub audit : List (ℕ × ℕ)

abbrev pub new_review : ℕ → ℕ → ℕ → ℕ → ℕ → Review
new_review id appointment reviewer detailer rating = record {
  id = id;
  appointment_id = appointment;
  reviewer_id = reviewer;
  detailer_id = detailer;
  rating = rating;
  is_deleted = false;
}

module _ {Average : Type 0} where
  unfoldable pub get_by_appointment : ℕ → ReviewDb Average → Option Review
  get_by_appointment appointment db =
      find_where (λ r. r.appointment_id == appointment && not r.is_deleted) db.reviews

  -- uq_review_appointment counts deleted rows too
  unfoldable pub insert_review : Review → ReviewDb Average → Option (ReviewDb Average)
  insert_review review db =
      if any (λ r. r.appointment_id == review.appointment_id) db.reviews
      then none
      else some (record db { next_id = suc db.next_id; reviews = db.reviews ++ (review ∷ []) })

  module _ (blend : Average → ℕ → ℕ → Average) where
    -- arithmetic on NULL is NULL
    abbrev pub blend_null : Option Average → ℕ → ℕ → Option Average
    blend_null none total rating = none
    blend_null (some average) total rating = some (blend average total rating)

    abbrev pub with_rating : ℕ → ProviderProfile Average → ProviderProfile Average
    with_rating rating p = record p {
      average_rating = blend_null p.average_rating p.total_reviews rating;
      total_reviews = suc p.total_reviews;
    }

    unfoldable pub update_detailer_aggregate : ℕ → ℕ → ReviewDb Average → ReviewDb Average
    update_detailer_aggregate detailer rating db = record db {
      profiles = update_where (λ p. p.user_id == detailer) (with_rating rating) db.profiles;
    }

    abbrev pub add_review :
        Review → Option (ReviewDb Average) → ReviewDb Average → Result Review × ReviewDb Average
    add_review review none db = (err integrity_error, db)
    add_review review (some db') db =
        let counted = update_detailer_aggregate review.detailer_id review.rating db' in
        (
          ok review,
          record counted { audit = counted.audit ++ ((review.id, review.reviewer_id) ∷ []) },
        )

    -- Review.detailer_id is not nullable
    abbrev pub review_of :
        Option ℕ → ℕ → ℕ → ℕ → ReviewDb Average → Result Review × ReviewDb Average
    review_of none appointment reviewer rating db = (err integrity_error, db)
    review_of (some detailer) appointment reviewer rating db =
        let review = new_review db.next_id appointment reviewer detailer rating in
        add_review review (insert_review review db) db

    abbrev pub create_for :
        Option Review → Appointment → ℕ → ℕ → ReviewDb Average → Result Review × ReviewDb Average
    create_for existing a reviewer rating db =
        if not (status_eq a.status completed)
        then (err (http 422), db)
        else if not (a.client_id == reviewer)
        then (err (http 403), db)
        else elim existing [
          | some _ ↦ (err (http 409), db)
          | none ↦ review_of a.detailer_id a.id reviewer rating db
        ]

    unfoldable pub create_review : ℕ → ℕ → ℕ → ReviewDb Average → Result Review × ReviewDb Average
    create_review appointment reviewer rating db =
        elim (find_where (λ a. a.id == appointment && not a.is_deleted) db.appointments) [
          | none ↦ (err (http 404), db)
          | some a ↦ create_for (get_by_appointment appointment db) a reviewer rating db
        ]
