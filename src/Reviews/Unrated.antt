-- ===== src/Reviews/Unrated.antt =====
-- The average of a profile that has none.
use raycarwash_project.Base.{
  ℕ, ◌≡◌, refl, inl, inr, none, List, ◌==◌, Bool-cases, All, All-update_where, any, update_where,
}
use raycarwash_project.Reviews.Cases.{create_review_cases}
use raycarwash_project.Reviews.{
  Review, new_review, ProviderProfile, ReviewDb, insert_review, with_rating,
  update_detailer_aggregate, add_review, create_review,
}

module _ {Average : Type 0} where
  abbrev pub Unrated : ReviewDb Average → Type 0
  Unrated db = All (λ p. p.average_rating ≡ none) db.profiles

module _ {Average : Type 0} (blend : Average → ℕ → ℕ → Average) where
  stays_null :
      (detailer rating : ℕ) (ps : List (ProviderProfile Average))
      → All (λ p. p.average_rating ≡ none) ps
      → All
          (λ p. p.average_rating ≡ none)
          (update_where (λ p. p.user_id == detailer) (with_rating blend rating) ps)
  stays_null detailer rating ps h =
      All-update_where (λ p. p.average_rating ≡ none) (λ p. p.user_id == detailer)
        (with_rating blend rating) ps (λ p e. rw e refl) h

  add_review-Unrated :
      (r : Review) (db : ReviewDb Average)
      → Unrated db
      → Unrated (add_review blend r (insert_review r db) db).1
  unfolding insert_review update_detailer_aggregate
  add_review-Unrated r db h =
      elim (Bool-cases (any (λ q. q.appointment_id == r.appointment_id) db.reviews)) [
        | inl e ↦ rw (e, insert_review) h
        | inr e ↦ rw (e, insert_review) (stays_null r.detailer_id r.rating db.profiles h)
      ]

  -- When no profile has an average, none has one after a review either: NULL stays NULL.
  pub create_review-Unrated :
      (appointment reviewer rating : ℕ) (db : ReviewDb Average)
      → Unrated db
      → Unrated (create_review blend appointment reviewer rating db).1
  create_review-Unrated appointment reviewer rating db h =
      create_review_cases blend Unrated appointment reviewer rating db h
        (λ a d _ _ _. add_review-Unrated (new_review db.next_id a.id reviewer d rating) db h)
