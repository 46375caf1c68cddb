-- ===== src/Reviews/Invariant.antt =====
-- Reviews are of completed bookings by their clients, one for each, and the profiles count them.
use raycarwash_project.Base.{
  ℕ, ◌≤◌, ◌≡◌, refl, subst, inl, inr, Bool, true, false, ◌&&◌, List, [], ◌∷◌, ◌++◌, ◌==◌, arith,
  Bool-cases, All, All-append_one, any, count_where, update_where, eq_of_test,
}
use raycarwash_project.Appointments.Status.{completed, status_eq}
use raycarwash_project.Store.{Appointment}
use raycarwash_project.Users.Defaults.Counts.{one_if, IsIn, count-append_one}
use raycarwash_project.Reviews.Cases.{create_review_cases}
use raycarwash_project.Reviews.{
  Review, new_review, ProviderProfile, ReviewDb, insert_review, with_rating,
  update_detailer_aggregate, add_review, create_review,
}

-- the booking of a review
abbrev pub justifies : Review → Appointment → Bool
justifies r a =
    a.id == r.appointment_id && (status_eq a.status completed && a.client_id == r.reviewer_id)

module _ {Average : Type 0} where
  abbrev pub Justified : ReviewDb Average → Type 0
  Justified db = All (λ r. any (justifies r) db.appointments ≡ true) db.reviews

  abbrev pub OneEach : ReviewDb Average → Type 0
  OneEach db = (i : ℕ) → count_where (λ r. r.appointment_id == i) db.reviews ≤ 1

  abbrev pub Counted : ReviewDb Average → Type 0
  Counted db =
      All (λ p. p.total_reviews ≡ count_where (λ r. r.detailer_id == p.user_id) db.reviews)
        db.profiles

  abbrev pub IsReviewed : ReviewDb Average → Type 0
  IsReviewed db = Justified db × OneEach db × Counted db

any-none :
    (i : ℕ) (rs : List Review)
    → any (λ r. r.appointment_id == i) rs ≡ false
    → count_where (λ r. r.appointment_id == i) rs ≡ 0
any-none i [] h = refl
any-none i (r ∷ rs) h = elim (Bool-cases (r.appointment_id == i)) [
  | inl e ↦ absurd (ground (arith, rw e at h))
  | inr e ↦ rw e (any-none i rs (rw e at h))
]

any-IsIn :
    (p : Appointment → Bool) (xs : List Appointment) (a : Appointment)
    → IsIn a xs
    → p a ≡ true
    → any p xs ≡ true
any-IsIn p [] a at h = absurd at
any-IsIn p (x ∷ xs) a (inl same) h = rw (subst (λ z. p z ≡ true) same h) refl
any-IsIn p (x ∷ xs) a (inr at) h = ground (arith, any-IsIn p xs a at h)

module _ {Average : Type 0} (blend : Average → ℕ → ℕ → Average) where
  -- The profiles of the detailer count one review more, and so do the reviews.
  counted :
      (r : Review) (rs : List Review) (ps : List (ProviderProfile Average))
      → All (λ p. p.total_reviews ≡ count_where (λ q. q.detailer_id == p.user_id) rs) ps
      → All
          (λ p. p.total_reviews ≡ count_where (λ q. q.detailer_id == p.user_id) (rs ++ r ∷ []))
          (update_where (λ p. p.user_id == r.detailer_id) (with_rating blend r.rating) ps)
  counted r rs [] h = tt
  counted r rs (p ∷ ps) (own, rest) = elim (Bool-cases (p.user_id == r.detailer_id)) [
    | inl e ↦
        let one : one_if (r.detailer_id == p.user_id) ≡ 1 = ground (arith, e) in
        rw e (
          omega (arith, own, one, count-append_one (λ q. q.detailer_id == p.user_id) rs r),
          counted r rs ps rest,
        )
    | inr e ↦
        let zero : one_if (r.detailer_id == p.user_id) ≡ 0 = ground (arith, e) in
        rw e (
          omega (arith, own, zero, count-append_one (λ q. q.detailer_id == p.user_id) rs r),
          counted r rs ps rest,
        )
  ]

  one_each :
      (r : Review) (rs : List Review)
      → any (λ q. q.appointment_id == r.appointment_id) rs ≡ false
      → ((i : ℕ) → count_where (λ q. q.appointment_id == i) rs ≤ 1)
      → (i : ℕ) → count_where (λ q. q.appointment_id == i) (rs ++ r ∷ []) ≤ 1
  one_each r rs new h i = elim (Bool-cases (r.appointment_id == i)) [
    | inl e ↦
        let free = any-none r.appointment_id rs new in
        let one : one_if (r.appointment_id == i) ≡ 1 = rw e refl in
        let same : count_where (λ q. q.appointment_id == i) rs ≡ 0 =
          subst (λ j. count_where (λ q. q.appointment_id == j) rs ≡ 0)
            (eq_of_test r.appointment_id i e) free in
        omega (arith, count-append_one (λ q. q.appointment_id == i) rs r, one, same)
    | inr e ↦
        let zero : one_if (r.appointment_id == i) ≡ 0 = rw e refl in
        omega (arith, count-append_one (λ q. q.appointment_id == i) rs r, zero, h i)
  ]

  add_review-IsReviewed :
      (r : Review) (db : ReviewDb Average)
      → any (justifies r) db.appointments ≡ true
      → IsReviewed db
      → IsReviewed (add_review blend r (insert_review r db) db).1
  unfolding insert_review update_detailer_aggregate
  add_review-IsReviewed r db just (justified, one, counts) =
      elim (Bool-cases (any (λ q. q.appointment_id == r.appointment_id) db.reviews)) [
        | inl e ↦ rw (e, insert_review) (justified, one, counts)
        | inr e ↦
            rw (e, insert_review)
              (
                All-append_one (λ q. any (justifies q) db.appointments ≡ true) db.reviews r
                    justified just,
                one_each r db.reviews e one,
                counted r db.reviews db.profiles counts,
              )
      ]

  -- Whoever asks and however it ends, a request to review keeps that every review is of a completed
  -- booking by its client, that no booking has two reviews, and that each profile counts the reviews
  -- of its detailer.
  pub create_review-IsReviewed :
      (appointment reviewer rating : ℕ) (db : ReviewDb Average)
      → IsReviewed db
      → IsReviewed (create_review blend appointment reviewer rating db).1
  create_review-IsReviewed appointment reviewer rating db h =
      create_review_cases blend IsReviewed appointment reviewer rating db h (λ a d at done client.
        let r = new_review db.next_id a.id reviewer d rating in
        add_review-IsReviewed r db
          (any-IsIn (justifies r) db.appointments a at (ground (arith, done, client))) h)
