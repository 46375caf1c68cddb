-- ===== src/Rides/Matching/Rows.antt =====
-- The offers of one ride: what an answer, a request and a new offer do to their rows.
use mathlib.Core.Bool.{◌&&◌}
use raycarwash_project.Base.{
  ℕ, ◌≤◌, ◌≡◌, refl, sym, ap, subst, ◌⊎◌, inl, inr, Bool, false, some, List, [], ◌∷◌, ◌++◌, ◌==◌,
  arith, if◌then◌else◌, Bool-cases, All, any, count_where, update_where,
}
use raycarwash_project.Store.{Error, Result, ok, err}
use raycarwash_project.Rides.{AssignmentStatus, AppointmentAssignment, Rides, is_offered}
use raycarwash_project.Rides.Matching.{new_offer, make_offer}

abbrev pub open_for : ℕ → AppointmentAssignment → Bool
open_for a r = r.appointment_id == a && is_offered r.status

-- Not open, or the offer that the loop has made.
abbrev pub Mine : ℕ → ℕ → ℕ → AppointmentAssignment → Type 0
Mine a i d r = (open_for a r ≡ false) ⊎ ((r.id ≡ i) × (r.detailer_id ≡ d))

abbrev pub Closed : ℕ → List AppointmentAssignment → Type 0
Closed a rows = All (λ r. open_for a r ≡ false) rows

abbrev pub answered :
    ℕ → AssignmentStatus → ℕ → List AppointmentAssignment → List AppointmentAssignment
answered i status now =
    update_where (λ r. r.id == i) (λ r. record r { status = status; responded_at = some now })

module _ (a : ℕ) (status : AssignmentStatus) (shut : is_offered status ≡ false) (i now : ℕ) where
  pub Closed-answered :
      (rows : List AppointmentAssignment) → Closed a rows → Closed a (answered i status now rows)
  Closed-answered [] h = tt
  Closed-answered (r ∷ rows) h = (ground (arith, h.0, shut), Closed-answered rows h.1)

  pub count-answered :
      (rows : List AppointmentAssignment)
      → count_where (open_for a) (answered i status now rows) ≤ count_where (open_for a) rows
  count-answered [] = omega arith
  count-answered (r ∷ rows) = ground (arith, count-answered rows, shut)

  pub Mine-answered :
      (j d : ℕ) (rows : List AppointmentAssignment)
      → All (Mine a j d) rows
      → All (Mine a j d) (answered i status now rows)
  Mine-answered j d [] h = tt
  Mine-answered j d (r ∷ rows) h = (kept, Mine-answered j d rows h.1)
    where
      kept :
          Mine a j d
            (if r.id == i then record r { status = status; responded_at = some now } else r)
      kept = elim (Bool-cases (r.id == i)) [
        | inl e ↦ rw e (inl (ground (arith, shut)))
        | inr e ↦ rw e (h.0)
      ]

  -- The answer to the one open offer closes it.
  pub Mine-Closed :
      (d : ℕ) (rows : List AppointmentAssignment)
      → All (Mine a i d) rows
      → Closed a (answered i status now rows)
  Mine-Closed d [] h = tt
  Mine-Closed d (r ∷ rows) h = (closed, Mine-Closed d rows h.1)
    where
      closed :
          open_for a
            (if r.id == i then record r { status = status; responded_at = some now } else r)
          ≡ false
      closed = elim (Bool-cases (r.id == i)) [
        | inl e ↦ rw e (ground (arith, shut))
        | inr e ↦ elim (h.0) [ inl c ↦ rw e c | inr (same, _) ↦ absurd (ground (arith, e, same)) ]
      ]

count-append_one :
    (a : ℕ) (rows : List AppointmentAssignment) (r : AppointmentAssignment)
    → Closed a rows
    → count_where (open_for a) (rows ++ r ∷ []) ≤ 1
count-append_one a [] r h = ground arith
count-append_one a (x ∷ rows) r h = rw (h.0) (count-append_one a rows r h.1)

Mine-append_one :
    (a d : ℕ) (rows : List AppointmentAssignment) (r : AppointmentAssignment)
    → r.detailer_id ≡ d
    → Closed a rows
    → All (Mine a r.id d) (rows ++ r ∷ [])
Mine-append_one a d [] r same h = (inr (refl, same), tt)
Mine-append_one a d (x ∷ rows) r same h = (inl h.0, Mine-append_one a d rows r same h.1)

id_or_zero : Result ℕ → ℕ
id_or_zero (ok n) = n
id_or_zero (err e) = 0

pub make_offer_ok :
    (a d now id : ℕ) (s s' : Rides)
    → make_offer a d now s ≡ (ok id, s')
    → (id ≡ s.next_id) × (s'.assignments ≡ s.assignments ++ new_offer s.next_id a d now ∷ [])
unfolding make_offer id_or_zero
make_offer_ok a d now id s s' h =
    elim (Bool-cases (any (λ r. r.appointment_id == a && r.detailer_id == d) s.assignments)) [
      | inl t ↦ absurd (ground (arith, rw t at h))
      | inr f ↦
          (ap (λ p. id_or_zero p.0) (sym (rw f at h)), ap (λ p. p.1.assignments) (sym (rw f at h)))
    ]

-- The new offer is the only open one.
pub make_offer-Mine :
    (a d now id : ℕ) (s s' : Rides)
    → make_offer a d now s ≡ (ok id, s')
    → Closed a s.assignments
    → All (Mine a id d) s'.assignments × (count_where (open_for a) s'.assignments ≤ 1)
unfolding make_offer
make_offer-Mine a d now id s s' h closed =
    let (same, rows) = make_offer_ok a d now id s s' h in
    subst (λ xs. All (Mine a id d) xs × (count_where (open_for a) xs ≤ 1)) (sym rows)
      (
        subst (λ n. All (Mine a n d) (s.assignments ++ new_offer s.next_id a d now ∷ [])) (sym same)
            (Mine-append_one a d s.assignments (new_offer s.next_id a d now) refl closed),
        count-append_one a s.assignments (new_offer s.next_id a d now) closed,
      )

-- A second offer to one detailer fails, and leaves the tables as they were.
pub make_offer_err :
    (a d now : ℕ) (s s' : Rides) (e : Error)
    → make_offer a d now s ≡ (err e, s')
    → (s'.assignments ≡ s.assignments) × (s'.appointments ≡ s.appointments)
unfolding make_offer
make_offer_err a d now s s' e h =
    elim (Bool-cases (any (λ r. r.appointment_id == a && r.detailer_id == d) s.assignments)) [
      | inl t ↦ (
        ap (λ p. p.1.assignments) (sym (rw t at h)),
        ap (λ p. p.1.appointments) (sym (rw t at h)),
      )
      | inr f ↦ absurd (ground (arith, rw f at h))
    ]
