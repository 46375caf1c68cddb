-- ===== src/Appointments/Slots/Grid.antt =====
-- The loop of the availability engine against its meaning: the half hours of the working day, each
-- free exactly when the service fits.
use raycarwash_project.Base.{
  ℕ, zero, suc, ◌+◌, ◌*◌, ◌≤◌, ◌<◌, ◌≡◌, refl, ◌⊎◌, inl, inr, ◌↔◌, ltb, leb, Bool, true, false,
  Option, none, some, List, [], ◌∷◌, if◌then◌else◌, arith, Bool-cases, ltb→lt,
}
use raycarwash_project.Pricing.{minutes}
use raycarwash_project.Appointments.Slots.{
  TimeSlot, Window, any_occupied, slot_available, display_end, slots_from, slot_granularity_minutes,
}
use raycarwash_project.Store.{ok}

-- Every appointment in the way has an end.
abbrev pub HasEnds : List (ℕ × Option ℕ) → Type 0
HasEnds [] = Unit
HasEnds ((s, none) ∷ rest) = ⊥
HasEnds ((s, some e) ∷ rest) = HasEnds rest

-- The half-open interval [c, f) misses an occupied one.
abbrev pub Clear : ℕ → ℕ → ℕ × Option ℕ → Type 0
Clear c f (s, none) = Unit
Clear c f (s, some e) = (e ≤ c) ⊎ (f ≤ s)

abbrev pub Disjoint : ℕ → ℕ → List (ℕ × Option ℕ) → Type 0
Disjoint c f [] = Unit
Disjoint c f (o ∷ rest) = Clear c f o × Disjoint c f rest

-- A service that starts at `c` can be booked.
abbrev pub IsFree : Window → ℕ → Type 0
IsFree w c =
    (w.earliest_bookable < c)
    × (c + w.service_duration ≤ w.work_end)
    × Disjoint c (c + w.service_duration) w.occupied

-- The half hours from `c` to the end of work, each marked available exactly when it is free.
abbrev pub Grid : Window → ℕ → List TimeSlot → Type 0
Grid w c [] = w.work_end ≤ c
Grid w c (s ∷ rest) =
    (c < w.work_end)
    × (s.start_time ≡ c)
    × (s.end_time ≡ display_end c)
    × ((s.is_available ≡ true) ↔ IsFree w c)
    × Grid w (display_end c) rest

any_occupied_lem :
    (c f : ℕ) (os : List (ℕ × Option ℕ))
    → HasEnds os
    → ((any_occupied c f os ≡ ok true) × (Disjoint c f os → ⊥))
      ⊎ ((any_occupied c f os ≡ ok false) × Disjoint c f os)
unfolding any_occupied
any_occupied_lem c f [] h = inr (refl, tt)
any_occupied_lem c f ((s, none) ∷ rest) h = absurd h
any_occupied_lem c f ((s, some e) ∷ rest) h = ground (arith, any_occupied_lem c f rest h)

slot_available_lem :
    (w : Window) (c : ℕ)
    → HasEnds w.occupied
    → (b : Bool) × (slot_available w c ≡ ok b) × ((b ≡ true) ↔ IsFree w c)
unfolding slot_available
slot_available_lem w c h = elim (any_occupied_lem c (c + w.service_duration) w.occupied h) [
  | inl (e, busy) ↦ rw e (false, ground arith, ((λ t. cc), (λ t. absurd (busy t.2))))
  | inr (e, free) ↦ rw e (
    if leb c w.earliest_bookable
        then false
        else if ltb w.work_end (c + w.service_duration)
        then false
        else true,
    ground arith,
    ((λ t. (ground arith, ground arith, free)), (λ t. ground arith)),
  )
]

-- The loop, given fuel for the half hours that are left, returns the grid.
pub slots_from-Grid :
    (w : Window) (fuel c : ℕ)
    → HasEnds w.occupied
    → w.work_end < c + fuel * minutes slot_granularity_minutes
    → (slots : List TimeSlot) × (slots_from w fuel c ≡ ok slots) × Grid w c slots
unfolding slots_from
slots_from-Grid w zero c h f = ([], refl, omega arith)
slots_from-Grid w (suc fuel) c h f =
    let (rest, e, g) = slots_from-Grid w fuel (display_end c) h (omega arith) in
    let (b, e', iff) = slot_available_lem w c h in
    elim (Bool-cases (ltb c w.work_end)) [
      | inl t ↦ (
        record { start_time = c; end_time = display_end c; is_available = b } ∷ rest,
        rw (t, e', e),
        (ltb→lt _ _ t, refl, refl, iff, g),
      )
      | inr t ↦ ([], rw t, ground arith)
    ]
