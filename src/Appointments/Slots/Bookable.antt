-- ===== src/Appointments/Slots/Bookable.antt =====
-- A slot that the availability engine answers as available can be booked.
use Prim.Native.String.{String}
use raycarwash_project.Base.{
  ℕ, zero, suc, ◌+◌, ◌≤◌, ◌<◌, ◌≡◌, refl, sym, ap, ◌∙◌, subst, ltb, leb, true, false, not, ◌&&◌,
  Option, none, some, List, [], ◌∷◌, All, arith, ◌==◌, Bool-cases, Option-cases, inl, inr,
  select_where, count_where, find_where,
}
use raycarwash_project.Catalog.{VehicleSize, Service}
use raycarwash_project.Pricing.{minutes, hours, scaled, calculate_appointment_data}
use raycarwash_project.Users.Defaults.Counts.{IsIn}
use raycarwash_project.Appointments.Queries.{
  is_active_for, overlaps, get_overlapping_count, get_active_for_detailer_on_date, insert_row,
  sort_rows,
}
use raycarwash_project.Appointments.Slots.{
  TimeSlot, Window, DayConfig, Zones, any_occupied, slot_available, display_end, slots_from,
  service_minutes, day_window, day_slots, work_start_of, work_end_of, occupied_of,
}
use raycarwash_project.Appointments.Slots.Grid.{Clear, Disjoint}
use raycarwash_project.Store.{Appointment, Env, Db, ok, Result-cases}

insert_row-Disjoint :
    (c f : ℕ) (a : Appointment) (rows : List Appointment)
    → Disjoint c f (occupied_of (insert_row a rows))
    → Disjoint c f (occupied_of (a ∷ rows))
unfolding insert_row occupied_of
insert_row-Disjoint c f a [] h = h
insert_row-Disjoint c f a (b ∷ rows) h = elim (Bool-cases (ltb b.scheduled_time a.scheduled_time)) [
  | inl e ↦
      let k = rw e at h in let more = insert_row-Disjoint c f a rows k.1 in (more.0, (k.0, more.1))
  | inr e ↦ rw e at h
]

sort_rows-Disjoint :
    (c f : ℕ) (rows : List Appointment)
    → Disjoint c f (occupied_of (sort_rows rows))
    → Disjoint c f (occupied_of rows)
unfolding sort_rows occupied_of
sort_rows-Disjoint c f [] h = h
sort_rows-Disjoint c f (a ∷ rows) h =
    let k = insert_row-Disjoint c f a (sort_rows rows) h in (k.0, sort_rows-Disjoint c f rows k.1)

Clear-overlaps :
    (c f : ℕ) (a : Appointment)
    → Clear c f (a.scheduled_time, a.travel_buffer_end_time)
    → overlaps c f a ≡ false
Clear-overlaps c f a h = elim (Option-cases a.travel_buffer_end_time) [
  | inl e ↦ rw e (ground arith)
  | inr (t, e) ↦ let k = rw e at h in rw e (ground (arith, k))
]

any_occupied-Disjoint :
    (c f : ℕ) (os : List (ℕ × Option ℕ)) → any_occupied c f os ≡ ok false → Disjoint c f os
unfolding any_occupied
any_occupied-Disjoint c f [] h = tt
any_occupied-Disjoint c f ((s, none) ∷ rest) h = absurd (ground (arith, h))
any_occupied-Disjoint c f ((s, some e) ∷ rest) h = elim (Bool-cases (ltb c e && ltb s f)) [
  | inl t ↦ absurd (ground (arith, rw t at h))
  | inr t ↦ (ground (arith, t), any_occupied-Disjoint c f rest (rw t at h))
]

-- What the loop has tested when it answers true.
abbrev Fits : Window → ℕ → Type 0
Fits w c = (c + w.service_duration ≤ w.work_end) × Disjoint c (c + w.service_duration) w.occupied

slot_available-Fits : (w : Window) (c : ℕ) → slot_available w c ≡ ok true → Fits w c
unfolding slot_available
slot_available-Fits w c h = elim (Bool-cases (leb c w.earliest_bookable)) [
  | inl t ↦ absurd (ground (arith, rw t at h))
  | inr t ↦ elim (Bool-cases (ltb w.work_end (c + w.service_duration))) [
    | inl u ↦ absurd (ground (arith, rw (t, u) at h))
    | inr u ↦ elim (Result-cases (any_occupied c (c + w.service_duration) w.occupied)) [
      | inr (e, v) ↦ absurd (ground (arith, rw (t, u, v) at h))
      | inl (true, v) ↦ absurd (ground (arith, rw (t, u, v) at h))
      | inl (false, v) ↦
          (ground (arith, u), any_occupied-Disjoint c (c + w.service_duration) w.occupied v)
    ]
  ]
]

-- An available slot of the loop has passed its tests, and is not before the loop's start.
slots_from-Fits :
    (w : Window) (fuel c : ℕ) (slots : List TimeSlot) (slot : TimeSlot)
    → slots_from w fuel c ≡ ok slots
    → IsIn slot slots
    → slot.is_available ≡ true
    → (c ≤ slot.start_time) × Fits w slot.start_time
unfolding slots_from
slots_from-Fits w zero c slots slot h at free =
    let same : [] ≡ slots = ground (arith, h) in absurd (subst (IsIn slot) (sym same) at)
slots_from-Fits w (suc fuel) c slots slot h at free = elim (Bool-cases (ltb c w.work_end)) [
  | inr t ↦
      let same : [] ≡ slots = ground (arith, rw t at h) in absurd (subst (IsIn slot) (sym same) at)
  | inl t ↦ elim (Result-cases (slot_available w c)) [
    | inr (e, v) ↦ absurd (ground (arith, rw (t, v) at h))
    | inl (b, v) ↦ elim (Result-cases (slots_from w fuel (display_end c))) [
      | inr (e, more) ↦ absurd (ground (arith, rw (t, v, more) at h))
      | inl (rest, more) ↦
          let first : TimeSlot = record {
            start_time = c;
            end_time = display_end c;
            is_available = b;
          } in
          let same : first ∷ rest ≡ slots = ground (arith, rw (t, v, more) at h) in
          elim (subst (IsIn slot) (sym same) at) [
            | inl here ↦
                subst (λ x. (c ≤ x.start_time) × Fits w x.start_time) (sym here)
                  (
                    omega arith,
                    slot_available-Fits w c
                        (v ∙ ap ok (sym (ap (λ x. x.is_available) here) ∙ free)),
                  )
            | inr further ↦
                let (from, fits) =
                  slots_from-Fits w fuel (display_end c) rest slot more further free in
                (omega (arith, from), fits)
          ]
    ]
  ]
]

abbrev pub EndsBy : ℕ → Option ℕ → Type 0
EndsBy t none = Unit
EndsBy t (some e) = e ≤ t

-- An active appointment of the detailer that starts before the day has ended, with its buffer, when
-- the day begins.
abbrev pub NoneOvernight : ℕ → ℕ → List Appointment → Type 0
NoneOvernight detailer_id midnight = All (λ a.
    is_active_for detailer_id a ≡ true
    → a.scheduled_time < midnight
    → EndsBy midnight a.travel_buffer_end_time)

before-overlaps :
    (c f midnight : ℕ) (a : Appointment)
    → midnight ≤ c
    → EndsBy midnight a.travel_buffer_end_time
    → overlaps c f a ≡ false
before-overlaps c f midnight a from h = elim (Option-cases a.travel_buffer_end_time) [
  | inl e ↦ rw e (ground arith)
  | inr (t, e) ↦ let k = rw e at h in rw e (ground (arith, k, from))
]

after-overlaps : (c f : ℕ) (a : Appointment) → f ≤ a.scheduled_time → overlaps c f a ≡ false
after-overlaps c f a h = ground (arith, h)

no_overlap :
    (c f midnight detailer_id : ℕ) (rows : List Appointment)
    → midnight ≤ c
    → f ≤ midnight + hours 24
    → NoneOvernight detailer_id midnight rows
    → Disjoint c f (
        occupied_of (
          select_where
            (λ a.
              is_active_for detailer_id a
              && leb midnight a.scheduled_time
              && ltb a.scheduled_time (midnight + hours 24))
            rows))
    → count_where (λ a. is_active_for detailer_id a && overlaps c f a) rows ≡ 0
unfolding occupied_of
no_overlap c f midnight detailer_id [] from until none_left h = refl
no_overlap c f midnight detailer_id (a ∷ rows) from until none_left h =
    elim (Bool-cases (is_active_for detailer_id a)) [
      | inr e ↦ rw e (no_overlap c f midnight detailer_id rows from until none_left.1 (rw e at h))
      | inl e ↦ elim (Bool-cases (leb midnight a.scheduled_time)) [
        | inr early ↦
            rw (e, before-overlaps c f midnight a from (none_left.0 e (ground (arith, early))))
              (no_overlap c f midnight detailer_id rows from until none_left.1 (rw (e, early) at h))
        | inl m ↦ elim (Bool-cases (ltb a.scheduled_time (midnight + hours 24))) [
          | inr late ↦
              rw (e, after-overlaps c f a (ground (arith, late, until)))
                (no_overlap c f midnight detailer_id rows from until none_left.1
                  (rw (e, m, late) at h))
          | inl u ↦
              let k = rw (e, m, u) at h in
              rw (e, Clear-overlaps c f a k.0)
                (no_overlap c f midnight detailer_id rows from until none_left.1 k.1)
        ]
      ]
    ]

-- The day's work begins and ends within its twenty-four hours.
abbrev pub WorksWithin : Zones → ℕ → Option String → DayConfig → Type 0
WorksWithin z date tz_name day =
    (z.midnight date ≤ work_start_of z date tz_name day)
    × (work_end_of z date tz_name day ≤ z.midnight date + hours 24)

service_duration_lem :
    (z : Zones) (env : Env) (d : Db) (detailer_id date : ℕ) (tz_name : Option String)
    (day : DayConfig) (service_id : ℕ) (size : VehicleSize) (svc : Service)
    → find_where (λ (s : Service). s.id == service_id && s.is_active && not s.is_deleted) d.services
      ≡ some svc
    → (day_window z env d detailer_id date tz_name day
        (some (service_id, size))
        none).service_duration
      ≡ minutes (scaled svc.base_duration_minutes size) + minutes env.settings.travel_buffer_minutes
unfolding day_window service_minutes calculate_appointment_data
service_duration_lem z env d detailer_id date tz_name day service_id size svc found =
    rw (found, day_window, service_minutes, calculate_appointment_data) (omega arith)

-- When the day's work lies within its twenty-four hours, and no active appointment of the detailer
-- from before reaches into the day: in the interval of a slot that the engine answers as available for a
-- service and a size, which create_appointment checks for one vehicle of that size without add-ons,
-- the travel buffer included, it counts no appointment.
pub slot-bookable :
    (z : Zones) (env : Env) (d : Db) (detailer_id date : ℕ) (tz_name : Option String)
    (day : DayConfig) (service_id : ℕ) (size : VehicleSize) (svc : Service) (slots : List TimeSlot)
    (slot : TimeSlot)
    → WorksWithin z date tz_name day
    → NoneOvernight detailer_id (z.midnight date) d.appointments
    → find_where (λ (s : Service). s.id == service_id && s.is_active && not s.is_deleted) d.services
      ≡ some svc
    → day_slots z env d detailer_id date tz_name day (some (service_id, size)) none ≡ ok slots
    → IsIn slot slots
    → slot.is_available ≡ true
    → get_overlapping_count detailer_id slot.start_time
        (slot.start_time
          + minutes (scaled svc.base_duration_minutes size)
          + minutes env.settings.travel_buffer_minutes)
        d
      ≡ 0
unfolding get_overlapping_count day_window day_slots get_active_for_detailer_on_date
slot-bookable z env d detailer_id date tz_name day service_id size svc slots slot (from, until)
      none_left found answered at free =
    let w = day_window z env d detailer_id date tz_name day (some (service_id, size)) none in
    let c = slot.start_time in
    let (later, (ends, clear)) = slots_from-Fits w _ _ slots slot answered at free in
    let f = c + w.service_duration in
    let length =
      service_duration_lem z env d detailer_id date tz_name day service_id size svc found in
    subst (λ x. count_where (λ a. is_active_for detailer_id a && overlaps c x a) d.appointments ≡ 0)
      (ap (λ n. c + n) length ∙ omega arith)
      (no_overlap c f (z.midnight date) detailer_id d.appointments (omega (arith, from, later))
        (omega (arith, ends, until)) none_left (sort_rows-Disjoint c f _ clear))
