-- ===== src/Appointments/Queries.antt =====
-- The queries of AppointmentRepository (backend/domains/appointments/repository.py) on a detailer's
-- calendar.
use raycarwash_project.Base.{
  ℕ, ◌==◌, ltb, leb, Bool, false, not, ◌&&◌, none, some, List, [], ◌∷◌, count_where, select_where,
  if◌then◌else◌,
}
use raycarwash_project.Appointments.Status.{is_terminal}
use raycarwash_project.Store.{Appointment, Db}

-- `Appointment.detailer_id == detailer_id`, which no NULL meets
abbrev pub has_detailer : ℕ → Appointment → Bool
has_detailer detailer_id a = elim a.detailer_id [ none ↦ false | some d ↦ d == detailer_id ]

-- of the detailer, not deleted, and in no terminal status
abbrev pub is_active_for : ℕ → Appointment → Bool
is_active_for detailer_id a =
    has_detailer detailer_id a && not a.is_deleted && not (is_terminal a.status)

-- `scheduled_time < new_end AND travel_buffer_end_time > new_start`; NULL compares as false
abbrev pub overlaps : ℕ → ℕ → Appointment → Bool
overlaps new_start new_end a =
    ltb a.scheduled_time new_end
    && elim a.travel_buffer_end_time [ none ↦ false | some e ↦ ltb new_start e ]

unfoldable pub get_overlapping_count : ℕ → ℕ → ℕ → Db → ℕ
get_overlapping_count detailer_id new_start new_buffer_end d =
    count_where (λ a. is_active_for detailer_id a && overlaps new_start new_buffer_end a)
      d.appointments

-- ORDER BY scheduled_time
unfoldable pub insert_row : Appointment → List Appointment → List Appointment
insert_row a [] = a ∷ []
insert_row a (b ∷ rest) =
    if ltb b.scheduled_time a.scheduled_time then b ∷ insert_row a rest else a ∷ b ∷ rest

unfoldable pub sort_rows : List Appointment → List Appointment
sort_rows [] = []
sort_rows (a ∷ rest) = insert_row a (sort_rows rest)

unfoldable pub get_active_for_detailer_on_date : ℕ → ℕ → ℕ → Db → List Appointment
unfolding insert_row sort_rows
get_active_for_detailer_on_date detailer_id day_start day_end d = sort_rows (
    select_where
      (λ a.
        is_active_for detailer_id a
        && leb day_start a.scheduled_time
        && ltb a.scheduled_time day_end)
      d.appointments)
