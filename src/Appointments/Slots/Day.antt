-- ===== src/Appointments/Slots/Day.antt =====
-- A day of slots: the fuel is enough, and the slots are the grid of the day.
use Prim.Native.String.{String}
use raycarwash_project.Base.{ℕ, ◌≡◌, Option, List, arith}
use raycarwash_project.Catalog.{VehicleSize}
use raycarwash_project.Appointments.Slots.{
  TimeSlot, DayConfig, Zones, slot_fuel, day_window, day_slots, work_start_of,
}
use raycarwash_project.Appointments.Slots.Grid.{HasEnds, Grid, slots_from-Grid}
use raycarwash_project.Store.{Env, Db, ok}

-- The day's slots are computed, and are the grid of its window.
abbrev pub DayGrid :
    Zones
    → Env
    → Db
    → ℕ
    → ℕ
    → Option String
    → DayConfig
    → Option (ℕ × VehicleSize)
    → Option ℕ
    → Type 0
DayGrid z env d detailer_id date tz_name day service override =
    (slots : List TimeSlot) × (day_slots z env d detailer_id date tz_name day service override
      ≡ ok slots)
    × Grid (day_window z env d detailer_id date tz_name day service override)
        (work_start_of z date tz_name day) slots

-- The day's slots are computed, and are the half hours of the working hours, each marked available
-- exactly when it starts after the earliest bookable time, the service with its buffer ends within
-- the working hours, and it meets none of the day's appointments, which all have an end.
pub day_slots-Grid :
    (z : Zones) (env : Env) (d : Db) (detailer_id date : ℕ) (tz_name : Option String)
    (day : DayConfig) (service : Option (ℕ × VehicleSize)) (override : Option ℕ)
    → let w = day_window z env d detailer_id date tz_name day service override in
      HasEnds w.occupied → DayGrid z env d detailer_id date tz_name day service override
unfolding day_slots slot_fuel day_window
day_slots-Grid z env d detailer_id date tz_name day service override ends =
    slots_from-Grid (day_window z env d detailer_id date tz_name day service override) _ _ ends
      (omega arith)
