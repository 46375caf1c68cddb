-- ===== src/Appointments/Slots.antt =====
-- AppointmentService.get_available_slots of backend/domains/appointments/service.py. The conversion
-- of a wall-clock time of a zone to UTC (zoneinfo) and the day of the week are parameters.
pub mod Grid
pub mod Day
mod Bookable
mod Tests
use Prim.Native.String.{String}
use text.Mathlib.Text.{◌==◌ as str_eq}
use raycarwash_project.Base.{
  ℕ, zero, suc, ◌+◌, ◌-◌, ◌*◌, ◌/◌, ltb, leb, Bool, true, false, not, ◌&&◌, Option, none, some,
  List, [], ◌∷◌, if◌then◌else◌, find_where, ◌==◌,
}
use raycarwash_project.Catalog.{VehicleSize, Service}
use raycarwash_project.Pricing.{
  Settings, AppointmentCalculation, calculate_appointment_data, minutes, hours,
}
use raycarwash_project.Appointments.Queries.{get_active_for_detailer_on_date}
use raycarwash_project.Appointments.Booking.{get_active_detailer}
use raycarwash_project.Store.{Appointment, Env, Db, Error, http, type_error, Result, ok, err}

abbrev pub slot_granularity_minutes : ℕ
slot_granularity_minutes = 30

abbrev pub min_advance_booking_minutes : ℕ
min_advance_booking_minutes = 60

pub record TimeSlot : Type 0 where
  pub start_time : ℕ
  pub end_time : ℕ
  pub is_available : Bool

-- What the loop runs with. An appointment may have no travel_buffer_end_time.
pub record Window : Type 0 where
  pub work_end : ℕ
  pub earliest_bookable : ℕ
  pub service_duration : ℕ
  pub occupied : List (ℕ × Option ℕ)

-- `any(cursor < occ_end and occ_start < service_end for …)`; `<` with None is a TypeError
unfoldable pub any_occupied : ℕ → ℕ → List (ℕ × Option ℕ) → Result Bool
any_occupied cursor service_end [] = ok false
any_occupied cursor service_end ((occ_start, none) ∷ rest) = err type_error
any_occupied cursor service_end ((occ_start, some occ_end) ∷ rest) =
    let more = any_occupied cursor service_end rest in
    if ltb cursor occ_end && ltb occ_start service_end then ok true else more

-- the three branches of the loop body
unfoldable pub slot_available : Window → ℕ → Result Bool
unfolding any_occupied
slot_available w cursor =
    if leb cursor w.earliest_bookable
    then ok false
    else if ltb w.work_end (cursor + w.service_duration)
    then ok false
    else elim (any_occupied cursor (cursor + w.service_duration) w.occupied) [
      | err e ↦ err e
      | ok busy ↦ ok (not busy)
    ]

abbrev pub display_end : ℕ → ℕ
display_end cursor = cursor + minutes slot_granularity_minutes

-- the while loop, with fuel
unfoldable pub slots_from : Window → ℕ → ℕ → Result (List TimeSlot)
slots_from w zero cursor = ok []
slots_from w (suc fuel) cursor =
    let rest = slots_from w fuel (display_end cursor) in
    if ltb cursor w.work_end
    then elim (slot_available w cursor) [
      | err e ↦ err e
      | ok free ↦ elim rest [
        | err e ↦ err e
        | ok slots ↦ ok (
            record { start_time = cursor; end_time = display_end cursor; is_available = free }
            ∷ slots)
      ]
    ]
    else ok []

-- The rounds of the loop: one for each half hour up to the end of work.
unfoldable pub slot_fuel : ℕ → ℕ → ℕ
slot_fuel work_start work_end = (work_end - work_start) / minutes slot_granularity_minutes + 1

-- one day of ProviderProfile.working_hours, with "HH:MM" split into its two numbers;
-- an absent or empty text is none
pub record DayConfig : Type 0 where
  pub enabled : Option Bool
  pub start : Option (ℕ × ℕ)
  pub finish : Option (ℕ × ℕ)

-- the columns of ProviderProfile that are read; `days` is working_hours by the name of the day
pub record Profile : Type 0 where
  pub user_id : ℕ
  pub is_accepting_bookings : Bool
  pub timezone : Option String
  pub days : ℕ → Option DayConfig

-- `datetime(date, h, m, tzinfo=ZoneInfo(name)).astimezone(utc)`, with the fall-back to UTC for an
-- unknown name; midnight UTC of the date; and its day of the week
pub record Zones : Type 0 where
  pub to_utc : String → ℕ → ℕ × ℕ → ℕ
  pub midnight : ℕ → ℕ
  pub weekday : ℕ → ℕ

abbrev or_default : {A : Type 0} → Option A → A → A
or_default none d = d
or_default (some a) _ = a

default_day : DayConfig
default_day = record { enabled = some true; start = some (8, 0); finish = some (18, 0) }

-- the if/elif/else that sets service_duration_minutes
unfoldable pub service_minutes : Settings → Db → Option (ℕ × VehicleSize) → Option ℕ → ℕ → ℕ
service_minutes s d service (some override) work_start = override + s.travel_buffer_minutes
service_minutes s d none none work_start = slot_granularity_minutes
service_minutes s d (some (service_id, size)) none work_start =
    elim (find_where
      (λ (svc : Service). svc.id == service_id && svc.is_active && not svc.is_deleted) d.services) [
        | none ↦ slot_granularity_minutes
        | some svc ↦
            (calculate_appointment_data s svc size work_start).duration_minutes
            + s.travel_buffer_minutes
      ]

unfoldable pub occupied_of : List Appointment → List (ℕ × Option ℕ)
occupied_of [] = []
occupied_of (a ∷ rest) = (a.scheduled_time, a.travel_buffer_end_time) ∷ occupied_of rest

-- `(profile.timezone if profile else None) or "America/Indiana/Indianapolis"`
abbrev zone_name : Option String → String
zone_name none = "America/Indiana/Indianapolis"
zone_name (some s) = if str_eq s "" then "America/Indiana/Indianapolis" else s

-- work_start and work_end
unfoldable pub work_start_of : Zones → ℕ → Option String → DayConfig → ℕ
work_start_of z date zone day = z.to_utc (zone_name zone) date (or_default day.start (8, 0))

unfoldable pub work_end_of : Zones → ℕ → Option String → DayConfig → ℕ
work_end_of z date zone day = z.to_utc (zone_name zone) date (or_default day.finish (18, 0))

-- what the loop runs with, from the work hours on
unfoldable pub day_window :
    Zones
    → Env
    → Db
    → ℕ
    → ℕ
    → Option String
    → DayConfig
    → Option (ℕ × VehicleSize)
    → Option ℕ
    → Window
unfolding occupied_of work_start_of work_end_of
day_window z env d detailer_id date zone day service override =
    let existing =
      get_active_for_detailer_on_date detailer_id (z.midnight date) (z.midnight date + hours 24)
        d in
    record {
      work_end = work_end_of z date zone day;
      earliest_bookable = env.now + minutes min_advance_booking_minutes;
      service_duration =
          minutes (service_minutes env.settings d service override (work_start_of z date zone day));
      occupied = occupied_of existing;
    }

unfoldable pub day_slots :
    Zones
    → Env
    → Db
    → ℕ
    → ℕ
    → Option String
    → DayConfig
    → Option (ℕ × VehicleSize)
    → Option ℕ
    → Result (List TimeSlot)
day_slots z env d detailer_id date zone day service override =
    let start = work_start_of z date zone day in
    slots_from (day_window z env d detailer_id date zone day service override)
      (slot_fuel start (work_end_of z date zone day)) start

unfoldable pub get_available_slots :
    Zones
    → Env
    → Db
    → List Profile
    → ℕ
    → ℕ
    → Option (ℕ × VehicleSize)
    → Option ℕ
    → Result (List TimeSlot)
unfolding default_day
get_available_slots z env d profiles detailer_id date service override =
    let profile = find_where (λ (p : Profile). p.user_id == detailer_id) profiles in
    let accepting : Bool = elim profile [ none ↦ true | some p ↦ p.is_accepting_bookings ] in
    let configured : Option DayConfig = elim profile [
      | none ↦ none
      | some p ↦ p.days (z.weekday date)
    ] in
    let day = or_default configured default_day in
    let zone : Option String = elim profile [ none ↦ none | some p ↦ p.timezone ] in
    elim (get_active_detailer detailer_id d) [
      | none ↦ err (http 404)
      | some _ ↦
          if accepting && or_default day.enabled true
          then day_slots z env d detailer_id date zone day service override
          else ok []
    ]
