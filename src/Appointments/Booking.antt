-- ===== src/Appointments/Booking.antt =====
-- AppointmentService.create_appointment of backend/domains/appointments/service.py, with the look-ups
-- of the user, vehicle, service and add-on repositories. The advisory lock of the detailer is held
-- from the overlap query to the commit, so requests for one detailer run one after another.
pub mod Create
pub mod Safety
pub mod Breakdown
use raycarwash_project.Base.{
  ℕ, ◌+◌, ◌==◌, Bool, true, not, ◌&&◌, Option, none, some, List, [], ◌∷◌, ◌++◌, any, find_where,
  if◌then◌else◌,
}
use Prim.Native.String.{String}
use raycarwash_project.Catalog.{VehicleSize, Service, Addon, Vehicle, map_body_to_size}
use raycarwash_project.Pricing.{scaled}
use raycarwash_project.Appointments.Status.{detailer, has_role}
use raycarwash_project.Store.{
  User, Db, http, index_error, M, ◌>>=◌, ◌>>◌, pure, gets, or_raise, raise_if,
}

-- AppointmentVehicleCreate and the fields of AppointmentCreate, after its validators
pub record Entry : Type 0 where
  pub vehicle_id : ℕ
  pub service_id : ℕ
  pub addon_ids : List ℕ

pub record AppointmentCreate : Type 0 where
  pub detailer_id : ℕ
  pub scheduled_time : ℕ
  pub vehicles : List Entry
  pub service_address : Option String
  pub client_notes : Option String

unfoldable pub get_active_detailer : ℕ → Db → Option User
get_active_detailer detailer_id d =
    find_where
      (λ u. u.id == detailer_id && has_role detailer u.roles && u.is_active && not u.is_deleted)
      d.users

get_service : ℕ → Db → Option Service
get_service service_id d =
    find_where (λ s. s.id == service_id && s.is_active && not s.is_deleted) d.services

get_vehicle : ℕ → Db → Option Vehicle
get_vehicle vehicle_id d = find_where (λ v. v.id == vehicle_id && not v.is_deleted) d.vehicles

get_many_by_ids : List ℕ → Db → List Addon
get_many_by_ids [] d = []
get_many_by_ids (i ∷ rest) d =
    let more = get_many_by_ids rest d in
    elim (find_where (λ (a : Addon). a.id == i && a.is_active && not a.is_deleted) d.addons) [
      | none ↦ more
      | some a ↦ a ∷ more
    ]

-- the loop that fills service_map
unfoldable pub load_services : List Entry → M (List Service)
unfolding get_service
load_services [] = pure []
load_services (e ∷ rest) = do
  svc ← or_raise (← gets (get_service e.service_id)) (http 404)
  more ← load_services rest
  pure (svc ∷ more)

-- the loop that fills vehicle_obj_map
unfoldable pub load_vehicles : ℕ → List Entry → M (List Vehicle)
unfolding get_vehicle
load_vehicles client_id [] = pure []
load_vehicles client_id (e ∷ rest) = do
  vehicle ← or_raise (← gets (get_vehicle e.vehicle_id)) (http 404)
  raise_if (not (vehicle.owner_id == client_id)) (http 422)
  more ← load_vehicles client_id rest
  pure (vehicle ∷ more)

all_addon_ids : List Entry → List ℕ
all_addon_ids [] = []
all_addon_ids (e ∷ rest) = e.addon_ids ++ all_addon_ids rest

-- every requested add-on is among the rows found
all_found : List ℕ → List Addon → Bool
all_found [] rows = true
all_found (i ∷ rest) rows = any (λ (a : Addon). a.id == i) rows && all_found rest rows

unfoldable pub load_addons : List Entry → M (List Addon)
unfolding all_addon_ids all_found get_many_by_ids
load_addons entries = do
  rows ← gets (get_many_by_ids (all_addon_ids entries))
  raise_if (not (all_found (all_addon_ids entries) rows)) (http 404)
  pure rows

-- one element of per_entry_calcs
pub record Calc : Type 0 where
  pub vehicle : Vehicle
  pub size : VehicleSize
  pub service : Service
  pub addons : List Addon
  pub price : ℕ
  pub duration : ℕ

abbrev pub sum_price : List Addon → ℕ
sum_price [] = 0
sum_price (a ∷ rest) = a.price_cents + sum_price rest

abbrev pub sum_duration : List Addon → ℕ
sum_duration [] = 0
sum_duration (a ∷ rest) = a.duration_minutes + sum_duration rest

-- `[addon_map[aid] for aid in entry.addon_ids if aid in addon_map]`
entry_addons : List Addon → List ℕ → List Addon
entry_addons rows [] = []
entry_addons rows (i ∷ rest) =
    let more = entry_addons rows rest in
    elim (find_where (λ (a : Addon). a.id == i) rows) [ none ↦ more | some a ↦ a ∷ more ]

-- the body of the pricing loop; a key that the maps lack is a KeyError
unfoldable pub calc_entry : List Service → List Vehicle → List Addon → Entry → Option Calc
unfolding entry_addons
calc_entry services vehicles rows e =
    elim (find_where (λ (v : Vehicle). v.id == e.vehicle_id) vehicles) [
      | none ↦ none
      | some v ↦ elim (find_where (λ (s : Service). s.id == e.service_id) services) [
        | none ↦ none
        | some s ↦
            let size = map_body_to_size v.body_class in
            let extra = entry_addons rows e.addon_ids in
            some (record {
              vehicle = v;
              size = size;
              service = s;
              addons = extra;
              price = scaled s.base_price_cents size + sum_price extra;
              duration = scaled s.base_duration_minutes size + sum_duration extra;
            })
      ]
    ]

unfoldable pub calc_entries : List Service → List Vehicle → List Addon → List Entry → M (List Calc)
unfolding calc_entry
calc_entries services vehicles rows [] = pure []
calc_entries services vehicles rows (e ∷ rest) = do
  c ← or_raise (calc_entry services vehicles rows e) index_error
  more ← calc_entries services vehicles rows rest
  pure (c ∷ more)

abbrev pub total_price : List Calc → ℕ
total_price [] = 0
total_price (c ∷ rest) = c.price + total_price rest

abbrev pub total_duration : List Calc → ℕ
total_duration [] = 0
total_duration (c ∷ rest) = c.duration + total_duration rest
