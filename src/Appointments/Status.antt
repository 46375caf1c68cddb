-- ===== src/Appointments/Status.antt =====
-- AppointmentStatus, TERMINAL_STATUSES and VALID_TRANSITIONS of
-- backend/domains/appointments/models.py.
pub mod Graph
use raycarwash_project.Base.{
  Bool, true, false, ◌||◌, Option, none, some, List, [], ◌∷◌, any, ◌≡◌, arith,
}

pub data Status : Type 0 where
  pending confirmed arrived in_progress completed cancelled_by_client cancelled_by_detailer : Status
  no_show searching no_detailer_found : Status

pub Status-discrete : Discrete Status
Status-discrete = hlevel

-- the names of roles: Role.name is a string, and the code looks for these four
pub data Role : Type 0 where
  client detailer admin mechanic : Role

-- `s in TERMINAL_STATUSES`; completed is not among them
abbrev pub is_terminal : Status → Bool
is_terminal cancelled_by_client = true
is_terminal cancelled_by_detailer = true
is_terminal no_show = true
is_terminal no_detailer_found = true
is_terminal _ = false

abbrev pub role_eq : Role → Role → Bool
role_eq client client = true
role_eq detailer detailer = true
role_eq admin admin = true
role_eq mechanic mechanic = true
role_eq _ _ = false

abbrev pub status_eq : Status → Status → Bool
status_eq pending pending = true
status_eq confirmed confirmed = true
status_eq arrived arrived = true
status_eq in_progress in_progress = true
status_eq completed completed = true
status_eq cancelled_by_client cancelled_by_client = true
status_eq cancelled_by_detailer cancelled_by_detailer = true
status_eq no_show no_show = true
status_eq searching searching = true
status_eq no_detailer_found no_detailer_found = true
status_eq _ _ = false

-- `user.has_role(name)`
abbrev pub has_role : Role → List Role → Bool
has_role role roles = any (role_eq role) roles

abbrev detailer_or_admin : Option (List Role)
detailer_or_admin = some (detailer ∷ admin ∷ [])

abbrev client_or_admin : Option (List Role)
client_or_admin = some (client ∷ admin ∷ [])

-- `VALID_TRANSITIONS.get(current, {}).get(new)`: the roles that may make the step, if it is one.
unfoldable pub roles_allowed : Status → Status → Option (List Role)
roles_allowed pending confirmed = detailer_or_admin
roles_allowed pending cancelled_by_client = client_or_admin
roles_allowed pending cancelled_by_detailer = detailer_or_admin
roles_allowed confirmed arrived = detailer_or_admin
roles_allowed confirmed in_progress = detailer_or_admin
roles_allowed confirmed cancelled_by_client = client_or_admin
roles_allowed confirmed cancelled_by_detailer = detailer_or_admin
roles_allowed arrived in_progress = detailer_or_admin
roles_allowed arrived cancelled_by_client = client_or_admin
roles_allowed arrived cancelled_by_detailer = detailer_or_admin
roles_allowed in_progress completed = detailer_or_admin
roles_allowed in_progress no_show = detailer_or_admin
roles_allowed _ _ = none

pub status_eq_iff : (a b : Status) → status_eq a b ≡ true → a ≡ b
status_eq_iff a b h = ground arith
