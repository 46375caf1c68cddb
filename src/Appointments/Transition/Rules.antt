-- ===== src/Appointments/Transition/Rules.antt =====
-- What a status request that succeeds has done, and when it succeeds.
use raycarwash_project.Base.{
  ℕ, ◌≡◌, ◌≢◌, ◌⊎◌, Bool, true, false, not, ◌&&◌, ◌||◌, some, List, arith, any, find_where-true,
}
use raycarwash_project.Appointments.Status.{Status, Role, status_eq, roles_allowed, has_role, admin}
use raycarwash_project.Appointments.Transition.{
  StatusUpdate, stamp, transition_status, new_notes, is_participant,
}
use raycarwash_project.Payments.Intents.{get_by_id}
use raycarwash_project.Store.{User, Appointment, World, Db, Env, ok}

abbrev changed_row : Env → StatusUpdate → Appointment → Appointment
changed_row env payload a =
    new_notes payload.detailer_notes (record (stamp env payload a) { status = payload.status })

abbrev changed : StatusUpdate → Appointment → Appointment
changed payload a = new_notes payload.detailer_notes (record a { status = payload.status })

-- The actor is one that the appointment concerns, or an admin.
abbrev pub Concerned : User → Appointment → Type 0
Concerned actor a = (is_participant actor a || has_role admin actor.roles) ≡ true

-- The actor has a role that the table allows to make this step.
abbrev pub Permitted : User → Status → Status → Type 0
Permitted actor s t =
    (allowed : List Role) × (roles_allowed s t ≡ some allowed)
    × (any (λ r. has_role r actor.roles) allowed ≡ true)

pub and_not : (b c : Bool) → (b || c) ≡ true → (not b && not c) ≡ false
and_not b c h = ground arith

pub edge_moves : (s t : Status) (l : List Role) → roles_allowed s t ≡ some l → status_eq s t ≡ false
unfolding roles_allowed
edge_moves s t l h = ground arith

-- What a status request for the appointment `n`, in the row `a`, may answer with.
abbrev pub Outcome : ℕ → StatusUpdate → User → Appointment → World → Appointment → World → Type 0
Outcome n payload actor a w row w' =
    ((a.status ≡ payload.status) × (row ≡ a) × (w' ≡ w))
    ⊎ (Permitted actor a.status payload.status
        × (row.status ≡ payload.status)
        × (get_by_id n w'.db ≡ some row)
        × ((m : ℕ) → m ≢ n → get_by_id m w'.db ≡ get_by_id m w.db))

pub found-live :
    (n : ℕ) (a : Appointment) (d : Db)
    → get_by_id n d ≡ some a
    → (a.id ≡ n) × (a.is_deleted ≡ false)
unfolding get_by_id
found-live n a d h = ground (arith, find_where-true _ d.appointments a h)

-- The appointment was there, the actor is concerned, and the outcome is one that the rules allow.
abbrev pub Follows : ℕ → StatusUpdate → User → Appointment → World → World → Type 0
Follows n payload actor row w w' =
    (a : Appointment) × (get_by_id n w.db ≡ some a)
    × Concerned actor a
    × Outcome n payload actor a w row w'

-- The request succeeds with a row in the requested status.
abbrev pub Completes : Env → ℕ → StatusUpdate → User → World → Type 0
Completes env n payload actor w =
    (row : Appointment) × (w' : World) × (transition_status env n payload actor w ≡ (ok row, w'))
    × (row.status ≡ payload.status)
