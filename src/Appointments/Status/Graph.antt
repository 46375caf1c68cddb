-- ===== src/Appointments/Status/Graph.antt =====
-- The diagram of the status machine: every step goes forward, and completion has one way in.
use raycarwash_project.Base.{ℕ, ◌≤◌, ◌<◌, ◌≡◌, subst, ◌⊎◌, inl, inr, some, List, arith}
use raycarwash_project.Appointments.Status.{
  Status, Role, pending, confirmed, arrived, in_progress, completed, cancelled_by_client,
  cancelled_by_detailer, no_show, searching, no_detailer_found, roles_allowed,
}

-- A step that the table allows to some role.
abbrev pub Allowed : Status → Status → Type 0
Allowed s t = (roles : List Role) × (roles_allowed s t ≡ some roles)

infix 40 ◌⟶*◌
pub data ◌⟶*◌ : Status → Status → Type 0 where
  stay : {s : Status} → s ⟶* s
  step : {s t u : Status} → Allowed s t → t ⟶* u → s ⟶* u

-- How far a booking has come.
abbrev progress : Status → ℕ
progress searching = 0
progress pending = 0
progress confirmed = 1
progress arrived = 2
progress in_progress = 3
progress completed = 4
progress cancelled_by_client = 4
progress cancelled_by_detailer = 4
progress no_show = 4
progress no_detailer_found = 4

step-progress : (s t : Status) → Allowed s t → progress s < progress t
unfolding roles_allowed
step-progress s t (roles, e) = ground (arith, e)

steps-progress : {s t : Status} → s ⟶* t → progress s ≤ progress t
steps-progress stay = omega arith
steps-progress (step {s} {t} a rest) = omega (arith, step-progress s t a, steps-progress rest)

-- A status that a booking has left never comes back.
pub no_return : {s t : Status} → Allowed s t → ¬ (t ⟶* s)
no_return {s} {t} a back = omega (arith, step-progress s t a, steps-progress back)

into_completed : (s : Status) → Allowed s completed → s ≡ in_progress
unfolding roles_allowed
into_completed s (roles, e) = ground (arith, e)

-- A booking that gets from any other status to completed has been in progress.
pub completed_after_in_progress :
    {s t : Status} → s ⟶* t → t ≡ completed → (s ≡ completed) ⊎ (s ⟶* in_progress)
completed_after_in_progress stay e = inl e
completed_after_in_progress (step {s} {t} a rest) e = elim (completed_after_in_progress rest e) [
  | inl done ↦ inr (subst (λ q. s ⟶* q) (into_completed s (subst (Allowed s) done a)) stay)
  | inr on_way ↦ inr (step a on_way)
]
