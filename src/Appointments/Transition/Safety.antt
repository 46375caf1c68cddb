-- ===== src/Appointments/Transition/Safety.antt =====
-- transition_status keeps the calendar free of double bookings.
use raycarwash_project.Base.{
  ℕ, ◌≤◌, ◌≡◌, ◌≢◌, inl, inr, sym, ap, ◌∙◌, ◌==◌, Bool, false, not, ◌&&◌, some, List, [], ◌∷◌, All,
  All-map, find_where, arith, Bool-cases, Option-cases, find_where-All, subst, eq_of_test, any, ◌<◌,
}
use raycarwash_project.Appointments.Status.{
  Status, status_eq, is_terminal, roles_allowed, has_role, admin,
}
use raycarwash_project.Appointments.Calendar.{
  IsValid, holds, Relaxes, Replaces, replace, NoClash, replace-NoClash,
}
use raycarwash_project.Appointments.Transition.{
  StatusUpdate, Refunded, stamp, capture_held, void_hold, refund_captured, record_change,
  apply_change, change_allowed, transition_status, new_notes, is_participant,
}
use raycarwash_project.Payments.Intents.{
  get_by_id, capture_payment_intent, cancel_payment_intent, create_refund,
}
use raycarwash_project.Store.{User, Appointment, World, Env, Result, ◌>>=◌, request}
use raycarwash_project.Store.Frames.{KeepsRows, bind-Keeps, request-keeps}

pub capture_held-KeepsRows :
    (env : Env) (s : Status) (a : Appointment) (w : World) → KeepsRows w (capture_held env s a w).1
unfolding capture_held capture_payment_intent ◌>>=◌
capture_held-KeepsRows env s a w = ground arith

pub void_hold-KeepsRows :
    (env : Env) (s t : Status) (a : Appointment) (w : World) → KeepsRows w (void_hold env s t a w).1
unfolding void_hold cancel_payment_intent ◌>>=◌
void_hold-KeepsRows env s t a w = ground arith

pub refund_captured-KeepsRows :
    (env : Env) (s t : Status) (v : Bool) (a : Appointment) (w : World)
    → KeepsRows w (refund_captured env s t v a w).1
unfolding refund_captured create_refund ◌>>=◌
refund_captured-KeepsRows env s t v a w = ground arith

abbrev changed_row : StatusUpdate → Appointment → Appointment
changed_row payload a = new_notes payload.detailer_notes (record a { status = payload.status })

record_change-rows :
    (actor : User) (payload : StatusUpdate) (old : Status) (a : Appointment) (r : Refunded)
    (w : World)
    → let d = (record_change actor payload old a r w).1.db in
      (d.appointments ≡ replace (changed_row payload a) w.db.appointments)
      × (d.next_id ≡ w.db.next_id)
unfolding record_change ◌>>=◌
record_change-rows actor payload old a r w = ground arith

-- A row found by its key is the only one with that key.
pub found-Replaces :
    (n : ℕ) (a r : Appointment) (xs : List Appointment)
    → find_where (λ (x : Appointment). x.id == n && not x.is_deleted) xs ≡ some a
    → NoClash xs
    → Relaxes a r
    → Replaces r xs
found-Replaces n a r [] h v q = tt
found-Replaces n a r (x ∷ xs) h v q = elim (Bool-cases (x.id == n && not x.is_deleted)) [
  | inl e ↦
      let same : x ≡ a = ground (arith, rw e at h) in
      (
        (λ _. subst (λ z. Relaxes z r) (sym same) q),
        All-map _ _ xs
            (λ y apart hit. absurd (
              apart.0
                (ap (λ (z : Appointment). z.id) same ∙ sym q.0 ∙ sym (eq_of_test y.id r.id hit))))
            v.0,
      )
  | inr e ↦
      let later = rw e at h in
      (
        (λ hit. absurd (
            find_where-All _ (λ z. x.id ≢ z.id) xs a (All-map _ _ xs (λ y p. p.0) v.0) later
              (eq_of_test x.id r.id hit ∙ q.0))),
        found-Replaces n a r xs later v.1 q,
      )
]

pub edge_leaves_active :
    (s t : Status) (l : List _) → roles_allowed s t ≡ some l → is_terminal s ≡ false
unfolding roles_allowed
edge_leaves_active s t l h = ground arith

changed_row-Relaxes :
    (env : Env) (payload : StatusUpdate) (a : Appointment)
    → is_terminal a.status ≡ false
    → Relaxes a (changed_row payload (stamp env payload a))
unfolding stamp holds
changed_row-Relaxes env payload a h = ground arith

pub keys_replace :
    (n : ℕ) (r : Appointment) (xs : List Appointment)
    → All (λ (x : Appointment). x.id < n) xs
    → All (λ (x : Appointment). x.id < n) (replace r xs)
keys_replace n r [] h = tt
keys_replace n r (x ∷ xs) h = elim (Bool-cases (x.id == r.id)) [
  | inl e ↦ rw e (subst (λ k. k < n) (eq_of_test x.id r.id e) h.0, keys_replace n r xs h.1)
  | inr e ↦ rw e (h.0, keys_replace n r xs h.1)
]

keys_grow :
    (n m : ℕ) (xs : List Appointment)
    → n ≤ m
    → All (λ (x : Appointment). x.id < n) xs
    → All (λ (x : Appointment). x.id < m) xs
keys_grow n m [] le h = tt
keys_grow n m (x ∷ xs) le h = (omega (arith, h.0, le), keys_grow n m xs le h.1)

pub KeepsRows-IsValid : (w w' : World) → KeepsRows w w' → IsValid w.db → IsValid w'.db
KeepsRows-IsValid w w' k v = record {
  keys_used = rw k.0 (keys_grow w.db.next_id w'.db.next_id w.db.appointments k.1 v.keys_used);
  no_clash = rw k.0 v.no_clash;
}

-- The changed row in the place of a row that it relaxes.
record_change-IsValid :
    (actor : User) (payload : StatusUpdate) (old : Status) (a : Appointment) (r : Refunded)
    (w : World)
    → IsValid w.db
    → Replaces (changed_row payload a) w.db.appointments
    → IsValid (record_change actor payload old a r w).1.db
record_change-IsValid actor payload old a r w v q =
    let rows = record_change-rows actor payload old a r w in
    record {
      keys_used =
          rw (rows.0, rows.1)
            (keys_replace w.db.next_id (changed_row payload a) w.db.appointments v.keys_used);
      no_clash = rw rows.0 (replace-NoClash (changed_row payload a) w.db.appointments q v.no_clash);
    }

abbrev Safe : {A : Type 0} → Result A × World → Type 0
Safe r = IsValid r.1.db

apply_change-IsValid :
    (env : Env) (payload : StatusUpdate) (actor : User) (a : Appointment) (w : World)
    → IsValid w.db
    → Replaces (changed_row payload (stamp env payload a)) w.db.appointments
    → IsValid (apply_change env payload actor a w).1.db
unfolding apply_change
apply_change-IsValid env payload actor a w v q =
    let b = stamp env payload a in
    bind-Keeps (KeepsRows w) Safe _ _ w (capture_held-KeepsRows env payload.status b w)
      (λ e w₁ k₁. KeepsRows-IsValid w w₁ k₁ v)
      (λ u w₁ k₁.
        bind-Keeps (KeepsRows w₁) Safe _ _ w₁ (void_hold-KeepsRows env b.status payload.status b w₁)
          (λ e w₂ k₂. KeepsRows-IsValid w₁ w₂ k₂ (KeepsRows-IsValid w w₁ k₁ v))
          (λ voided w₂ k₂.
            bind-Keeps (KeepsRows w₂) Safe _ _ w₂
              (refund_captured-KeepsRows env b.status payload.status voided b w₂)
              (λ e w₃ k₃.
                KeepsRows-IsValid w₂ w₃ k₃
                  (KeepsRows-IsValid w₁ w₂ k₂ (KeepsRows-IsValid w w₁ k₁ v)))
              (λ r w₃ k₃.
                record_change-IsValid actor payload b.status b r w₃
                  (KeepsRows-IsValid w₂ w₃ k₃
                    (KeepsRows-IsValid w₁ w₂ k₂ (KeepsRows-IsValid w w₁ k₁ v)))
                  (rw (k₃.0, k₂.0, k₁.0) q))))

change_allowed-IsValid :
    (env : Env) (n : ℕ) (payload : StatusUpdate) (actor : User) (a : Appointment) (w : World)
    → IsValid w.db
    → get_by_id n w.db ≡ some a
    → IsValid (change_allowed env payload actor a w).1.db
unfolding change_allowed get_by_id
change_allowed-IsValid env n payload actor a w v found =
    elim (Bool-cases (status_eq a.status payload.status)) [
      | inl e ↦ rw e v
      | inr e ↦ rw e (elim (Option-cases (roles_allowed a.status payload.status)) [
        | inl missing ↦ rw missing v
        | inr (allowed, listed) ↦
            rw listed (elim (Bool-cases (any (λ r. has_role r actor.roles) allowed)) [
              | inl mine ↦ rw mine (
                  apply_change-IsValid env payload actor a w v (
                    found-Replaces n a _ w.db.appointments found v.no_clash (
                      changed_row-Relaxes env payload a
                        (edge_leaves_active a.status payload.status allowed listed))))
              | inr not_mine ↦ rw not_mine v
            ])
      ])
    ]

-- The same of the handler, before the request's commit or roll-back.
pub transition_status-keeps :
    (env : Env) (n : ℕ) (payload : StatusUpdate) (actor : User) (w : World)
    → IsValid w.db
    → IsValid (transition_status env n payload actor w).1.db
unfolding transition_status ◌>>=◌
transition_status-keeps env n payload actor w v = elim (Option-cases (get_by_id n w.db)) [
  | inl missing ↦ rw missing v
  | inr (a, listed) ↦
      rw listed
        (elim (Bool-cases (not (is_participant actor a) && not (has_role admin actor.roles))) [
          | inl stranger ↦ rw stranger v
          | inr admitted ↦ rw admitted (change_allowed-IsValid env n payload actor a w v listed)
        ])
]

-- A status request that finds the calendar valid leaves it valid: whatever the appointment, the
-- payload, the actor and the answers of Stripe, and whether it succeeds or fails.
pub transition_status-IsValid :
    (env : Env) (n : ℕ) (payload : StatusUpdate) (actor : User) (w : World)
    → IsValid w.db
    → IsValid (request (transition_status env n payload actor) w).1.db
transition_status-IsValid env n payload actor w v =
    request-keeps IsValid (transition_status env n payload actor) w v
      (transition_status-keeps env n payload actor w v)
