-- ===== src/Appointments/Requests/Safety.antt =====
-- No sequence of requests books a detailer twice.
use Prim.Native.String.{String}
use raycarwash_project.Base.{
  ℕ, ◌≡◌, refl, Option, none, some, List, [], ◌∷◌, arith, Option-cases, if◌then◌else◌, ◌∙◌, inl,
  inr,
}
use raycarwash_project.Appointments.Calendar.{IsValid, NoClash, holds, Relaxes, replace-NoClash}
use raycarwash_project.Appointments.Booking.Safety.{create_appointment-IsValid}
use raycarwash_project.Appointments.Cancel.{RefundPreview, cancel_appointment}
use raycarwash_project.Appointments.Requests.{
  Request, book, update_status, cancel, pay, update_appointment_status, serve, serve_all,
}
use raycarwash_project.Appointments.Transition.{StatusUpdate}
use raycarwash_project.Appointments.Transition.Safety.{
  transition_status-keeps, found-Replaces, keys_replace, KeepsRows-IsValid,
}
use raycarwash_project.Payments.Intents.{
  get_by_id, save, truthy, create_payment_intent, existing_intent, new_stub_intent,
  new_stripe_intent, new_intent, get_or_create_stripe_customer,
}
use raycarwash_project.Store.{User, Appointment, Env, World, Result, Intent, M, ◌>>=◌}
use raycarwash_project.Store.Frames.{
  KeepsRows, bind-at, bind-err, bind-Reads, bind-Keeps, or_raise-Reads, request-keeps,
}

cancel_appointment-keeps :
    (env : Env) (n : ℕ) (reason : Option String) (actor : User) (w : World)
    → IsValid w.db
    → IsValid (cancel_appointment env n reason actor w).1.db
unfolding cancel_appointment
cancel_appointment-keeps env n reason actor w v =
    bind-Reads P _ _ w (λ x. refl) (λ e. v)
      (λ o.
        bind-Reads P _ _ w (or_raise-Reads o _) (λ e. v)
          (λ a.
            bind-Reads P _ _ w (λ x. refl) (λ e. v)
              (λ u.
                bind-Reads P _ _ w (λ x. refl) (λ e. v)
                  (λ u'.
                    bind-Keeps (λ w'. IsValid w'.db) P _ _ w
                      (transition_status-keeps env n _ actor w v) (λ e w' k. k)
                      (λ row w' k.
                        bind-Keeps (λ w'. IsValid w'.db) P _ _ w' k (λ e w'' l. l)
                          (λ u'' w'' l. l))))))
  where
    P : Result (ℕ × RefundPreview) × World → Type 0
    P r = IsValid r.1.db

update_appointment_status-keeps :
    (env : Env) (n : ℕ) (payload : StatusUpdate) (actor : User) (w : World)
    → IsValid w.db
    → IsValid (update_appointment_status env n payload actor w).1.db
unfolding update_appointment_status
update_appointment_status-keeps env n payload actor w v =
    bind-Keeps (λ w'. IsValid w'.db) P _ _ w (transition_status-keeps env n payload actor w v)
      (λ e w' k. k)
      (λ row w' k. bind-Keeps (λ w'. IsValid w'.db) P _ _ w' k (λ e w'' l. l) (λ u w'' l. l))
  where
    P : Result Appointment × World → Type 0
    P r = IsValid r.1.db

existing_intent-KeepsRows :
    (env : Env) (a : Appointment) (pi : String) (w : World)
    → KeepsRows w (existing_intent env a pi w).1
existing_intent-KeepsRows env a pi w = ground arith

customer-KeepsRows :
    (env : Env) (actor : User) (w : World)
    → KeepsRows w (get_or_create_stripe_customer env actor w).1
unfolding get_or_create_stripe_customer ◌>>=◌
customer-KeepsRows env actor w = ground arith

abbrev issue : Env → Appointment → M Intent
issue env a = if env.is_stub_key then new_stub_intent env a else new_stripe_intent env a

issue-KeepsRows : (env : Env) (a : Appointment) (w : World) → KeepsRows w (issue env a w).1
unfolding new_stub_intent new_stripe_intent ◌>>=◌
issue-KeepsRows env a w = ground arith

-- A row with the key of the row that was found, which holds what that row holds, may be saved.
save-IsValid :
    (n : ℕ) (a r : Appointment) (w w' : World)
    → IsValid w.db
    → get_by_id n w.db ≡ some a
    → Relaxes a r
    → KeepsRows w w'
    → IsValid (save r w'.db)
unfolding get_by_id
save-IsValid n a r w w' v found q k =
    let v' = KeepsRows-IsValid w w' k v in
    record {
      keys_used = keys_replace w'.db.next_id r w'.db.appointments v'.keys_used;
      no_clash =
          replace-NoClash r w'.db.appointments
            (rw k.0 (found-Replaces n a r w.db.appointments found v.no_clash q)) v'.no_clash;
    }

with_intent :
    (a : Appointment) (pi : Option String) → Relaxes a (record a { stripe_payment_intent_id = pi })
unfolding holds
with_intent a pi = (refl, inr refl)

new_intent-keeps :
    (env : Env) (n : ℕ) (actor : User) (a : Appointment) (w : World)
    → IsValid w.db
    → get_by_id n w.db ≡ some a
    → IsValid (new_intent env actor a w).1.db
unfolding new_intent
new_intent-keeps env n actor a w v found =
    bind-Keeps (KeepsRows w) P _ _ w (customer-KeepsRows env actor w)
      (λ e w₁ k. KeepsRows-IsValid w w₁ k v)
      (λ c w₁ k.
        bind-Keeps (KeepsRows w₁) P _ _ w₁ (issue-KeepsRows env a w₁)
          (λ e w₂ l. KeepsRows-IsValid w₁ w₂ l (KeepsRows-IsValid w w₁ k v))
          (λ intent w₂ l.
            bind-Keeps (λ w'. IsValid w'.db) P _ _ w₂
              (save-IsValid n a (record a { stripe_payment_intent_id = some intent.intent_id }) w w₂
                v found (with_intent a (some intent.intent_id))
                (l.0 ∙ k.0, omega (arith, k.1, l.1)))
              (λ e w₃ m. m)
              (λ u w₃ m.
                bind-Keeps (λ w'. IsValid w'.db) P _ _ w₃
                  (record { keys_used = m.keys_used; no_clash = m.no_clash }) (λ e w₄ o. o)
                  (λ u' w₄ o. o))))
  where
    P : Result Intent × World → Type 0
    P r = IsValid r.1.db

create_payment_intent-keeps :
    (env : Env) (n : ℕ) (actor : User) (w : World)
    → IsValid w.db
    → IsValid (create_payment_intent env n actor w).1.db
unfolding create_payment_intent
create_payment_intent-keeps env n actor w v =
    bind-at P _ _ _ w w refl (elim (Option-cases (get_by_id n w.db)) [
      | inl missing ↦ rw missing (bind-err P _ _ _ w w refl v)
      | inr (a, found) ↦ bind-at P _ a _ w w (rw found refl) (
          bind-Reads P _ _ w (λ x. refl) (λ e. v)
            (λ u. bind-Reads P _ _ w (λ x. refl) (λ e. v) (λ u'. paid a found)))
    ])
  where
    P : Result Intent × World → Type 0
    P r = IsValid r.1.db

    paid :
        (a : Appointment)
        → get_by_id n w.db ≡ some a
        → P (
            elim (truthy a.stripe_payment_intent_id) as (λ _. M Intent) [
              | some pi ↦ existing_intent env a pi
              | none ↦ new_intent env actor a
            ]
              w)
    paid a found = elim (Option-cases (truthy a.stripe_payment_intent_id)) [
      | inl none_yet ↦ rw none_yet (new_intent-keeps env n actor a w v found)
      | inr (pi, one) ↦ rw one (
          KeepsRows-IsValid w (existing_intent env a pi w).1 (existing_intent-KeepsRows env a pi w)
            v)
    ]

-- A request keeps the calendar valid.
serve-IsValid :
    (env : Env) (actor : User) (req : Request) (w : World)
    → IsValid w.db
    → IsValid (serve env actor req w).db
unfolding serve
serve-IsValid env actor (book payload) w v = create_appointment-IsValid env payload actor w v
serve-IsValid env actor (update_status n payload) w v =
    request-keeps IsValid (update_appointment_status env n payload actor) w v
      (update_appointment_status-keeps env n payload actor w v)
serve-IsValid env actor (cancel n reason) w v =
    request-keeps IsValid (cancel_appointment env n reason actor) w v
      (cancel_appointment-keeps env n reason actor w v)
serve-IsValid env actor (pay n) w v =
    request-keeps IsValid (create_payment_intent env n actor) w v
      (create_payment_intent-keeps env n actor w v)

serve_all-IsValid :
    (reqs : List (Env × User × Request)) (w : World) → IsValid w.db → IsValid (serve_all reqs w).db
unfolding serve_all
serve_all-IsValid [] w v = v
serve_all-IsValid ((env, actor, req) ∷ rest) w v =
    serve_all-IsValid rest (serve env actor req w) (serve-IsValid env actor req w v)

-- From a world without appointments, any sequence of bookings, status changes, cancellations and
-- payment intents, by any actors and with any answers of Stripe, leads to a calendar in which no
-- two active appointments of one detailer overlap, travel buffers included.
pub serve_all-NoClash :
    (reqs : List (Env × User × Request)) (w : World)
    → w.db.appointments ≡ []
    → NoClash (serve_all reqs w).db.appointments
serve_all-NoClash reqs w empty =
    (serve_all-IsValid reqs w (record { keys_used = rw empty tt; no_clash = rw empty tt })).no_clash
