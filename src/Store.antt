-- ===== src/Store.antt =====
-- The tables that booking and payment read and write, the outside world that they call, and the
-- monad of a request. Rows are records of backend/domains/appointments/models.py,
-- backend/domains/users/models.py and backend/domains/audit/models.py; a key (UUID) is a number, and
-- uuid4 is a counter, which gives keys that no row has. Latitudes and longitudes are passed through
-- unread. One reading of the clock serves a request.
pub mod Frames
use Prim.Native.String.{String}
use raycarwash_project.Base.{
  ℕ, suc, ◌≡◌, refl, ◌⊎◌, inl, inr, Bool, Option, none, some, List, [], ◌∷◌, ◌++◌, if◌then◌else◌,
}
use raycarwash_project.Float.{Double}
use raycarwash_project.Catalog.{VehicleSize, Service, Addon, Vehicle}
use raycarwash_project.Pricing.{Settings}
use raycarwash_project.Appointments.Status.{Status, Role}

pub record User : Type 0 where
  pub id : ℕ
  pub roles : List Role
  pub is_active : Bool
  pub is_deleted : Bool
  pub stripe_customer_id : Option String

pub record Appointment : Type 0 where
  pub id : ℕ
  pub client_id : ℕ
  pub detailer_id : Option ℕ
  pub vehicle_id : Option ℕ
  pub service_id : ℕ
  pub scheduled_time : ℕ
  pub estimated_end_time : Option ℕ
  pub travel_buffer_end_time : Option ℕ
  pub arrived_at : Option ℕ
  pub started_at : Option ℕ
  pub completed_at : Option ℕ
  pub status : Status
  pub estimated_price : ℕ
  pub actual_price : Option ℕ
  pub stripe_payment_intent_id : Option String
  pub client_notes : Option String
  pub detailer_notes : Option String
  pub service_address : Option String
  pub is_deleted : Bool

pub record AppointmentVehicle : Type 0 where
  pub appointment_id : ℕ
  pub vehicle_id : ℕ
  pub vehicle_size : VehicleSize
  pub price_cents : ℕ
  pub duration_minutes : ℕ

pub record AppointmentAddon : Type 0 where
  pub appointment_id : ℕ
  pub addon_id : ℕ
  pub price_cents : ℕ
  pub duration_minutes : ℕ

-- which refund rule a cancellation applied
pub data Policy : Type 0 where
  no_policy auth_voided full partial : Policy

pub record StatusHistory : Type 0 where
  pub appointment_id : ℕ
  pub old_status : Option Status
  pub new_status : Status
  pub actor_id : Option ℕ
  pub reason : Option String
  pub price_cents : Option ℕ
  pub refund : Option (Policy × ℕ)

pub record Cancellation : Type 0 where
  pub appointment_id : ℕ
  pub cancelled_by_user_id : ℕ
  pub cancelled_by_role : Option Role
  pub reason : Option String
  pub refund_amount_cents : Option ℕ
  pub refund_percent : Option Double
  pub policy_code : Option Policy

-- audit_logs: the action with its metadata
pub data AuditEntry : Type 0 where
  appointment_created : ℕ → ℕ → List ℕ → ℕ → ℕ → AuditEntry
  status_changed : ℕ → ℕ → Status → Status → Option ℕ → Policy → ℕ → Option String → AuditEntry
  intent_created : ℕ → ℕ → String → ℕ → Bool → AuditEntry
  payment_refunded : String → Option String → ℕ → String → Bool → AuditEntry
  payment_captured : ℕ → ℕ → String → ℕ → AuditEntry

pub record Db : Type 0 where
  pub next_id : ℕ
  pub users : List User
  pub services : List Service
  pub vehicles : List Vehicle
  pub addons : List Addon
  pub appointments : List Appointment
  pub appointment_vehicles : List AppointmentVehicle
  pub appointment_addons : List AppointmentAddon
  pub status_history : List StatusHistory
  pub cancellations : List Cancellation
  pub audit_log : List AuditEntry

-- the calls that reach Stripe
pub data StripeCall : Type 0 where
  create_customer : ℕ → StripeCall
  create_intent : ℕ → ℕ → StripeCall
  capture_intent : String → Option ℕ → StripeCall
  cancel_intent : String → String → StripeCall
  refund_intent : String → ℕ → String → StripeCall

-- what bus.emit hands to the handlers, and what is sent to an appointment's room
pub data Event : Type 0 where
  created : ℕ → ℕ → ℕ → ℕ → Event
  status_changed_event : ℕ → ℕ → Option ℕ → Status → Status → ℕ → Event
  broadcast : ℕ → Status → Event

-- The database as the open transaction sees it, and what has left the process.
pub record World : Type 0 where
  pub db : Db
  pub stripe_calls : List StripeCall
  pub events : List Event

-- The answers of Stripe: `none` when the SDK raises. A created or retrieved intent is its id,
-- client secret, amount and status.
pub record Intent : Type 0 where
  pub intent_id : String
  pub client_secret : String
  pub amount : ℕ
  pub intent_status : String

pub record Stripe : Type 0 where
  pub customer_create : ℕ → Option String
  pub intent_create : ℕ → ℕ → Option Intent
  pub intent_retrieve : String → Option Intent
  pub intent_capture : String → Option ℕ → Option String
  pub intent_cancel : String → String → Option String
  pub refund_create : String → ℕ → String → Option String

-- What a request runs with: the settings, the clock, Stripe, and the text of the stub identifiers
-- that the code makes from uuid4().hex and from a user's id.
pub record Env : Type 0 where
  pub settings : Settings
  pub is_stub_key : Bool
  pub now : ℕ
  pub stripe : Stripe
  pub stub_intent : ℕ → String
  pub stub_secret : String → String
  pub stub_refund : ℕ → String
  pub stub_customer : ℕ → String

-- HTTPException by its status code, IntegrityError of a constraint, StripeError, IndexError (or
-- KeyError), MultipleResultsFound of scalar_one_or_none, and TypeError.
pub data Error : Type 0 where
  http : ℕ → Error
  integrity_error stripe_error index_error multiple_results type_error : Error

pub data Result (A : Type 0) : Type 0 where
  ok : A → Result A
  err : Error → Result A

pub Result-cases :
    {A : Type 0} (r : Result A) → ((a : A) × (r ≡ ok a)) ⊎ ((e : Error) × (r ≡ err e))
Result-cases (ok a) = inl (a, refl)
Result-cases (err e) = inr (e, refl)

abbrev pub M : Type 0 → Type 0
M A = World → Result A × World

infixl 5 ◌>>=◌ ◌>>◌
unfoldable pub ◌>>=◌ : {A B : Type 0} → M A → (A → M B) → M B
◌>>=◌ m f w = let (r, w') = m w in elim r [ ok a ↦ f a w' | err e ↦ (err e, w') ]

abbrev pub ◌>>◌ : {A B : Type 0} → M A → M B → M B
m >> k = m >>= λ _. k

module _ {A : Type 0} where
  abbrev pub pure : A → M A
  pure a w = (ok a, w)

  abbrev pub raise : Error → M A
  raise e w = (err e, w)

  abbrev pub gets : (Db → A) → M A
  gets f w = (ok (f w.db), w)

  abbrev pub or_raise : Option A → Error → M A
  or_raise none e = raise e
  or_raise (some a) _ = pure a

  -- `try: m; except Exception: handler`
  abbrev pub catch : M A → M A → M A
  catch m handler w = let (r, w') = m w in elim r [ ok a ↦ (ok a, w') | err _ ↦ handler w' ]

  -- get_db of backend/infrastructure/db/session.py around a handler that commits nothing itself:
  -- commit on return, roll back on an exception. What has left the process stays.
  abbrev pub request : M A → M A
  request m w =
      let (r, w') = m w in elim r [ ok a ↦ (ok a, w') | err e ↦ (err e, record w' { db = w.db }) ]

abbrev pub raise_if : Bool → Error → M (Unit {0})
raise_if b e w = (if b then err e else ok tt, w)

abbrev pub modify : (Db → Db) → M (Unit {0})
modify f w = (ok tt, record w { db = f w.db })

abbrev pub call_stripe : StripeCall → M (Unit {0})
call_stripe c w = (ok tt, record w { stripe_calls = w.stripe_calls ++ (c ∷ []) })

abbrev pub emit : Event → M (Unit {0})
emit e w = (ok tt, record w { events = w.events ++ (e ∷ []) })

abbrev pub log : AuditEntry → M (Unit {0})
log entry = modify (λ d. record d { audit_log = d.audit_log ++ (entry ∷ []) })

-- uuid4
abbrev pub fresh : M ℕ
fresh w = (ok w.db.next_id, record w { db = record w.db { next_id = suc w.db.next_id } })
