-- ===== src/Payments/Webhook.antt =====
-- backend/domains/payments/webhook_router.py: the receiver of Stripe's events. The check of a signature
-- and the parsing of a body are a parameter, none when they raise; so is the adapter's answer to a
-- fetch. An event is its identifier and the fields that its handler reads.
mod Once
mod Tests
use Prim.Native.String.{String}
use text.Mathlib.Text.{◌==◌ as str_eq}
use raycarwash_project.Base.{
  ℕ, Bool, true, false, Option, none, some, List, [], ◌∷◌, any, if◌then◌else◌, leb, count_where,
  find_where,
}
use raycarwash_project.Store.{World, User, Error, http, Result, ok, err}
use raycarwash_project.Rides.{scalar_one_or_none}
use raycarwash_project.Payments.Intents.{truthy, handle_payment_succeeded}
use raycarwash_project.Providers.Verification.{
  ProviderDb, handle_identity_verified, handle_identity_requires_input,
}
use raycarwash_project.Users.Cards.{
  PaymentMethodSnapshot, StripePaymentMethod, Wallet, snapshot_from_stripe, upsert_from_snapshot,
  mark_detached_by_stripe_id,
}

-- the payment_method of a setup intent: absent, a key, or the object
pub data SetupPaymentMethod : Type 0 where
  absent : SetupPaymentMethod
  by_id : ℕ → SetupPaymentMethod
  object : StripePaymentMethod → SetupPaymentMethod

pub data EventType : Type 0 where
  payment_intent_succeeded : String → EventType
  payment_intent_payment_failed : EventType
  identity_verified : ℕ → EventType
  identity_requires_input : ℕ → String → EventType
  identity_canceled : EventType
  payment_method_attached : (customer : Option String) → StripePaymentMethod → EventType
  payment_method_updated : (customer : Option String) → StripePaymentMethod → EventType
  setup_intent_succeeded : (customer : Option String) → SetupPaymentMethod → EventType
  payment_method_detached : Option ℕ → EventType
  unhandled : EventType

pub record StripeEvent : Type 0 where
  pub id : Option String
  pub event_type : EventType

-- the tables that the handlers write, and the keys of processed_webhooks
pub record WebhookDb : Type 0 where
  pub world : World
  pub providers : ProviderDb
  pub wallet : Wallet
  pub processed : List String

-- `event.get("id", "unknown")`
abbrev pub event_id : StripeEvent → String
event_id e = elim e.id [ none ↦ "unknown" | some id ↦ id ]

abbrev pub is_customer : String → User → Bool
is_customer customer u = elim u.stripe_customer_id [ none ↦ false | some c ↦ str_eq c customer ]

-- the user of a customer, and the card of a snapshot
abbrev pub sync_card :
    ℕ → Option String → PaymentMethodSnapshot → WebhookDb → Result (Unit {0}) × WebhookDb
sync_card now customer snapshot s = elim (truthy customer) [
  | none ↦ (ok tt, s)
  | some c ↦ elim (scalar_one_or_none (is_customer c) s.world.db.users) [
    | err e ↦ (err e, s)
    | ok found ↦ elim found [
      | none ↦ (ok tt, s)
      | some user ↦
          (ok tt, record s { wallet = upsert_from_snapshot now user.id snapshot s.wallet })
    ]
  ]
]

abbrev pub with_providers :
    Result (Unit {0}) × ProviderDb → WebhookDb → Result (Unit {0}) × WebhookDb
with_providers (r, d) s = (r, record s { providers = d })

abbrev pub is_processed : String → WebhookDb → Bool
is_processed id s = any (str_eq id) s.processed

module _ (fetch_payment_method : ℕ → Option PaymentMethodSnapshot) (now : ℕ) where
  abbrev pub sync_setup :
      Option String → SetupPaymentMethod → WebhookDb → Result (Unit {0}) × WebhookDb
  sync_setup customer absent s = (ok tt, s)
  sync_setup customer (object pm) s = sync_card now customer (snapshot_from_stripe pm) s
  sync_setup customer (by_id pm) s = elim (fetch_payment_method pm) [
    | none ↦ (ok tt, s)
    | some snapshot ↦ sync_card now customer snapshot s
  ]

  -- the dispatcher
  unfoldable pub handle : EventType → WebhookDb → Result (Unit {0}) × WebhookDb
  handle (payment_intent_succeeded pi) s =
      let (r, w) = handle_payment_succeeded pi s.world in (r, record s { world = w })
  handle payment_intent_payment_failed s = (ok tt, s)
  handle (identity_verified session) s =
      with_providers (handle_identity_verified now session s.providers) s
  handle (identity_requires_input session reason) s =
      with_providers (handle_identity_requires_input now session reason s.providers) s
  handle identity_canceled s = (ok tt, s)
  handle (payment_method_attached customer pm) s =
      sync_card now customer (snapshot_from_stripe pm) s
  handle (payment_method_updated customer pm) s = sync_card now customer (snapshot_from_stripe pm) s
  handle (setup_intent_succeeded customer pm) s = sync_setup customer pm s
  handle (payment_method_detached none) s = (ok tt, s)
  handle (payment_method_detached (some pm)) s =
      (ok tt, record s { wallet = (mark_detached_by_stripe_id now pm s.wallet).1 })
  handle unhandled s = (ok tt, s)

  -- INSERT … ON CONFLICT DO NOTHING, and the event's handler when a row was inserted
  unfoldable pub receive : StripeEvent → WebhookDb → Result (Unit {0}) × WebhookDb
  receive e s =
      if is_processed (event_id e) s
      then (ok tt, s)
      else handle e.event_type (record s { processed = event_id e ∷ s.processed })

-- get_db around the request
abbrev pub transact : Result (Unit {0}) × WebhookDb → WebhookDb → Result (Unit {0}) × WebhookDb
transact (ok u, after) before = (ok u, after)
transact (err e, after) before = (err e, before)

module _ {Body : Type 0} (construct_event : Body → Option StripeEvent)
    (fetch_payment_method : ℕ → Option PaymentMethodSnapshot) where
  unfoldable pub stripe_webhook : ℕ → Body → WebhookDb → Result (Unit {0}) × WebhookDb
  stripe_webhook now body s = elim (construct_event body) [
    | none ↦ (err (http 400), s)
    | some e ↦ transact (receive fetch_payment_method now e s) s
  ]
