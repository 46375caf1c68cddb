-- ===== src/Payments/Webhook/Once.antt =====
-- Events that are delivered again.
use Prim.Native.String.{String}
use text.Mathlib.TextEquality.{eq_iff}
use raycarwash_project.Base.{
  ℕ, ◌≡◌, refl, ap, ◌∙◌, inl, inr, true, Option, none, some, List, [], ◌∷◌, arith, Bool-cases,
  Option-cases,
}
use raycarwash_project.Store.{User, http, Result, ok, err}
use raycarwash_project.Rides.{scalar_one_or_none}
use raycarwash_project.Payments.Intents.{truthy}
use raycarwash_project.Users.Cards.{PaymentMethodSnapshot, snapshot_from_stripe}
use raycarwash_project.Payments.Webhook.{
  EventType, payment_intent_succeeded, payment_intent_payment_failed, identity_verified,
  identity_requires_input, identity_canceled, payment_method_attached, payment_method_updated,
  setup_intent_succeeded, payment_method_detached, unhandled, absent, by_id, object, sync_setup,
  StripeEvent, WebhookDb, SetupPaymentMethod, event_id, is_customer, sync_card, handle, receive,
  stripe_webhook, transact, is_processed,
}

one_user :
    (now : ℕ) (snapshot : PaymentMethodSnapshot) (customer : Option String) (c : String)
    (r : Result (Option User)) (s : WebhookDb)
    → truthy customer ≡ some c
    → scalar_one_or_none (is_customer c) s.world.db.users ≡ r
    → (sync_card now customer snapshot s).1.processed ≡ s.processed
one_user now snapshot customer c (err x) s e f = rw (e, sync_card, f) refl
one_user now snapshot customer c (ok none) s e f = rw (e, sync_card, f) refl
one_user now snapshot customer c (ok (some user)) s e f = rw (e, sync_card, f) refl

-- No handler writes the table of processed events.
sync_card-processed :
    (now : ℕ) (customer : Option String) (snapshot : PaymentMethodSnapshot) (s : WebhookDb)
    → (sync_card now customer snapshot s).1.processed ≡ s.processed
sync_card-processed now customer snapshot s = elim (Option-cases (truthy customer)) [
  | inl e ↦ rw (e, sync_card) refl
  | inr (c, e) ↦ one_user now snapshot customer c _ s e refl
]

module _ (fetch : ℕ → Option PaymentMethodSnapshot) (now : ℕ) where
  sync_setup-processed :
      (customer : Option String) (pm : SetupPaymentMethod) (s : WebhookDb)
      → (sync_setup fetch now customer pm s).1.processed ≡ s.processed
  sync_setup-processed customer absent s = refl
  sync_setup-processed customer (object pm) s =
      sync_card-processed now customer (snapshot_from_stripe pm) s
  sync_setup-processed customer (by_id pm) s = elim (Option-cases (fetch pm)) [
    | inl e ↦ rw (e, sync_setup) refl
    | inr (snapshot, e) ↦ rw (e, sync_setup) (sync_card-processed now customer snapshot s)
  ]

  handle-processed :
      (k : EventType) (s : WebhookDb) → (handle fetch now k s).1.processed ≡ s.processed
  unfolding handle
  handle-processed (payment_intent_succeeded pi) s = refl
  handle-processed payment_intent_payment_failed s = refl
  handle-processed (identity_verified session) s = refl
  handle-processed (identity_requires_input session reason) s = refl
  handle-processed identity_canceled s = refl
  handle-processed (payment_method_attached customer pm) s =
      sync_card-processed now customer (snapshot_from_stripe pm) s
  handle-processed (payment_method_updated customer pm) s =
      sync_card-processed now customer (snapshot_from_stripe pm) s
  handle-processed (setup_intent_succeeded customer pm) s = sync_setup-processed customer pm s
  handle-processed (payment_method_detached none) s = refl
  handle-processed (payment_method_detached (some pm)) s = refl
  handle-processed unhandled s = refl

  receive-marks :
      (e : StripeEvent) (s : WebhookDb) → is_processed (event_id e) (receive fetch now e s).1 ≡ true
  unfolding receive
  receive-marks e s = elim (Bool-cases (is_processed (event_id e) s)) [
    | inl t ↦ rw (t, receive) t
    | inr t ↦
        rw
          (
            t,
            receive,
            handle-processed e.event_type (record s { processed = event_id e ∷ s.processed }),
          )
          (ground (arith, eq_iff (event_id e) (event_id e)))
  ]

  receive-keeps :
      (e : StripeEvent) (id : String) (s : WebhookDb)
      → is_processed id s ≡ true
      → is_processed id (receive fetch now e s).1 ≡ true
  unfolding receive
  receive-keeps e id s h = elim (Bool-cases (is_processed (event_id e) s)) [
    | inl t ↦ rw (t, receive) h
    | inr t ↦
        rw
          (
            t,
            receive,
            handle-processed e.event_type (record s { processed = event_id e ∷ s.processed }),
          )
          (ground (arith, h))
  ]

  again :
      (e : StripeEvent) (s : WebhookDb)
      → is_processed (event_id e) s ≡ true
      → transact (receive fetch now e s) s ≡ (ok tt, s)
  unfolding receive
  again e s h = rw (h, receive) refl

module _ {Body : Type 0} (construct_event : Body → Option StripeEvent)
    (fetch : ℕ → Option PaymentMethodSnapshot) where
  -- Deliveries at their times, one after the other.
  abbrev pub deliver_all : List (ℕ × Body) → WebhookDb → WebhookDb
  deliver_all [] s = s
  deliver_all ((now, body) ∷ rest) s =
      deliver_all rest (stripe_webhook construct_event fetch now body s).1

  transact-keeps :
      (r : Result (Unit {0}) × WebhookDb) (s : WebhookDb) (id : String)
      → is_processed id s ≡ true
      → is_processed id r.1 ≡ true
      → is_processed id (transact r s).1 ≡ true
  transact-keeps (ok u, t) s id h k = k
  transact-keeps (err e, t) s id h k = h

  deliver-keeps :
      (now : ℕ) (body : Body) (id : String) (s : WebhookDb)
      → is_processed id s ≡ true
      → is_processed id (stripe_webhook construct_event fetch now body s).1 ≡ true
  unfolding stripe_webhook
  deliver-keeps now body id s h = elim (Option-cases (construct_event body)) [
    | inl e ↦ rw (e, stripe_webhook) h
    | inr (event, e) ↦
        rw (e, stripe_webhook)
          (transact-keeps (receive fetch now event s) s id h (receive-keeps fetch now event id s h))
  ]

  deliver_all-keeps :
      (deliveries : List (ℕ × Body)) (id : String) (s : WebhookDb)
      → is_processed id s ≡ true
      → is_processed id (deliver_all deliveries s) ≡ true
  deliver_all-keeps [] id s h = h
  deliver_all-keeps ((now, body) ∷ rest) id s h =
      deliver_all-keeps rest id (stripe_webhook construct_event fetch now body s).1
        (deliver-keeps now body id s h)

  transact-marks :
      (r : Result (Unit {0}) × WebhookDb) (s : WebhookDb) (id : String)
      → (transact r s).0 ≡ ok tt
      → is_processed id r.1 ≡ true
      → is_processed id (transact r s).1 ≡ true
  transact-marks (ok u, t) s id done k = k
  transact-marks (err e, t) s id done k = absurd (ground (arith, done))

  -- Once a delivery of an event has succeeded, a later delivery of it, after any other deliveries that
  -- succeed or fail, succeeds and changes nothing.
  pub stripe_webhook_once :
      (now later : ℕ) (body : Body) (others : List (ℕ × Body)) (s : WebhookDb)
      → (stripe_webhook construct_event fetch now body s).0 ≡ ok tt
      → stripe_webhook construct_event fetch later body
          (deliver_all others (stripe_webhook construct_event fetch now body s).1)
        ≡ (ok tt, deliver_all others (stripe_webhook construct_event fetch now body s).1)
  unfolding stripe_webhook
  stripe_webhook_once now later body others s done = elim (Option-cases (construct_event body)) [
    | inl e ↦ absurd (ground (arith, rw (e, stripe_webhook) at done))
    | inr (event, e) ↦
        let after = (stripe_webhook construct_event fetch now body s).1 in
        let marked : is_processed (event_id event) after ≡ true =
          rw (e, stripe_webhook)
            (transact-marks (receive fetch now event s) s (event_id event)
              (rw (e, stripe_webhook) at done) (receive-marks fetch now event s)) in
        ap
          (λ (o : Option StripeEvent). elim o [
            | none ↦ (err (http 400), deliver_all others after)
            | some x ↦
                transact (receive fetch later x (deliver_all others after))
                  (deliver_all others after)
          ])
          e
        ∙ again fetch later event (deliver_all others after)
            (deliver_all-keeps others (event_id event) after marked)
  ]
