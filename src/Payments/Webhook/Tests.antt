-- ===== src/Payments/Webhook/Tests.antt =====
-- A card attached to the customer of one user, delivered twice.
use raycarwash_project.Base.{ℕ, ◌≡◌, refl, Bool, true, false, Option, none, some, [], ◌∷◌, map}
use raycarwash_project.Store.{User, Db, http, ok, err}
use raycarwash_project.Users.Defaults.{insert_row, count_active}
use raycarwash_project.Users.Cards.{
  PaymentMethodSnapshot, StripePaymentMethod, upsert_from_snapshot, get_by_stripe_id,
}
use raycarwash_project.Payments.Webhook.{
  StripeEvent, WebhookDb, payment_method_attached, payment_method_detached, handle, receive,
  stripe_webhook,
}
use raycarwash_project.Payments.Webhook.Once.{deliver_all, stripe_webhook_once}

abbrev a_customer : User
a_customer = record {
  id = 7;
  roles = [];
  is_active = true;
  is_deleted = false;
  stripe_customer_id = some "cus_7";
}

abbrev tables : Db
tables = record {
  next_id = 100;
  users = a_customer ∷ [];
  services = [];
  vehicles = [];
  addons = [];
  appointments = [];
  appointment_vehicles = [];
  appointment_addons = [];
  status_history = [];
  cancellations = [];
  audit_log = [];
}

abbrev nothing_received : WebhookDb
nothing_received = record {
  world = record { db = tables; stripe_calls = []; events = [] };
  providers = record { next_id = 1; profiles = [] };
  wallet = record { table = record { next_id = 1; rows = [] }; audit = [] };
  processed = [];
}

abbrev a_card : StripePaymentMethod
a_card = record { id = 200; method_type = none; card = none; postal_code = some "46802" }

abbrev attached : StripeEvent
attached = record { id = some "evt_1"; event_type = payment_method_attached (some "cus_7") a_card }

abbrev detached : StripeEvent
detached = record { id = some "evt_2"; event_type = payment_method_detached (some 200) }

abbrev forged : Option StripeEvent
forged = none

abbrev signed : Option StripeEvent → Option StripeEvent
signed body = body

abbrev no_fetch : ℕ → Option PaymentMethodSnapshot
no_fetch pm = none

forged_test :
    stripe_webhook signed no_fetch 10 forged nothing_received ≡ (err (http 400), nothing_received)
unfolding stripe_webhook
forged_test = refl

first_card :
    map {B = ℕ × Bool}
      (λ r. (r.user_id, r.is_default))
      (stripe_webhook signed no_fetch 10 (some attached) nothing_received).1.wallet.table.rows
    ≡ (7, true) ∷ []
unfolding stripe_webhook receive handle upsert_from_snapshot get_by_stripe_id insert_row
    count_active
first_card = refl

-- the attachment comes again after the card was detached, and does not revive it
stripe_webhook_once_example :
    stripe_webhook signed no_fetch 30 (some attached) (
      deliver_all signed no_fetch
        ((20, some detached) ∷ (21, forged) ∷ [])
        (stripe_webhook signed no_fetch 10 (some attached) nothing_received).1)
    ≡ (
      ok tt,
      deliver_all signed no_fetch
          ((20, some detached) ∷ (21, forged) ∷ [])
          (stripe_webhook signed no_fetch 10 (some attached) nothing_received).1,
    )
unfolding stripe_webhook receive handle upsert_from_snapshot get_by_stripe_id
stripe_webhook_once_example =
    stripe_webhook_once signed no_fetch 10 30 (some attached)
      ((20, some detached) ∷ (21, forged) ∷ []) nothing_received refl
