-- ===== src/Payments.antt =====
-- backend/domains/payments: Stripe intents, and the processor with its ledger.
pub mod Intents
pub mod Ledger
pub mod Webhook
