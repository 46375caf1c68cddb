-- ===== src/Payments/Ledger.antt =====
-- PaymentCoordinator of backend/domains/payments/service_v2.py over the append-only ledger
-- (LedgerRepository of backend/domains/payments/repository.py). The processor is a parameter: its
-- answer to a call, none when it raises. Each method commits at its end, so a failed call leaves the
-- ledger as it was.
pub mod Commission
mod Tests
use raycarwash_project.Base.{ℕ, ◌-◌, Option, none, some, List, [], ◌∷◌, ◌++◌}
use raycarwash_project.Float.{of_ℕ, of_ratio, mul, floor}
use raycarwash_project.Store.{Error, stripe_error, Result, ok, err}

pub data EntryType : Type 0 where
  authorization capture_entry payout_entry charge_commission : EntryType

pub record PaymentLedger : Type 0 where
  pub appointment_id : ℕ
  pub entry_type : EntryType
  pub amount_cents : ℕ

pub record PaymentProcessor : Type 0 where
  pub authorize_call : ℕ → ℕ → Option ℕ
  pub capture_call : ℕ → ℕ → Option ℕ
  pub payout_call : ℕ → ℕ → Option ℕ

-- the append of LedgerRepository.create
abbrev pub create_entry : ℕ → EntryType → ℕ → List PaymentLedger → List PaymentLedger
create_entry appointment_id entry_type amount ledger =
    ledger
    ++ (record { appointment_id = appointment_id; entry_type = entry_type; amount_cents = amount }
        ∷ [])

unfoldable pub authorize :
    PaymentProcessor → ℕ → ℕ → List PaymentLedger → Result (Unit {0}) × List PaymentLedger
authorize processor appointment_id amount ledger =
    elim (processor.authorize_call appointment_id amount) [
      | none ↦ (err stripe_error, ledger)
      | some _ ↦ (ok tt, create_entry appointment_id authorization amount ledger)
    ]

unfoldable pub capture :
    PaymentProcessor → ℕ → ℕ → List PaymentLedger → Result (Unit {0}) × List PaymentLedger
capture processor appointment_id amount ledger =
    elim (processor.capture_call appointment_id amount) [
      | none ↦ (err stripe_error, ledger)
      | some _ ↦ (ok tt, create_entry appointment_id capture_entry amount ledger)
    ]

-- `int(total_amount_cents * COMMISSION_RATE)`, with the rate 0.15
unfoldable pub commission : ℕ → ℕ
commission total = floor (mul (of_ℕ total) (of_ratio 15 100))

-- the two entries, once the processor has answered; the payout is the rest, which is not negative
-- (Commission)
unfoldable pub record_split :
    Option ℕ → ℕ → ℕ → List PaymentLedger → Result (ℕ × ℕ) × List PaymentLedger
record_split none appointment_id total ledger = (err stripe_error, ledger)
record_split (some _) appointment_id total ledger =
    let fee = commission total in
    let payout = total - fee in
    (
      ok (payout, fee),
      create_entry appointment_id charge_commission fee
          (create_entry appointment_id payout_entry payout ledger),
    )

unfoldable pub payout_and_commission :
    PaymentProcessor → ℕ → ℕ → ℕ → List PaymentLedger → Result (ℕ × ℕ) × List PaymentLedger
payout_and_commission processor appointment_id detailer_id total ledger =
    record_split (processor.payout_call detailer_id (total - commission total)) appointment_id total
      ledger
