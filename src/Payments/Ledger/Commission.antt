-- ===== src/Payments/Ledger/Commission.antt =====
-- The platform's commission in exact arithmetic, and the split of a payment.
use native.Mathlib.Nat.{mul-le-mul_right}
use raycarwash_project.Base.{
  ℕ, zero, suc, ◌+◌, ◌-◌, ◌*◌, ◌/◌, ◌%◌, ◌^◌, ◌≤◌, ◌<◌, ◌≡◌, refl, ap, ◌∙◌, ◌==◌, arith, Bool-cases,
  inl, inr, List, [], ◌∷◌, ◌++◌, sum_by, sum_by-append, Option, none, some,
}
use raycarwash_project.Float.{find_shift, round_div, of_ratio, of_ℕ, mul, floor}
use raycarwash_project.Float.Bounds.{floor_near, scale_pos}
use raycarwash_project.Pricing.Exact.{of_ℕ_lem}
use raycarwash_project.Payments.Ledger.{
  PaymentLedger, PaymentProcessor, payout_entry, charge_commission, commission, record_split,
  payout_and_commission,
}
use raycarwash_project.Store.{Result, ok, err}

rate-mant : (of_ratio 15 100).mant ≡ 5404319552844595
unfolding of_ratio find_shift round_div
rate-mant = refl

rate-shift : (of_ratio 15 100).shift ≡ 55
unfolding of_ratio find_shift round_div
rate-shift = refl

-- The product with the double nearest to 0.15, as a ratio.
commission-ratio :
    (n : ℕ)
    → (p : ℕ) × (0 < p) × (commission n ≡ floor (of_ratio (n * p * 5404319552844595) (p * 2 ^ 55)))
unfolding commission mul
commission-ratio n =
    (2 ^ (of_ℕ n).shift, scale_pos (of_ℕ n).shift, rw (of_ℕ_lem n, rate-mant, rate-shift) refl)

-- Where fifteen hundredths are no whole number, the double is far enough from one.
fraction_lem :
    (k n p : ℕ)
    → 0 < p
    → 0 < n
    → n < 2 ^ 31
    → 20 * k + 1 ≤ 3 * n
    → 3 * n ≤ 20 * k + 19
    → floor (of_ratio (n * p * 5404319552844595) (p * 2 ^ 55)) ≡ k
fraction_lem k n p p_pos n_pos bound lo hi =
    floor_near k 0 (p * 2 ^ 50) _ _ (omega arith, omega (arith, le_n)) (omega (arith, below))
      (omega (arith, mul-le-mul_right p lo, below)) (omega arith)
      (omega (arith, mul-le-mul_right p hi, below)) (omega arith)
  where
    le_n : 1 * p ≤ n * p
    le_n = mul-le-mul_right p n_pos

    below : n * p ≤ 2 ^ 31 * p
    below = mul-le-mul_right p (omega arith)

-- Where they are, the double rounds to it.
whole_lem :
    (m p : ℕ)
    → 0 < p
    → 0 < m
    → 20 * m < 2 ^ 31
    → floor (of_ratio (20 * m * p * 5404319552844595) (p * 2 ^ 55)) ≡ 3 * m
whole_lem m p p_pos m_pos bound =
    floor_near (3 * m) (4 * (m * p)) (p * 2 ^ 50) _ _ (omega arith, omega (arith, le_m))
      (omega (arith, below)) (omega arith) (omega arith) (omega (arith, below)) (omega arith)
  where
    le_m : 1 * p ≤ m * p
    le_m = mul-le-mul_right p m_pos

    below : m * p ≤ 2 ^ 27 * p
    below = mul-le-mul_right p (omega arith)

no_payment : commission 0 ≡ 0
unfolding commission mul of_ℕ floor of_ratio find_shift round_div
no_payment = refl

-- The commission that the code computes in floating point is fifteen hundredths of the total, rounded
-- down, for every total that fits its column (a 32-bit signed integer).
pub commission-exact : (total : ℕ) → total < 2 ^ 31 → commission total ≡ total * 3 / 20
commission-exact zero h = no_payment ∙ omega arith
commission-exact (suc n) h =
    let (p, pos, e) = commission-ratio (suc n) in
    elim (Bool-cases (suc n % 20 == 0)) [
      | inl whole ↦
          let m : ℕ = suc n / 20 in
          let same : suc n ≡ 20 * m = ground (arith, whole) in
          e
          ∙ ap (λ t. floor (of_ratio (t * p * 5404319552844595) (p * 2 ^ 55))) same
          ∙ whole_lem m p pos (omega (arith, same)) (omega (arith, same, h))
          ∙ omega (arith, same)
      | inr fraction ↦
          let rest : 0 < suc n % 20 = ground (arith, fraction) in
          e
          ∙ fraction_lem (suc n * 3 / 20) (suc n) p pos (omega arith) h (omega (arith, rest))
              (omega arith)
    ]

-- The answer of a split, and the ledger after it.
abbrev pub Splits : ℕ → List PaymentLedger → Result (ℕ × ℕ) × List PaymentLedger → Type 0
Splits total ledger (ok (payout, fee), ledger') =
    (payout + fee ≡ total)
    × (fee ≡ total * 3 / 20)
    × (sum_by (λ (r : PaymentLedger). r.amount_cents) ledger'
        ≡ sum_by (λ (r : PaymentLedger). r.amount_cents) ledger + total)
Splits total ledger (err _, ledger') = ledger' ≡ ledger

record_split-Splits :
    (answer : Option ℕ) (appointment_id total : ℕ) (ledger : List PaymentLedger)
    → commission total ≡ total * 3 / 20
    → Splits total ledger (record_split answer appointment_id total ledger)
unfolding record_split
record_split-Splits none appointment_id total ledger fee = refl
record_split-Splits (some x) appointment_id total ledger fee = (
  omega (arith, fee),
  fee,
  omega (
    arith,
    fee,
    sum_by-append (λ (r : PaymentLedger). r.amount_cents) ledger (payout_row ∷ []),
    sum_by-append (λ (r : PaymentLedger). r.amount_cents) (ledger ++ payout_row ∷ [])
        (fee_row ∷ []),
  ),
)
  where
    payout_row : PaymentLedger
    payout_row = record {
      appointment_id = appointment_id;
      entry_type = payout_entry;
      amount_cents = total - commission total;
    }

    fee_row : PaymentLedger
    fee_row = record {
      appointment_id = appointment_id;
      entry_type = charge_commission;
      amount_cents = commission total;
    }

-- Splitting a total that fits its column either fails and leaves the ledger alone, or answers with a
-- payout and a commission of fifteen hundredths, rounded down, that add up to the total, and the
-- ledger grows by exactly the total.
pub payout_and_commission-Splits :
    (processor : PaymentProcessor) (appointment_id detailer_id total : ℕ)
    (ledger : List PaymentLedger)
    → total < 2 ^ 31
    → Splits total ledger (payout_and_commission processor appointment_id detailer_id total ledger)
unfolding payout_and_commission
payout_and_commission-Splits processor appointment_id detailer_id total ledger h =
    record_split-Splits (processor.payout_call detailer_id (total - commission total))
      appointment_id total ledger (commission-exact total h)
