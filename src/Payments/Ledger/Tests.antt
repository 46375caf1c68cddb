-- ===== src/Payments/Ledger/Tests.antt =====
-- A payment of 123.45 dollars.
use raycarwash_project.Base.{some, [], arith}
use raycarwash_project.Payments.Ledger.{PaymentProcessor, payout_and_commission}
use raycarwash_project.Payments.Ledger.Commission.{Splits, payout_and_commission-Splits}

abbrev mock_processor : PaymentProcessor
mock_processor = record {
  authorize_call = λ _ _. some 1;
  capture_call = λ _ _. some 2;
  payout_call = λ _ _. some 3;
}

payout_and_commission-Splits_example :
    Splits 12345 [] (payout_and_commission mock_processor 50 2 12345 [])
payout_and_commission-Splits_example =
    payout_and_commission-Splits mock_processor 50 2 12345 [] (omega arith)
