-- ===== src/Users/Cards/Tests.antt =====
-- Two cards of one user.
use raycarwash_project.Base.{ℕ, ◌≡◌, refl, Bool, true, false, none, some, List, [], ◌∷◌, arith, map}
use raycarwash_project.Users.Defaults.{
  get_by_id, insert_row, delete_row, count_active, first_active, soft_delete, pivot_default,
}
use raycarwash_project.Users.Cards.{
  PaymentMethodSnapshot, Wallet, set_default, delete, upsert_from_snapshot, get_by_stripe_id,
  mark_detached_by_stripe_id,
}
use raycarwash_project.Users.Cards.AtMostOne.{
  CardRequest, chooses, deletes, attaches, detaches, serve_all, AtMostOne, serve_all-AtMostOne,
}

abbrev card : ℕ → PaymentMethodSnapshot
card pm = record {
  stripe_payment_method_id = pm;
  card_type = "card";
  brand = some "visa";
  last4 = some "4242";
  exp_month = some 1;
  exp_year = some 2030;
  billing_zip = none;
}

abbrev empty_wallet : Wallet
empty_wallet = record { table = record { next_id = 1; rows = [] }; audit = [] }

abbrev requests : List CardRequest
requests = attaches 10 7 (card 100) ∷ attaches 11 7 (card 200) ∷ chooses 7 2 ∷ deletes 12 7 2 ∷ []

flags : Wallet → List (ℕ × (Bool × Bool))
flags w = map (λ r. (r.id, (r.is_default, r.is_deleted))) w.table.rows

promoted : flags (serve_all requests empty_wallet) ≡ (1, (true, false)) ∷ (2, (false, true)) ∷ []
unfolding flags upsert_from_snapshot get_by_stripe_id set_default delete get_by_id insert_row
    delete_row count_active first_active soft_delete pivot_default
promoted = refl

-- the only card, detached at Stripe and attached again, is no default
revived :
    flags (
      serve_all
        (attaches 10 7 (card 100) ∷ detaches 11 100 ∷ attaches 12 7 (card 100) ∷ [])
        empty_wallet)
    ≡ (1, (false, false)) ∷ []
unfolding flags upsert_from_snapshot get_by_stripe_id insert_row count_active
    mark_detached_by_stripe_id
revived = refl

serve_all-AtMostOne_example : AtMostOne (serve_all requests empty_wallet).table
serve_all-AtMostOne_example =
    serve_all-AtMostOne requests empty_wallet (tt, (λ i. omega arith), refl, (λ user. omega arith))
