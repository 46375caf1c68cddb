-- ===== src/Appointments/Transition/Money.antt =====
-- What a status request sends to Stripe.
use raycarwash_project.Base.{
  ℕ, ◌+◌, ◌≤◌, ◌≡◌, ◌^◌, ◌<◌, refl, ◌∙◌, Bool, [], ◌∷◌, ◌++◌, sum_by, sum_by-append, arith, Option,
  true, false, not, ◌&&◌, Bool-cases, Option-cases, inl, inr, some,
}
use raycarwash_project.Appointments.Status.{Status, status_eq, completed}
use raycarwash_project.Appointments.Refund.Exact.{refund_policy-le}
use raycarwash_project.Appointments.Transition.{
  StatusUpdate, Refunded, stamp, capture_held, void_hold, refund_captured, record_change,
  apply_change, change_allowed, transition_status, live_intent, is_cancellation, void_reason,
}
use raycarwash_project.Appointments.Refund.{refund_policy}
use Prim.Native.String.{String}
use raycarwash_project.Store.Frames.{attempt_lem, bind-Keeps, request-stripe_calls}
use raycarwash_project.Payments.Intents.{
  get_by_id, capture_payment_intent, cancel_payment_intent, create_refund, amount_to_capture,
}
use raycarwash_project.Store.{
  User, Appointment, World, Env, Result, request, StripeCall, refund_intent, cancel_intent,
  capture_intent, ◌>>=◌,
}

-- The cents that a call gives back.
abbrev pub given_back : StripeCall → ℕ
given_back (refund_intent _ cents _) = cents
given_back _ = 0

abbrev pub refunds : World → ℕ
refunds w = sum_by given_back w.stripe_calls

after_call :
    (c : StripeCall) (w : World)
    → sum_by given_back (w.stripe_calls ++ c ∷ []) ≡ refunds w + given_back c
after_call c w = omega (arith, sum_by-append given_back w.stripe_calls (c ∷ []))

capture_payment_intent-refunds :
    (env : Env) (pi : String) (amount : Option ℕ) (w : World)
    → refunds (capture_payment_intent env pi amount w).1 ≡ refunds w
unfolding capture_payment_intent ◌>>=◌
capture_payment_intent-refunds env pi amount w =
    ground (arith, after_call (capture_intent pi (amount_to_capture amount)) w)

cancel_payment_intent-refunds :
    (env : Env) (pi reason : String) (w : World)
    → refunds (cancel_payment_intent env pi reason w).1 ≡ refunds w
unfolding cancel_payment_intent ◌>>=◌
cancel_payment_intent-refunds env pi reason w =
    ground (arith, after_call (cancel_intent pi reason) w)

create_refund-refunds :
    (env : Env) (pi : String) (cents : ℕ) (reason : String) (w : World)
    → refunds (create_refund env pi cents reason w).1 ≤ refunds w + cents
unfolding create_refund ◌>>=◌
create_refund-refunds env pi cents reason w =
    ground (arith, after_call (refund_intent pi cents reason) w)

capture_held-refunds :
    (env : Env) (s : Status) (a : Appointment) (w : World)
    → refunds (capture_held env s a w).1 ≡ refunds w
unfolding capture_held
capture_held-refunds env s a w = elim (Bool-cases (status_eq s completed)) [
  | inl e ↦ rw e (elim (Option-cases (live_intent a)) [
    | inl missing ↦ rw missing refl
    | inr (pi, live) ↦
        rw (live, attempt_lem (capture_payment_intent env pi a.actual_price) tt tt w)
          (capture_payment_intent-refunds env pi a.actual_price w)
  ])
  | inr e ↦ rw e refl
]

void_hold-refunds :
    (env : Env) (s t : Status) (a : Appointment) (w : World)
    → refunds (void_hold env s t a w).1 ≡ refunds w
unfolding void_hold
void_hold-refunds env s t a w =
    elim (Bool-cases (is_cancellation t && not (status_eq s completed))) [
      | inl e ↦ rw e (elim (Option-cases (live_intent a)) [
        | inl missing ↦ rw missing refl
        | inr (pi, live) ↦
            rw (live, attempt_lem (cancel_payment_intent env pi (void_reason t)) true false w)
              (cancel_payment_intent-refunds env pi (void_reason t) w)
      ])
      | inr e ↦ rw e refl
    ]

refund_captured-refunds :
    (env : Env) (s t : Status) (v : Bool) (a : Appointment) (w : World)
    → env.settings.partial_refund_percent ≤ 100
    → a.estimated_price < 2 ^ 31
    → refunds (refund_captured env s t v a w).1 ≤ refunds w + a.estimated_price
unfolding refund_captured ◌>>=◌
refund_captured-refunds env s t v a w h small = elim (Option-cases (live_intent a)) [
  | inl missing ↦ ground (arith, missing)
  | inr (pi, live) ↦ ground (
    arith,
    live,
    create_refund-refunds env pi
        (refund_policy env.settings a.scheduled_time env.now a.estimated_price).1
        "requested_by_customer" w,
    refund_policy-le env.settings a.scheduled_time env.now a.estimated_price h small,
  )
]

record_change-refunds :
    (actor : User) (payload : StatusUpdate) (s : Status) (a : Appointment) (r : Refunded)
    (w : World)
    → refunds (record_change actor payload s a r w).1 ≡ refunds w
unfolding record_change ◌>>=◌
record_change-refunds actor payload s a r w = ground arith

stamp-price :
    (env : Env) (payload : StatusUpdate) (a : Appointment)
    → (stamp env payload a).estimated_price ≡ a.estimated_price
unfolding stamp
stamp-price env payload a = ground arith

apply_change-refunds :
    (env : Env) (payload : StatusUpdate) (actor : User) (a : Appointment) (w : World)
    → env.settings.partial_refund_percent ≤ 100
    → a.estimated_price < 2 ^ 31
    → refunds (apply_change env payload actor a w).1 ≤ refunds w + a.estimated_price
unfolding apply_change
apply_change-refunds env payload actor a w h small =
    let b = stamp env payload a in
    let price : b.estimated_price ≡ a.estimated_price = stamp-price env payload a in
    bind-Keeps (λ w₁. refunds w₁ ≡ refunds w) Bounded _ _ w
      (capture_held-refunds env payload.status b w) (λ e w₁ k₁. omega (arith, k₁))
      (λ u w₁ k₁.
        bind-Keeps (λ w₂. refunds w₂ ≡ refunds w) Bounded _ _ w₁
          (void_hold-refunds env b.status payload.status b w₁ ∙ k₁) (λ e w₂ k₂. omega (arith, k₂))
          (λ voided w₂ k₂.
            bind-Keeps (λ w₃. refunds w₃ ≤ refunds w + a.estimated_price) Bounded _ _ w₂
              (omega (
                arith,
                k₂,
                price,
                refund_captured-refunds env b.status payload.status voided b w₂ h (rw price small),
              ))
              (λ e w₃ k₃. k₃)
              (λ r w₃ k₃. omega (arith, k₃, record_change-refunds actor payload b.status b r w₃))))
  where
    Bounded : Result Appointment × World → Type 0
    Bounded r = refunds r.1 ≤ refunds w + a.estimated_price

change_allowed-refunds :
    (env : Env) (payload : StatusUpdate) (actor : User) (a : Appointment) (w : World)
    → env.settings.partial_refund_percent ≤ 100
    → a.estimated_price < 2 ^ 31
    → refunds (change_allowed env payload actor a w).1 ≤ refunds w + a.estimated_price
unfolding change_allowed
change_allowed-refunds env payload actor a w h small =
    ground (arith, apply_change-refunds env payload actor a w h small)

-- A status request for an appointment whose price fits its column gives back at most that price in
-- all its calls to Stripe, with a partial percentage of at most 100: whatever the answers of Stripe,
-- and whether the request succeeds or fails.
pub transition_status-refunds :
    (env : Env) (n : ℕ) (payload : StatusUpdate) (actor : User) (a : Appointment) (w : World)
    → get_by_id n w.db ≡ some a
    → env.settings.partial_refund_percent ≤ 100
    → a.estimated_price < 2 ^ 31
    → refunds (request (transition_status env n payload actor) w).1 ≤ refunds w + a.estimated_price
unfolding transition_status change_allowed ◌>>=◌
transition_status-refunds env n payload actor a w found h small =
    rw (request-stripe_calls (transition_status env n payload actor) w)
      (rw found (ground (arith, change_allowed-refunds env payload actor a w h small)))
