-- ===== src/Providers/Verification/Tests.antt =====
-- A provider who starts a check, submits and is verified; and one who skips it.
use raycarwash_project.Base.{◌≡◌, refl, true, false, none, some, List, [], ◌∷◌}
use raycarwash_project.Providers.Verification.{
  ProviderDb, VerificationSettings, VerificationSubmitRequest, start, submit,
  handle_identity_verified, handle_identity_requires_input,
}
use raycarwash_project.Providers.Verification.Decisions.{approve_verification, reject_verification}
use raycarwash_project.Providers.Verification.Approval.{
  Action, starts, submits, verifies, rejects, approves, declines, serve_all, approved_for, Earned,
  serve_all-Earned,
}

abbrev production : VerificationSettings
production = record { debug = false; is_stripe_placeholder = false }

abbrev nobody : ProviderDb
nobody = record { next_id = 1; profiles = [] }

abbrev with_session : VerificationSubmitRequest
with_session = record { details = "A"; background_check_consent = true; session_id = some 5 }

abbrev without_session : VerificationSubmitRequest
without_session = record { details = "A"; background_check_consent = true; session_id = none }

abbrev checked : List Action
checked =
    starts (some 5) 7
    ∷ submits 10 7 with_session
    ∷ rejects 15 6 "x"
    ∷ declines 17 1 "y"
    ∷ verifies 20 5
    ∷ []

-- in production, with no word from Stripe
skipped_test :
    approved_for 7 (serve_all production (submits 10 7 without_session ∷ []) nobody) ≡ true
unfolding submit
skipped_test = refl

pending_test : approved_for 7 (serve_all production (submits 10 7 with_session ∷ []) nobody) ≡ false
unfolding submit
pending_test = refl

-- an administrator's word, with no check at all
decided_test :
    approved_for 7 (serve_all production (submits 10 7 with_session ∷ approves 12 1 ∷ []) nobody)
    ≡ true
unfolding submit approve_verification
decided_test = refl

serve_all-Earned_example : Earned production 7 checked nobody
unfolding start submit handle_identity_verified handle_identity_requires_input reject_verification
serve_all-Earned_example = serve_all-Earned production 7 checked nobody refl refl
