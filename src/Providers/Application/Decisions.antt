-- ===== src/Providers/Application/Decisions.antt =====
-- What administrators decide on profiles: approve_detailer, suspend_detailer, approve_verification and
-- reject_verification of backend/domains/admin/repository.py. Notes are not modelled.
use Prim.Native.String.{String}
use raycarwash_project.Base.{
  ℕ, Bool, true, false, Option, none, some, ◌==◌, if◌then◌else◌, find_where,
}
use raycarwash_project.Store.{http, Result, ok, err}
use raycarwash_project.Providers.Verification.{approved, rejected}
use raycarwash_project.Providers.Application.{
  ProviderProfile, ApplicationDb, ApplicationStatus, submitted, bg_check_pending, docs_review,
  application_approved, suspended, detailer_approved, detailer_suspended, verification_approved,
  verification_rejected, save,
}

-- _APPROVABLE_FROM
abbrev pub is_approvable : ApplicationStatus → Bool
is_approvable submitted = true
is_approvable bg_check_pending = true
is_approvable docs_review = true
is_approvable suspended = true
is_approvable _ = false

-- _SUSPENDABLE_FROM
abbrev pub is_suspendable : ApplicationStatus → Bool
is_suspendable application_approved = true
is_suspendable _ = false

-- a row by its key, deleted or not, and what a handler does with it
abbrev pub with_row :
    ℕ
    → (ProviderProfile → Result (Unit {0}) × ApplicationDb)
    → ApplicationDb
    → Result (Unit {0}) × ApplicationDb
with_row id next d = elim (find_where (λ p. p.id == id) d.profiles) [
  | none ↦ (err (http 404), d)
  | some p ↦ next p
]

abbrev pub reviewed : ApplicationStatus → ℕ → Option String → ProviderProfile → ProviderProfile
reviewed status now reason p = record p {
  application_status = status;
  verification_reviewed_at = some now;
  rejection_reason = reason;
}

unfoldable pub approve_detailer : ℕ → ℕ → ℕ → ApplicationDb → Result (Unit {0}) × ApplicationDb
approve_detailer now id actor d =
    with_row id
      (λ p.
        if is_approvable p.application_status
        then (ok tt, save (reviewed application_approved now none p) (detailer_approved id actor) d)
        else (err (http 409), d))
      d

unfoldable pub suspend_detailer :
    ℕ → ℕ → ℕ → String → ApplicationDb → Result (Unit {0}) × ApplicationDb
suspend_detailer now id actor reason d =
    with_row id
      (λ p.
        if is_suspendable p.application_status
        then (ok tt, save (reviewed suspended now (some reason) p) (detailer_suspended id actor) d)
        else (err (http 409), d))
      d

unfoldable pub approve_verification : ℕ → ℕ → ℕ → ApplicationDb → Result (Unit {0}) × ApplicationDb
approve_verification now id actor d =
    with_row id
      (λ p. (
        ok tt,
        save
            (record p {
              verification_status = approved;
              verification_reviewed_at = some now;
              rejection_reason = none;
            })
            (verification_approved id actor) d,
      ))
      d

unfoldable pub reject_verification :
    ℕ → ℕ → ℕ → String → ApplicationDb → Result (Unit {0}) × ApplicationDb
reject_verification now id actor reason d =
    with_row id
      (λ p. (
        ok tt,
        save
            (record p {
              verification_status = rejected;
              verification_reviewed_at = some now;
              rejection_reason = some reason;
            })
            (verification_rejected id actor) d,
      ))
      d
