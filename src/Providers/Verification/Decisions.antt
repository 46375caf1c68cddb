-- ===== src/Providers/Verification/Decisions.antt =====
-- What administrators decide on an identity: approve_verification and reject_verification of
-- backend/domains/admin/repository.py and backend/domains/admin/router.py. The audit log is not modelled.
use Prim.Native.String.{String}
use raycarwash_project.Base.{ℕ, Bool, Option, none, some, ◌==◌, if◌then◌else◌, any}
use raycarwash_project.Store.{http, Result, ok, err}
use raycarwash_project.Providers.Verification.{
  VerificationStatus, approved, rejected, ProviderProfile, ProviderDb, save,
}

abbrev pub has_id : ℕ → ProviderProfile → Bool
has_id id p = p.id == id

abbrev pub decided : VerificationStatus → Option String → ℕ → ProviderProfile → ProviderProfile
decided status reason now p = record p {
  verification_status = status;
  verification_reviewed_at = some now;
  rejection_reason = reason;
}

-- `UPDATE provider_profiles ... WHERE id`, and 404 when its rowcount is 0
abbrev pub decide :
    ℕ → (ProviderProfile → ProviderProfile) → ProviderDb → Result (Unit {0}) × ProviderDb
decide id change d =
    if any (has_id id) d.profiles then (ok tt, save (has_id id) change d) else (err (http 404), d)

unfoldable pub approve_verification : ℕ → ℕ → ProviderDb → Result (Unit {0}) × ProviderDb
approve_verification now id d = decide id (decided approved none now) d

unfoldable pub reject_verification : ℕ → ℕ → String → ProviderDb → Result (Unit {0}) × ProviderDb
reject_verification now id reason d = decide id (decided rejected (some reason) now) d
