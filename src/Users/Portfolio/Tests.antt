-- ===== src/Users/Portfolio/Tests.antt =====
-- A provider's first photos.
use Prim.Native.String.{String}
use raycarwash_project.Base.{ℕ, suc, zero, ◌≡◌, refl, true, false, none, some, List, [], ◌∷◌, map}
use raycarwash_project.Store.{http, ok, err}
use raycarwash_project.Providers.Verification.{ProviderProfile, not_submitted}
use raycarwash_project.Users.Documents.{Bucket}
use raycarwash_project.Users.Portfolio.{
  PortfolioPhoto, PortfolioDb, new_photo, prepare_upload, confirm_upload, delete,
}
use raycarwash_project.Users.Portfolio.Limit.{uploads, deletes, serve_all}

abbrev user_text : ℕ → String
user_text user = "u1"

abbrev a_profile : ProviderProfile
a_profile = record {
  id = 1;
  user_id = 1;
  verification_status = not_submitted;
  stripe_verification_session_id = none;
  details = none;
  background_check_consent_at = none;
  verification_submitted_at = none;
  verification_reviewed_at = none;
  rejection_reason = none;
  is_accepting_bookings = true;
}

abbrev a_bucket : Bucket
a_bucket = record {
  head = λ _. some (record { size = 5000; content_type = some "image/png" });
  delete_raises = λ _. false;
}

abbrev a_key : String
a_key = "provider_portfolio/u1/t0.png"

abbrev copies : ℕ → List PortfolioPhoto
copies zero = []
copies (suc n) = new_photo n 1 a_key none none n ∷ copies n

abbrev portfolio : List PortfolioPhoto → PortfolioDb
portfolio photos = record {
  next_id = 100;
  profiles = a_profile ∷ [];
  photos = photos;
  dropped = [];
}

prepared_key : prepare_upload user_text 1 "image/png" 5000 "t0" (portfolio []) ≡ ok a_key
unfolding prepare_upload
prepared_key = refl

-- The thirty-first photo is refused, and its object deleted.
full :
    let t = confirm_upload user_text a_bucket 1 a_key none none (portfolio (copies 30)) in
    (t.0 ≡ err (http 409)) × (t.1.dropped ≡ a_key ∷ [])
unfolding confirm_upload
full = (refl, refl)

-- After a deletion the next photo gets a place in the order that is taken.
same_place :
    map
      (λ (p : PortfolioPhoto). p.sort_order)
      (serve_all user_text
        (uploads a_bucket 1 a_key none none
          ∷ uploads a_bucket 1 a_key none none
          ∷ deletes a_bucket 1 100
          ∷ uploads a_bucket 1 a_key none none
          ∷ [])
        (portfolio [])).photos
    ≡ 1 ∷ 1 ∷ []
unfolding confirm_upload delete
same_place = refl
