-- ===== src/Users/Documents/Tests.antt =====
-- A provider's certificate of insurance.
use Prim.Native.String.{String}
use raycarwash_project.Base.{
  ℕ, ◌≡◌, refl, inl, true, false, none, some, List, [], ◌∷◌, arith, map, All,
}
use raycarwash_project.Store.{http, ok, err}
use raycarwash_project.Users.Defaults.Counts.{IsIn}
use raycarwash_project.Providers.Verification.{ProviderProfile, not_submitted}
use raycarwash_project.Users.Documents.{
  Document, DocumentDb, Bucket, ObjectMeta, new_document, get_or_404, prepare_upload,
  confirm_upload, delete,
}
use raycarwash_project.Users.Documents.Expiry.{bucket_for, bucket_of, check}
use raycarwash_project.Users.Documents.Requests.{DocumentStep, uploads, deletes, checks, serve_all}
use raycarwash_project.Users.Documents.Vetted.{Vetted, serve_all-Vetted}
use raycarwash_project.Users.Documents.Upload.{confirm_upload-prepare_upload}
use raycarwash_project.Users.Documents.Reminders.{sent}
use raycarwash_project.Users.Documents.Reminded.{check-serve_all}

abbrev user_text : ℕ → String
user_text user = "u1"

abbrev a_profile : ProviderProfile
a_profile = record {
  id = 1;
  user_id = 1;
  verification_status = not_submitted;
  stripe_verification_session_id = none;
  details = none;
  background_check_consent_at = none;
  verification_submitted_at = none;
  verification_reviewed_at = none;
  rejection_reason = none;
  is_accepting_bookings = true;
}

abbrev no_documents : DocumentDb
no_documents = record {
  next_id = 10;
  profiles = a_profile ∷ [];
  documents = [];
  audit = [];
  dropped = [];
}

abbrev a_scan : ObjectMeta
a_scan = record { size = 5000; content_type = some "application/pdf" }

abbrev a_bucket : Bucket
a_bucket = record { head = λ _. some a_scan; delete_raises = λ _. false }

-- an object that is not a document
abbrev holds_program : Bucket
holds_program = record {
  head = λ _. some (record { size = 1; content_type = some "text/x-sh" });
  delete_raises = λ _. false;
}

-- an object of no known type
abbrev holds_unknown : Bucket
holds_unknown = record {
  head = λ _. some (record { size = 1; content_type = none });
  delete_raises = λ _. false;
}

abbrev a_key : String
a_key = "documents/u1/insurance/t0.pdf"

prepared_key :
    prepare_upload user_text 1 "insurance" "application/pdf" 5000 "t0" no_documents
    ≡ ok "documents/u1/insurance/t0.pdf"
unfolding prepare_upload
prepared_key = refl

-- The object is deleted, the request refused; a type that is not known is accepted.
inspected :
    let refused =
      confirm_upload user_text holds_program 1 a_key "insurance" none none no_documents in
    let accepted =
      confirm_upload user_text holds_unknown 1 a_key "insurance" none none no_documents in
    (refused.0 ≡ err (http 422))
    × ((refused.1.dropped ≡ a_key ∷ [])
        × (map (λ (r : Document). r.mime_type) accepted.1.documents ≡ none ∷ []))
unfolding confirm_upload
inspected = (refl, (refl, refl))

-- One object confirmed twice: deleting the first document drops the bytes of the second.
shared_object :
    (serve_all user_text
      (uploads a_bucket 1 a_key "insurance" none none
        ∷ uploads a_bucket 1 a_key "w9" none none
        ∷ deletes a_bucket 1 10
        ∷ [])
      no_documents).dropped
    ≡ a_key ∷ []
unfolding confirm_upload delete
shared_object = refl

buckets :
    map (bucket_for 100) (90 ∷ 101 ∷ 102 ∷ 107 ∷ 108 ∷ 115 ∷ 131 ∷ [])
    ≡ some 1 ∷ some 1 ∷ some 7 ∷ some 7 ∷ some 14 ∷ some 30 ∷ none ∷ []
unfolding bucket_for
buckets = refl

abbrev year : List DocumentStep
year =
    uploads a_bucket 1 a_key "insurance" none (some 130) ∷ checks 99 ∷ checks 100 ∷ checks 101 ∷ []

abbrev the_document : Document
the_document = new_document 10 1 a_key "insurance" none (some 130) a_scan

serve_all-Vetted_example : All (Vetted user_text) (serve_all user_text year no_documents).documents
serve_all-Vetted_example = serve_all-Vetted user_text year no_documents tt

confirm_upload-prepare_upload_example :
    let t = confirm_upload user_text a_bucket 1 a_key "insurance" none none no_documents in
    (t.0 ≡ ok (new_document 10 1 a_key "insurance" none none a_scan))
    × (get_or_404 1 10 t.1 ≡ ok (new_document 10 1 a_key "insurance" none none a_scan))
confirm_upload-prepare_upload_example =
    confirm_upload-prepare_upload user_text 1 "insurance" "application/pdf" 5000 "t0" a_key
      no_documents a_bucket none none a_scan no_documents prepared_key refl refl refl (omega arith)
      tt

stored : (serve_all user_text year no_documents).documents ≡ the_document ∷ []
unfolding confirm_upload
stored = refl

check-serve_all_example :
    (b : ℕ) × ((bucket_of 120 the_document ≡ some b)
      × (sent 10 b (check 120 (serve_all user_text year no_documents)).audit ≡ 1))
check-serve_all_example =
    check-serve_all user_text year 120 no_documents the_document (tt, λ i. omega arith)
      (λ i b. omega arith) is_stored refl
  where
    is_stored : IsIn the_document (serve_all user_text year no_documents).documents
    is_stored = rw stored (inl refl)
