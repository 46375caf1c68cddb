-- ===== src/Users/Documents.antt =====
-- The documents of a provider: ProviderDocumentsService of
-- backend/domains/users/provider_documents_service.py with its endpoints in provider_documents_router.py.
-- The text of a user's key and the answers of the private bucket are arguments; `dropped` is what the
-- service has deleted there. Listing and the signing of links are not modelled.
pub mod Expiry
mod Requests
mod Vetted
mod Upload
mod Reminders
mod Reminded
mod Tests
use Prim.Native.String.{String, ◌++◌ as str_append}
use text.Mathlib.Text.{◌==◌ as str_eq, starts_with}
use raycarwash_project.Base.{
  ℕ, suc, ◌+◌, ◌*◌, Bool, true, false, not, ◌&&◌, ◌||◌, Option, none, some, List, [], ◌∷◌, ◌++◌,
  ◌==◌, ltb, if◌then◌else◌, any, find_where, update_where,
}
use raycarwash_project.Store.{Error, http, Result, ok, err}
use raycarwash_project.Rides.{scalar_one_or_none}
use raycarwash_project.Payments.Intents.{truthy}
use raycarwash_project.Providers.Verification.{ProviderProfile, of_user}

-- MAX_DOCUMENT_SIZE_BYTES
abbrev pub max_document_size : ℕ
max_document_size = 20 * (1024 * 1024)

-- VALID_DOCUMENT_TYPES
abbrev pub valid_document_types : List String
valid_document_types = "insurance" ∷ "business_license" ∷ "certification" ∷ "w9" ∷ "other" ∷ []

-- ALLOWED_DOCUMENT_MIME_TYPES
abbrev pub allowed_mime_types : List String
allowed_mime_types = "image/jpeg" ∷ "image/png" ∷ "application/pdf" ∷ []

abbrev pub is_one_of : String → List String → Bool
is_one_of s xs = any (str_eq s) xs

-- _MIME_TO_EXT, or "bin"
abbrev pub extension : String → String
extension mime =
    if str_eq mime "image/jpeg"
    then "jpg"
    else if str_eq mime "image/png"
    then "png"
    else if str_eq mime "application/pdf"
    then "pdf"
    else "bin"

-- expires_at is a day
pub record Document : Type 0 where
  pub id : ℕ
  pub user_id : ℕ
  pub doc_type : String
  pub title : Option String
  pub s3_key : String
  pub mime_type : Option String
  pub size_bytes : ℕ
  pub expires_at : Option ℕ
  pub is_deleted : Bool

-- The reminder is the row of document_expiry_checker for a document and a bucket.
pub data DocumentAudit : Type 0 where
  document_uploaded document_deleted : (document actor : ℕ) → DocumentAudit
  reminder : (document bucket : ℕ) → DocumentAudit

pub record DocumentDb : Type 0 where
  pub next_id : ℕ
  pub profiles : List ProviderProfile
  pub documents : List Document
  pub audit : List DocumentAudit
  pub dropped : List String

pub record ObjectMeta : Type 0 where
  pub size : ℕ
  pub content_type : Option String

-- `head` is none for ObjectNotFound
pub record Bucket : Type 0 where
  pub head : String → Option ObjectMeta
  pub delete_raises : String → Bool

-- _require_provider
abbrev pub require_provider : ℕ → DocumentDb → Result (Unit {0})
require_provider user d = elim (scalar_one_or_none (of_user user) d.profiles) [
  | err e ↦ err e
  | ok none ↦ err (http 409)
  | ok (some _) ↦ ok tt
]

abbrev pub owned : ℕ → ℕ → Document → Bool
owned user id r = r.id == id && (r.user_id == user && not r.is_deleted)

abbrev pub get_or_404 : ℕ → ℕ → DocumentDb → Result Document
get_or_404 user id d = elim (find_where (owned user id) d.documents) [
  | none ↦ err (http 404)
  | some r ↦ ok r
]

abbrev pub drop_object : String → DocumentDb → DocumentDb
drop_object key d = record d { dropped = d.dropped ++ (key ∷ []) }

-- delete_object before an answer
abbrev pub refuse : Bucket → String → Error → DocumentDb → Result Document × DocumentDb
refuse bucket key e d =
    if bucket.delete_raises key then (err (http 500), d) else (err e, drop_object key d)

abbrev pub new_document : ℕ → ℕ → String → String → Option String → Option ℕ → ObjectMeta → Document
new_document id user key doc_type title expires_at meta = record {
  id = id;
  user_id = user;
  doc_type = doc_type;
  title = title;
  s3_key = key;
  mime_type = meta.content_type;
  size_bytes = meta.size;
  expires_at = expires_at;
  is_deleted = false;
}

-- `content_type and content_type not in ALLOWED_DOCUMENT_MIME_TYPES`
abbrev pub is_forbidden_type : Option String → Bool
is_forbidden_type content_type = elim (truthy content_type) [
  | none ↦ false
  | some mime ↦ not (is_one_of mime allowed_mime_types)
]

abbrev pub insert_document : Document → ℕ → DocumentDb → DocumentDb
insert_document row user d = record d {
  next_id = suc d.next_id;
  documents = d.documents ++ (row ∷ []);
  audit = d.audit ++ (document_uploaded row.id user ∷ []);
}

-- what confirm_upload does with the object that it found
abbrev pub inspect :
    Bucket
    → ℕ
    → String
    → String
    → Option String
    → Option ℕ
    → ObjectMeta
    → DocumentDb
    → Result Document × DocumentDb
inspect bucket user key doc_type title expires_at meta d =
    let row = new_document d.next_id user key doc_type title expires_at meta in
    if is_forbidden_type meta.content_type
    then refuse bucket key (http 422) d
    else if ltb max_document_size meta.size
    then refuse bucket key (http 413) d
    else (ok row, insert_document row user d)

-- `text` is the str of a user's key
module _ (text : ℕ → String) where
  -- `documents/{user.id}/`
  abbrev pub folder : ℕ → String
  folder user = str_append "documents/" (str_append (text user) "/")

  -- the key of prepare_upload's answer
  unfoldable pub prepare_upload : ℕ → String → String → ℕ → String → DocumentDb → Result String
  prepare_upload user doc_type mime size token d = elim (require_provider user d) [
    | err e ↦ err e
    | ok _ ↦
        if not (is_one_of doc_type valid_document_types)
        then err (http 422)
        else if not (is_one_of mime allowed_mime_types)
        then err (http 422)
        else if size == 0 || ltb max_document_size size
        then err (http 422)
        else ok (
            str_append (folder user) (
              str_append doc_type
                (str_append "/" (str_append token (str_append "." (extension mime))))))
  ]

  unfoldable pub confirm_upload :
      Bucket
      → ℕ
      → String
      → String
      → Option String
      → Option ℕ
      → DocumentDb
      → Result Document × DocumentDb
  confirm_upload bucket user key doc_type title expires_at d = elim (require_provider user d) [
    | err e ↦ (err e, d)
    | ok _ ↦
        if not (is_one_of doc_type valid_document_types)
        then (err (http 422), d)
        else if not (starts_with key (folder user))
        then (err (http 403), d)
        else elim (bucket.head key) [
          | none ↦ (err (http 404), d)
          | some meta ↦ inspect bucket user key doc_type title expires_at meta d
        ]
  ]

abbrev pub soft_deleted : ℕ → Document → DocumentDb → DocumentDb
soft_deleted user row d = record d {
  documents = update_where (λ r. r.id == row.id) (λ r. record r { is_deleted = true }) d.documents;
  audit = d.audit ++ (document_deleted row.id user ∷ []);
}

-- A bucket that raises is only logged.
unfoldable pub delete : Bucket → ℕ → ℕ → DocumentDb → Result (Unit {0}) × DocumentDb
delete bucket user id d = elim (require_provider user d) [
  | err e ↦ (err e, d)
  | ok _ ↦ elim (get_or_404 user id d) [
    | err e ↦ (err e, d)
    | ok row ↦
        if bucket.delete_raises row.s3_key
        then (ok tt, soft_deleted user row d)
        else (ok tt, drop_object row.s3_key (soft_deleted user row d))
  ]
]
