-- ===== src/Users/Documents/Upload.antt =====
-- An upload in its two requests.
use Prim.Native.String.{String, ◌++◌ as str_append}
use text.Mathlib.Text.{starts_with}
use text.Mathlib.TextPositions.{starts_with-append}
use raycarwash_project.Base.{
  ℕ, ◌<◌, ◌≤◌, ◌≡◌, refl, subst, inl, inr, true, false, ◌||◌, Option, some, List, [], ◌∷◌, ◌++◌,
  arith, ◌==◌, ltb, Bool-cases, All, find_where,
}
use raycarwash_project.Store.{ok, Result-cases}
use raycarwash_project.Users.Documents.{
  Document, DocumentDb, Bucket, ObjectMeta, owned, get_or_404, max_document_size,
  valid_document_types, allowed_mime_types, is_one_of, is_forbidden_type, folder, require_provider,
  inspect, new_document, insert_document, extension, prepare_upload, confirm_upload,
}

-- What prepare_upload has asked for, when it answers.
prepared :
    (text : ℕ → String) (user : ℕ) (doc_type mime : String) (size : ℕ) (token key : String)
    (d : DocumentDb)
    → prepare_upload text user doc_type mime size token d ≡ ok key
    → (require_provider user d ≡ ok tt)
      × (is_one_of doc_type valid_document_types ≡ true)
      × (starts_with key (folder text user) ≡ true)
unfolding prepare_upload
prepared text user doc_type mime size token key d h =
    elim (Result-cases (require_provider user d)) [
      | inr (e, x) ↦ absurd (ground (arith, rw (x, prepare_upload) at h))
      | inl (u, x) ↦ elim (Bool-cases (is_one_of doc_type valid_document_types)) [
        | inr y ↦ absurd (ground (arith, rw (x, prepare_upload, y) at h))
        | inl y ↦ elim (Bool-cases (is_one_of mime allowed_mime_types)) [
          | inr z ↦ absurd (ground (arith, rw (x, prepare_upload, y, z) at h))
          | inl z ↦ elim (Bool-cases (size == 0 || ltb max_document_size size)) [
            | inl w ↦ absurd (ground (arith, rw (x, prepare_upload, y, z, w) at h))
            | inr w ↦
                let made : str_append (folder text user) (
                      str_append doc_type
                        (str_append "/" (str_append token (str_append "." (extension mime)))))
                    ≡ key =
                  ground (arith, rw (x, prepare_upload, y, z, w) at h) in
                (
                  x,
                  y,
                  subst (λ k. starts_with k (folder text user) ≡ true) made
                      (starts_with-append _ _),
                )
          ]
        ]
      ]
    ]

-- Of the rows with smaller keys none is found.
find-last :
    (user : ℕ) (rows : List Document) (row : Document)
    → All (λ r. r.id < row.id) rows
    → owned user row.id row ≡ true
    → find_where (owned user row.id) (rows ++ row ∷ []) ≡ some row
find-last user [] row h own = rw own refl
find-last user (x ∷ xs) row (low, rest) own =
    let other : owned user row.id x ≡ false = ground (arith, low) in
    rw other (find-last user xs row rest own)

-- If prepare_upload has answered a key, and later the user is a provider still and the object at the key
-- has a content type that is allowed or not known and at most 20 MB: where the keys of documents are
-- below the counter, confirm_upload for the same type succeeds, and the document can be read by its id.
pub confirm_upload-prepare_upload :
    (text : ℕ → String) (user : ℕ) (doc_type mime : String) (size : ℕ) (token key : String)
    (d : DocumentDb) (bucket : Bucket) (title : Option String) (expires : Option ℕ)
    (meta : ObjectMeta) (later : DocumentDb)
    → prepare_upload text user doc_type mime size token d ≡ ok key
    → require_provider user later ≡ ok tt
    → bucket.head key ≡ some meta
    → is_forbidden_type meta.content_type ≡ false
    → meta.size ≤ max_document_size
    → All (λ r. r.id < later.next_id) later.documents
    → let row = new_document later.next_id user key doc_type title expires meta in
      let t = confirm_upload text bucket user key doc_type title expires later in
      (t.0 ≡ ok row) × (get_or_404 user later.next_id t.1 ≡ ok row)
unfolding confirm_upload
confirm_upload-prepare_upload text user doc_type mime size token key d bucket title expires meta
      later h provider found fine small below =
    let (was, valid, own) = prepared text user doc_type mime size token key d h in
    let fits : ltb max_document_size meta.size ≡ false = ground (arith, small) in
    let row = new_document later.next_id user key doc_type title expires meta in
    let mine : owned user later.next_id row ≡ true = ground arith in
    let last = find-last user later.documents row below mine in
    rw
      (
        provider, confirm_upload, valid, own, found, inspect, fine, fits, insert_document,
        get_or_404, last,
      )
      (refl, refl)
