-- ===== src/Users/Documents/Vetted.antt =====
-- What is known of every stored document.
use Prim.Native.String.{String}
use text.Mathlib.Text.{starts_with}
use raycarwash_project.Base.{
  ℕ, ◌≤◌, ◌≡◌, inl, inr, true, false, Option, List, [], ◌∷◌, arith, ◌==◌, ltb, Bool-cases,
  Option-cases, All, All-append_one, All-update_where,
}
use raycarwash_project.Store.{Error, Result-cases}
use raycarwash_project.Users.Documents.{
  Document, DocumentDb, Bucket, ObjectMeta, max_document_size, valid_document_types, is_one_of,
  is_forbidden_type, folder, require_provider, get_or_404, refuse, inspect, new_document,
  confirm_upload, delete,
}
use raycarwash_project.Users.Documents.Expiry.{check}
use raycarwash_project.Users.Documents.Requests.{
  DocumentStep, uploads, deletes, checks, transact, serve_all,
}

module _ (text : ℕ → String) where
  -- A row of a valid type, of at most 20 MB, of a type of content that is allowed or not known, whose
  -- key is in its user's folder.
  abbrev pub Vetted : Document → Type 0
  Vetted r =
      (is_one_of r.doc_type valid_document_types ≡ true)
      × (r.size_bytes ≤ max_document_size)
      × (is_forbidden_type r.mime_type ≡ false)
      × (starts_with r.s3_key (folder text r.user_id) ≡ true)

  refuse-Vetted :
      (bucket : Bucket) (key : String) (e : Error) (d : DocumentDb)
      → All Vetted d.documents
      → All Vetted (transact (refuse bucket key e d) d).documents
  refuse-Vetted bucket key e d h = elim (Bool-cases (bucket.delete_raises key)) [
    | inl x ↦ rw (x, refuse, transact) h
    | inr x ↦ rw (x, refuse, transact) h
  ]

  inspect-Vetted :
      (bucket : Bucket) (user : ℕ) (key doc_type : String) (title : Option String)
      (expires : Option ℕ) (meta : ObjectMeta) (d : DocumentDb)
      → is_one_of doc_type valid_document_types ≡ true
      → starts_with key (folder text user) ≡ true
      → All Vetted d.documents
      → All Vetted (transact (inspect bucket user key doc_type title expires meta d) d).documents
  inspect-Vetted bucket user key doc_type title expires meta d valid own h =
      elim (Bool-cases (is_forbidden_type meta.content_type)) [
        | inl x ↦ rw (x, inspect) (refuse-Vetted bucket key _ d h)
        | inr x ↦ elim (Bool-cases (ltb max_document_size meta.size)) [
          | inl y ↦ rw (x, inspect, y) (refuse-Vetted bucket key _ d h)
          | inr y ↦
              rw (x, inspect, y, transact)
                (All-append_one Vetted d.documents
                  (new_document d.next_id user key doc_type title expires meta) h
                  (valid, ground (arith, y), x, own))
        ]
      ]

  confirm_upload-Vetted :
      (bucket : Bucket) (user : ℕ) (key doc_type : String) (title : Option String)
      (expires : Option ℕ) (d : DocumentDb)
      → All Vetted d.documents
      → All Vetted
          (transact (confirm_upload text bucket user key doc_type title expires d) d).documents
  unfolding confirm_upload
  confirm_upload-Vetted bucket user key doc_type title expires d h =
      elim (Result-cases (require_provider user d)) [
        | inr (e, x) ↦ rw (x, confirm_upload, transact) h
        | inl (u, x) ↦ elim (Bool-cases (is_one_of doc_type valid_document_types)) [
          | inr y ↦ rw (x, confirm_upload, y, transact) h
          | inl y ↦ elim (Bool-cases (starts_with key (folder text user))) [
            | inr z ↦ rw (x, confirm_upload, y, z, transact) h
            | inl z ↦ elim (Option-cases (bucket.head key)) [
              | inl n ↦ rw (x, confirm_upload, y, z, n, transact) h
              | inr (meta, m) ↦
                  rw (x, confirm_upload, y, z, m)
                    (inspect-Vetted bucket user key doc_type title expires meta d y z h)
            ]
          ]
        ]
      ]

  delete-Vetted :
      (bucket : Bucket) (user id : ℕ) (d : DocumentDb)
      → All Vetted d.documents
      → All Vetted (transact (delete bucket user id d) d).documents
  unfolding delete
  delete-Vetted bucket user id d h = elim (Result-cases (require_provider user d)) [
    | inr (e, x) ↦ rw (x, delete, transact) h
    | inl (u, x) ↦ elim (Result-cases (get_or_404 user id d)) [
      | inr (e, y) ↦ rw (x, delete, y, transact) h
      | inl (row, y) ↦
          let kept =
            All-update_where Vetted (λ r. r.id == row.id) (λ r. record r { is_deleted = true })
              d.documents (λ r v. v) h in
          elim (Bool-cases (bucket.delete_raises row.s3_key)) [
            | inl z ↦ rw (x, delete, y, z, transact) kept
            | inr z ↦ rw (x, delete, y, z, transact) kept
          ]
    ]
  ]

-- If every document is so, then after any sequence of uploads, deletions and daily checks, whether they
-- succeed or fail and whatever the bucket answers, every document, deleted or not, has a valid type, at
-- most 20 MB, a key in its user's folder, and a content type that is allowed or not known.
pub serve_all-Vetted :
    (text : ℕ → String) (rs : List DocumentStep) (d : DocumentDb)
    → All (Vetted text) d.documents
    → All (Vetted text) (serve_all text rs d).documents
serve_all-Vetted text [] d h = h
serve_all-Vetted text (uploads bucket user key doc_type title expires ∷ rs) d h =
    serve_all-Vetted text rs _
      (confirm_upload-Vetted text bucket user key doc_type title expires d h)
serve_all-Vetted text (deletes bucket user id ∷ rs) d h =
    serve_all-Vetted text rs _ (delete-Vetted text bucket user id d h)
serve_all-Vetted text (checks today ∷ rs) d h = serve_all-Vetted text rs (check today d) h
