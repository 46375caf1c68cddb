-- ===== src/Users/Documents/Reminded.antt =====
-- One reminder for each document and bucket.
use Prim.Native.String.{String}
use text.Mathlib.Text.{starts_with}
use raycarwash_project.Base.{
  ℕ, ◌+◌, ◌-◌, ◌≤◌, ◌≡◌, refl, inl, inr, true, Option, some, List, [], ◌∷◌, arith, ltb, leb,
  Bool-cases, Option-cases, select_where,
}
use raycarwash_project.Store.{Error, Result-cases}
use raycarwash_project.Users.Defaults.Counts.{IsIn, count-append, IsIn-select, any-count}
use raycarwash_project.Users.Documents.{
  Document, DocumentDb, Bucket, ObjectMeta, confirm_upload, delete, inspect, refuse, new_document,
  is_one_of, valid_document_types, is_forbidden_type, max_document_size, folder, require_provider,
  get_or_404,
}
use raycarwash_project.Users.Documents.Expiry.{
  bucket_for, bucket_of, is_reminder, has_already_notified, is_candidate, reminders, check,
}
use raycarwash_project.Users.Documents.Requests.{
  DocumentStep, uploads, deletes, checks, transact, serve_all,
}
use raycarwash_project.Users.Documents.Reminders.{
  sent, Keyed, AtMostOne, Kept, insert-Keyed, insert-AtMostOne, soft_deleted-Kept, check-Kept,
  reminders-present,
}

refuse-Kept :
    (bucket : Bucket) (key : String) (e : Error) (d : DocumentDb)
    → Kept d
    → Kept (transact (refuse bucket key e d) d)
refuse-Kept bucket key e d h = elim (Bool-cases (bucket.delete_raises key)) [
  | inl x ↦ rw (x, refuse, transact) h
  | inr x ↦ rw (x, refuse, transact) h
]

inspect-Kept :
    (bucket : Bucket) (user : ℕ) (key doc_type : String) (title : Option String)
    (expires : Option ℕ) (meta : ObjectMeta) (d : DocumentDb)
    → Kept d
    → Kept (transact (inspect bucket user key doc_type title expires meta d) d)
inspect-Kept bucket user key doc_type title expires meta d h =
    elim (Bool-cases (is_forbidden_type meta.content_type)) [
      | inl x ↦ rw (x, inspect) (refuse-Kept bucket key _ d h)
      | inr x ↦ elim (Bool-cases (ltb max_document_size meta.size)) [
        | inl y ↦ rw (x, inspect, y) (refuse-Kept bucket key _ d h)
        | inr y ↦
            let row = new_document d.next_id user key doc_type title expires meta in
            rw (x, inspect, y, transact)
              (insert-Keyed row user d refl h.0, insert-AtMostOne row user d h.1)
      ]
    ]

confirm_upload-Kept :
    (text : ℕ → String) (bucket : Bucket) (user : ℕ) (key doc_type : String) (title : Option String)
    (expires : Option ℕ) (d : DocumentDb)
    → Kept d
    → Kept (transact (confirm_upload text bucket user key doc_type title expires d) d)
unfolding confirm_upload
confirm_upload-Kept text bucket user key doc_type title expires d h =
    elim (Result-cases (require_provider user d)) [
      | inr (e, x) ↦ rw (x, confirm_upload, transact) h
      | inl (u, x) ↦ elim (Bool-cases (is_one_of doc_type valid_document_types)) [
        | inr y ↦ rw (x, confirm_upload, y, transact) h
        | inl y ↦ elim (Bool-cases (starts_with key (folder text user))) [
          | inr z ↦ rw (x, confirm_upload, y, z, transact) h
          | inl z ↦ elim (Option-cases (bucket.head key)) [
            | inl n ↦ rw (x, confirm_upload, y, z, n, transact) h
            | inr (meta, m) ↦
                rw (x, confirm_upload, y, z, m)
                  (inspect-Kept bucket user key doc_type title expires meta d h)
          ]
        ]
      ]
    ]

delete-Kept :
    (bucket : Bucket) (user id : ℕ) (d : DocumentDb)
    → Kept d
    → Kept (transact (delete bucket user id d) d)
unfolding delete
delete-Kept bucket user id d h = elim (Result-cases (require_provider user d)) [
  | inr (e, x) ↦ rw (x, delete, transact) h
  | inl (u, x) ↦ elim (Result-cases (get_or_404 user id d)) [
    | inr (e, y) ↦ rw (x, delete, y, transact) h
    | inl (row, y) ↦
        let kept = soft_deleted-Kept row user d h in
        elim (Bool-cases (bucket.delete_raises row.s3_key)) [
          | inl z ↦ rw (x, delete, y, z, transact) kept
          | inr z ↦ rw (x, delete, y, z, transact) kept
        ]
  ]
]

serve_all-Kept :
    (text : ℕ → String) (rs : List DocumentStep) (d : DocumentDb)
    → Kept d
    → Kept (serve_all text rs d)
serve_all-Kept text [] d h = h
serve_all-Kept text (uploads bucket user key doc_type title expires ∷ rs) d h =
    serve_all-Kept text rs _ (confirm_upload-Kept text bucket user key doc_type title expires d h)
serve_all-Kept text (deletes bucket user id ∷ rs) d h =
    serve_all-Kept text rs _ (delete-Kept bucket user id d h)
serve_all-Kept text (checks today ∷ rs) d h = serve_all-Kept text rs _ (check-Kept today d h)

-- A day within thirty days has a bucket.
bucket_for-some :
    (today day : ℕ) → leb day (today + 30) ≡ true → (b : ℕ) × (bucket_for today day ≡ some b)
unfolding bucket_for
bucket_for-some today day near = elim (Bool-cases (ltb day today)) [
  | inl past ↦ (1, rw (past, bucket_for) refl)
  | inr due ↦ elim (Bool-cases (leb (day - today) 1)) [
    | inl e ↦ (1, rw (due, bucket_for, e) refl)
    | inr e ↦ elim (Bool-cases (leb (day - today) 7)) [
      | inl f ↦ (7, rw (due, bucket_for, e, f) refl)
      | inr f ↦ elim (Bool-cases (leb (day - today) 14)) [
        | inl g ↦ (14, rw (due, bucket_for, e, f, g) refl)
        | inr g ↦
            let last : leb (day - today) 30 ≡ true = ground (arith, near) in
            (30, rw (due, bucket_for, e, f, g, last) refl)
      ]
    ]
  ]
]

candidate-bucket :
    (today : ℕ) (doc : Document)
    → is_candidate today doc ≡ true
    → (b : ℕ) × (bucket_of today doc ≡ some b)
candidate-bucket today doc h = elim (Option-cases doc.expires_at) [
  | inl n ↦ absurd (ground (arith, rw n at h))
  | inr (day, e) ↦
      let near : leb day (today + 30) ≡ true = ground (arith, rw e at h) in
      let (b, is) = bucket_for-some today day near in (b, rw e is)
]

-- Where keys are distinct and below the counter and no document has two reminders of a bucket: when the
-- daily check has run, after any sequence of uploads, deletions and checks, each document that is not
-- deleted and expires within thirty days, or has expired, has exactly one reminder of its bucket.
pub check-serve_all :
    (text : ℕ → String) (rs : List DocumentStep) (today : ℕ) (d : DocumentDb) (doc : Document)
    → Keyed d
    → AtMostOne d
    → IsIn doc (serve_all text rs d).documents
    → is_candidate today doc ≡ true
    → (b : ℕ) × ((bucket_of today doc ≡ some b)
        × (sent doc.id b (check today (serve_all text rs d)).audit ≡ 1))
check-serve_all text rs today d doc keys once at due =
    let s = serve_all text rs d in
    let kept : Kept s = serve_all-Kept text rs d (keys, once) in
    let (b, is) = candidate-bucket today doc due in
    let now = select_where (is_candidate today) s.documents in
    let le : sent doc.id b (check today s).audit ≤ 1 = (check-Kept today s kept).1 doc.id b in
    let sum = count-append (is_reminder doc.id b) s.audit (reminders today s.audit now) in
    (
      b,
      (
        is,
        elim (Bool-cases (has_already_notified doc.id b s.audit)) [
          | inl old ↦ omega (arith, le, sum, any-count (is_reminder doc.id b) s.audit old)
          | inr new ↦ omega (
            arith,
            le,
            sum,
            reminders-present today b s.audit now doc
                (IsIn-select (is_candidate today) s.documents doc at due) is new,
          )
        ],
      ),
    )
