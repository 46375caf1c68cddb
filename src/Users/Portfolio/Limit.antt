-- ===== src/Users/Portfolio/Limit.antt =====
-- No provider has more photos than the limit.
use Prim.Native.String.{String}
use text.Mathlib.Text.{starts_with}
use raycarwash_project.Base.{
  ℕ, ◌+◌, ◌≤◌, ◌≡◌, refl, subst, inl, inr, false, not, Option, List, [], ◌∷◌, ◌++◌, arith, ◌==◌,
  ltb, leb, Bool-cases, Option-cases, count_where, find_where,
}
use raycarwash_project.Store.{Error, Result, ok, err, Result-cases}
use raycarwash_project.Users.Defaults.Counts.{count-append_one, count-select-le, one_if, one_if-le}
use raycarwash_project.Users.Documents.{Bucket, ObjectMeta}
use raycarwash_project.Users.Portfolio.{
  PortfolioPhoto, PortfolioDb, max_photos, max_photo_size, require_portfolio, of_provider,
  photo_count, refuse, new_photo, is_no_image, inspect_photo, portfolio_folder, confirm_upload,
  owned_photo, without_photo, delete,
}

pub data PortfolioRequest : Type 0 where
  uploads : Bucket → (user : ℕ) → (key : String) → (caption tag : Option String) → PortfolioRequest
  deletes : Bucket → (user id : ℕ) → PortfolioRequest

-- get_db around a request: what has been deleted in the bucket stays deleted
abbrev pub transact : {A : Type 0} → Result A × PortfolioDb → PortfolioDb → PortfolioDb
transact (ok a, after) before = after
transact (err e, after) before = record before { dropped = after.dropped }

module _ (text : ℕ → String) where
  abbrev pub serve : PortfolioRequest → PortfolioDb → PortfolioDb
  serve (uploads bucket user key caption tag) d =
      transact (confirm_upload text bucket user key caption tag d) d
  serve (deletes bucket user id) d = transact (delete bucket user id d) d

  abbrev pub serve_all : List PortfolioRequest → PortfolioDb → PortfolioDb
  serve_all [] d = d
  serve_all (r ∷ rs) d = serve_all rs (serve r d)

abbrev pub WithinLimit : PortfolioDb → Type 0
WithinLimit d = (user : ℕ) → photo_count user d ≤ max_photos

refuse-WithinLimit :
    (bucket : Bucket) (key : String) (e : Error) (d : PortfolioDb)
    → WithinLimit d
    → WithinLimit (transact (refuse bucket key e d) d)
refuse-WithinLimit bucket key e d h = elim (Bool-cases (bucket.delete_raises key)) [
  | inl x ↦ rw (x, refuse, transact) h
  | inr x ↦ rw (x, refuse, transact) h
]

inspect_photo-WithinLimit :
    (bucket : Bucket) (user : ℕ) (key : String) (caption tag : Option String) (meta : ObjectMeta)
    (d : PortfolioDb)
    → WithinLimit d
    → WithinLimit (transact (inspect_photo bucket user key caption tag meta d) d)
inspect_photo-WithinLimit bucket user key caption tag meta d h =
    elim (Bool-cases (is_no_image meta.content_type)) [
      | inl x ↦ rw (x, inspect_photo) (refuse-WithinLimit bucket key _ d h)
      | inr x ↦ elim (Bool-cases (ltb max_photo_size meta.size)) [
        | inl y ↦ rw (x, inspect_photo, y) (refuse-WithinLimit bucket key _ d h)
        | inr y ↦ elim (Bool-cases (leb max_photos (photo_count user d))) [
          | inl z ↦ rw (x, inspect_photo, y, z) (refuse-WithinLimit bucket key _ d h)
          | inr z ↦ rw (x, inspect_photo, y, z, transact) (λ u. more u z)
        ]
      ]
    ]
  where
    row : PortfolioPhoto
    row = new_photo d.next_id user key caption tag (photo_count user d)

    more :
        (u : ℕ)
        → leb max_photos (photo_count user d) ≡ false
        → count_where (of_provider u) (d.photos ++ row ∷ []) ≤ max_photos
    more u z =
        let sum = count-append_one (of_provider u) d.photos row in
        elim (Bool-cases (user == u)) [
          | inl e ↦
              let same : user ≡ u = ground (arith, e) in
              let room : photo_count user d + 1 ≤ max_photos = ground (arith, z) in
              let room' : photo_count u d + 1 ≤ max_photos =
                subst (λ i. photo_count i d + 1 ≤ max_photos) same room in
              omega (arith, sum, one_if-le (user == u), room')
          | inr e ↦
              let no_more : one_if (user == u) ≡ 0 = rw e refl in omega (arith, sum, no_more, h u)
        ]

confirm_upload-WithinLimit :
    (text : ℕ → String) (bucket : Bucket) (user : ℕ) (key : String) (caption tag : Option String)
    (d : PortfolioDb)
    → WithinLimit d
    → WithinLimit (transact (confirm_upload text bucket user key caption tag d) d)
unfolding confirm_upload
confirm_upload-WithinLimit text bucket user key caption tag d h =
    elim (Result-cases (require_portfolio user d)) [
      | inr (e, x) ↦ rw (x, confirm_upload, transact) h
      | inl (u, x) ↦ elim (Bool-cases (starts_with key (portfolio_folder text user))) [
        | inr y ↦ rw (x, confirm_upload, y, transact) h
        | inl y ↦ elim (Option-cases (bucket.head key)) [
          | inl n ↦ rw (x, confirm_upload, y, n, transact) h
          | inr (meta, m) ↦
              rw (x, confirm_upload, y, m)
                (inspect_photo-WithinLimit bucket user key caption tag meta d h)
        ]
      ]
    ]

delete-WithinLimit :
    (bucket : Bucket) (user id : ℕ) (d : PortfolioDb)
    → WithinLimit d
    → WithinLimit (transact (delete bucket user id d) d)
unfolding delete
delete-WithinLimit bucket user id d h = elim (Result-cases (require_portfolio user d)) [
  | inr (e, x) ↦ rw (x, delete, transact) h
  | inl (u, x) ↦ elim (Option-cases (find_where (owned_photo user id) d.photos)) [
    | inl n ↦ rw (x, delete, n, transact) h
    | inr (row, m) ↦
        let fewer : WithinLimit (without_photo row.id d) = λ v.
          omega
            (arith, count-select-le (of_provider v) (λ p. not (p.id == row.id)) d.photos, h v) in
        elim (Bool-cases (bucket.delete_raises row.s3_key)) [
          | inl z ↦ rw (x, delete, m, z, transact) fewer
          | inr z ↦ rw (x, delete, m, z, transact) fewer
        ]
  ]
]

-- If no provider has more than thirty photos, none has after any sequence of uploads and deletions, one
-- after the other, whether they succeed or fail and whatever the bucket answers.
pub serve_all-WithinLimit :
    (text : ℕ → String) (rs : List PortfolioRequest) (d : PortfolioDb)
    → WithinLimit d
    → WithinLimit (serve_all text rs d)
serve_all-WithinLimit text [] d h = h
serve_all-WithinLimit text (uploads bucket user key caption tag ∷ rs) d h =
    serve_all-WithinLimit text rs _
      (confirm_upload-WithinLimit text bucket user key caption tag d h)
serve_all-WithinLimit text (deletes bucket user id ∷ rs) d h =
    serve_all-WithinLimit text rs _ (delete-WithinLimit bucket user id d h)
