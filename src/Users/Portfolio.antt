-- ===== src/Users/Portfolio.antt =====
-- The photos of a provider: ProviderPortfolioService of
-- backend/domains/users/provider_portfolio_service.py. The text of a user's key and the answers of the
-- public bucket are arguments (Users/Documents). Listing and the links are not modelled.
mod Limit
mod Tests
use Prim.Native.String.{String, ◌++◌ as str_append}
use text.Mathlib.Text.{◌==◌ as str_eq, starts_with}
use raycarwash_project.Base.{
  ℕ, suc, ◌*◌, Bool, true, false, not, ◌&&◌, ◌||◌, Option, none, some, List, [], ◌∷◌, ◌++◌, ◌==◌,
  ltb, leb, if◌then◌else◌, count_where, find_where, select_where,
}
use raycarwash_project.Store.{Error, http, Result, ok, err}
use raycarwash_project.Rides.{scalar_one_or_none}
use raycarwash_project.Payments.Intents.{truthy}
use raycarwash_project.Providers.Verification.{ProviderProfile, of_user}
use raycarwash_project.Users.Documents.{Bucket, ObjectMeta, is_one_of}

pub record PortfolioPhoto : Type 0 where
  pub id : ℕ
  pub provider_user_id : ℕ
  pub s3_key : String
  pub caption : Option String
  pub tag : Option String
  pub sort_order : ℕ

pub record PortfolioDb : Type 0 where
  pub next_id : ℕ
  pub profiles : List ProviderProfile
  pub photos : List PortfolioPhoto
  pub dropped : List String

-- MAX_PORTFOLIO_PHOTOS_PER_PROVIDER
abbrev pub max_photos : ℕ
max_photos = 30

-- MAX_PORTFOLIO_PHOTO_SIZE_BYTES
abbrev pub max_photo_size : ℕ
max_photo_size = 8 * (1024 * 1024)

-- ALLOWED_PORTFOLIO_MIME_TYPES
abbrev pub allowed_image_types : List String
allowed_image_types = "image/jpeg" ∷ "image/png" ∷ "image/webp" ∷ []

-- _MIME_TO_EXT, or "bin"
abbrev pub image_extension : String → String
image_extension mime =
    if str_eq mime "image/jpeg"
    then "jpg"
    else if str_eq mime "image/png"
    then "png"
    else if str_eq mime "image/webp"
    then "webp"
    else "bin"

-- _require_provider
abbrev pub require_portfolio : ℕ → PortfolioDb → Result (Unit {0})
require_portfolio user d = elim (scalar_one_or_none (of_user user) d.profiles) [
  | err e ↦ err e
  | ok none ↦ err (http 409)
  | ok (some _) ↦ ok tt
]

abbrev pub of_provider : ℕ → PortfolioPhoto → Bool
of_provider user p = p.provider_user_id == user

abbrev pub photo_count : ℕ → PortfolioDb → ℕ
photo_count user d = count_where (of_provider user) d.photos

abbrev pub drop_object : String → PortfolioDb → PortfolioDb
drop_object key d = record d { dropped = d.dropped ++ (key ∷ []) }

-- delete_object before an answer
abbrev pub refuse : Bucket → String → Error → PortfolioDb → Result PortfolioPhoto × PortfolioDb
refuse bucket key e d =
    if bucket.delete_raises key then (err (http 500), d) else (err e, drop_object key d)

abbrev pub new_photo : ℕ → ℕ → String → Option String → Option String → ℕ → PortfolioPhoto
new_photo id user key caption tag order = record {
  id = id;
  provider_user_id = user;
  s3_key = key;
  caption = caption;
  tag = tag;
  sort_order = order;
}

-- `content_type and content_type not in ALLOWED_PORTFOLIO_MIME_TYPES`
abbrev pub is_no_image : Option String → Bool
is_no_image content_type = elim (truthy content_type) [
  | none ↦ false
  | some mime ↦ not (is_one_of mime allowed_image_types)
]

-- what confirm_upload does with the object that it found
abbrev pub inspect_photo :
    Bucket
    → ℕ
    → String
    → Option String
    → Option String
    → ObjectMeta
    → PortfolioDb
    → Result PortfolioPhoto × PortfolioDb
inspect_photo bucket user key caption tag meta d =
    let row = new_photo d.next_id user key caption tag (photo_count user d) in
    if is_no_image meta.content_type
    then refuse bucket key (http 422) d
    else if ltb max_photo_size meta.size
    then refuse bucket key (http 413) d
    else if leb max_photos (photo_count user d)
    then refuse bucket key (http 409) d
    else (ok row, record d { next_id = suc d.next_id; photos = d.photos ++ (row ∷ []) })

-- `text` is the str of a user's key
module _ (text : ℕ → String) where
  -- `provider_portfolio/{user.id}/`
  abbrev pub portfolio_folder : ℕ → String
  portfolio_folder user = str_append "provider_portfolio/" (str_append (text user) "/")

  -- the key of prepare_upload's answer
  unfoldable pub prepare_upload : ℕ → String → ℕ → String → PortfolioDb → Result String
  prepare_upload user mime size token d = elim (require_portfolio user d) [
    | err e ↦ err e
    | ok _ ↦
        if not (is_one_of mime allowed_image_types)
        then err (http 422)
        else if size == 0 || ltb max_photo_size size
        then err (http 422)
        else if leb max_photos (photo_count user d)
        then err (http 409)
        else ok (
            str_append (portfolio_folder user)
              (str_append token (str_append "." (image_extension mime))))
  ]

  unfoldable pub confirm_upload :
      Bucket
      → ℕ
      → String
      → Option String
      → Option String
      → PortfolioDb
      → Result PortfolioPhoto × PortfolioDb
  confirm_upload bucket user key caption tag d = elim (require_portfolio user d) [
    | err e ↦ (err e, d)
    | ok _ ↦
        if not (starts_with key (portfolio_folder user))
        then (err (http 403), d)
        else elim (bucket.head key) [
          | none ↦ (err (http 404), d)
          | some meta ↦ inspect_photo bucket user key caption tag meta d
        ]
  ]

abbrev pub owned_photo : ℕ → ℕ → PortfolioPhoto → Bool
owned_photo user id p = p.id == id && p.provider_user_id == user

abbrev pub without_photo : ℕ → PortfolioDb → PortfolioDb
without_photo id d = record d { photos = select_where (λ p. not (p.id == id)) d.photos }

-- A bucket that raises is only logged.
unfoldable pub delete : Bucket → ℕ → ℕ → PortfolioDb → Result (Unit {0}) × PortfolioDb
delete bucket user id d = elim (require_portfolio user d) [
  | err e ↦ (err e, d)
  | ok _ ↦ elim (find_where (owned_photo user id) d.photos) [
    | none ↦ (err (http 404), d)
    | some row ↦
        if bucket.delete_raises row.s3_key
        then (ok tt, without_photo row.id d)
        else (ok tt, drop_object row.s3_key (without_photo row.id d))
  ]
]
