-- ===== src/Users/Documents/Requests.antt =====
-- Requests about documents and runs of the daily check, in sequences.
use Prim.Native.String.{String}
use raycarwash_project.Base.{ℕ, Option, List, [], ◌∷◌}
use raycarwash_project.Store.{Result, ok, err}
use raycarwash_project.Users.Documents.{DocumentDb, Bucket, confirm_upload, delete}
use raycarwash_project.Users.Documents.Expiry.{check}

pub data DocumentStep : Type 0 where
  uploads :
      Bucket
      → (user : ℕ) → (key doc_type : String) → Option String
      → (expires : Option ℕ) → DocumentStep
  deletes : Bucket → (user id : ℕ) → DocumentStep
  checks : (today : ℕ) → DocumentStep

-- get_db around a request: what has been deleted in the bucket stays deleted
abbrev pub transact : {A : Type 0} → Result A × DocumentDb → DocumentDb → DocumentDb
transact (ok a, after) before = after
transact (err e, after) before = record before { dropped = after.dropped }

module _ (text : ℕ → String) where
  abbrev pub serve : DocumentStep → DocumentDb → DocumentDb
  serve (uploads bucket user key doc_type title expires) d =
      transact (confirm_upload text bucket user key doc_type title expires d) d
  serve (deletes bucket user id) d = transact (delete bucket user id d) d
  serve (checks today) d = check today d

  abbrev pub serve_all : List DocumentStep → DocumentDb → DocumentDb
  serve_all [] d = d
  serve_all (a ∷ rest) d = serve_all rest (serve a d)
