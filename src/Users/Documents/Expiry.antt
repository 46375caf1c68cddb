-- ===== src/Users/Documents/Expiry.antt =====
-- The daily reminder of documents that expire: backend/workers/document_expiry_checker.py. A day is a
-- number. The session does not flush by itself, so a run sees the rows that were there at its start.
use raycarwash_project.Base.{
  ℕ, ◌+◌, ◌-◌, Bool, false, not, ◌&&◌, Option, none, some, List, [], ◌∷◌, ◌++◌, ◌==◌, ltb, leb,
  if◌then◌else◌, any, find_where, select_where,
}
use raycarwash_project.Users.Documents.{Document, DocumentAudit, reminder, DocumentDb}

-- sorted(_THRESHOLD_DAYS)
abbrev pub thresholds : List ℕ
thresholds = 1 ∷ 7 ∷ 14 ∷ 30 ∷ []

-- _bucket_for_days_remaining, for a document that expires at a day
unfoldable pub bucket_for : ℕ → ℕ → Option ℕ
bucket_for today expires =
    if ltb expires today then some 1 else find_where (λ t. leb (expires - today) t) thresholds

abbrev pub is_reminder : ℕ → ℕ → DocumentAudit → Bool
is_reminder document bucket (reminder d b) = d == document && b == bucket
is_reminder document bucket _ = false

-- _has_already_notified
abbrev pub has_already_notified : ℕ → ℕ → List DocumentAudit → Bool
has_already_notified document bucket audit = any (is_reminder document bucket) audit

abbrev pub is_candidate : ℕ → Document → Bool
is_candidate today doc = elim doc.expires_at [
  | none ↦ false
  | some day ↦ not doc.is_deleted && leb day (today + 30)
]

-- the bucket that a document is in
abbrev pub bucket_of : ℕ → Document → Option ℕ
bucket_of today doc = elim doc.expires_at [ none ↦ none | some day ↦ bucket_for today day ]

-- the rows that the loop adds, when the log was `seen` at its start
unfoldable pub reminders : ℕ → List DocumentAudit → List Document → List DocumentAudit
reminders today seen [] = []
reminders today seen (doc ∷ rest) =
    let later = reminders today seen rest in
    elim (bucket_of today doc) [
      | none ↦ later
      | some bucket ↦
          if has_already_notified doc.id bucket seen then later else reminder doc.id bucket ∷ later
    ]

-- _check_with_session in its transaction
abbrev pub check : ℕ → DocumentDb → DocumentDb
check today d = record d {
  audit = d.audit ++ reminders today d.audit (select_where (is_candidate today) d.documents);
}
