-- ===== src/Users/Documents/Reminders.antt =====
-- Which reminders are sent.
use raycarwash_project.Base.{
  ℕ, suc, ◌<◌, ◌≤◌, ◌≡◌, refl, sym, subst, inl, inr, true, false, ◌&&◌, some, List, [], ◌∷◌, arith,
  ◌==◌, Bool-cases, Option-cases, All, All-append_one, All-update_where, count_where, select_where,
  update_where,
}
use raycarwash_project.Users.Defaults.Counts.{
  IsIn, count-append, count-append_one, count-select-le, any-none, one_if, one_if-le,
}
use raycarwash_project.Users.Documents.{
  Document, DocumentAudit, document_uploaded, document_deleted, DocumentDb, insert_document,
  soft_deleted,
}
use raycarwash_project.Users.Documents.Expiry.{
  bucket_of, is_reminder, has_already_notified, is_candidate, reminders, check,
}

abbrev pub sent : ℕ → ℕ → List DocumentAudit → ℕ
sent document bucket audit = count_where (is_reminder document bucket) audit

-- the rows with a key
abbrev keyed : ℕ → List Document → ℕ
keyed id rows = count_where (λ r. r.id == id) rows

-- A run sends no reminder that the log has.
reminders-fresh :
    (today i b : ℕ) (seen : List DocumentAudit) (docs : List Document)
    → has_already_notified i b seen ≡ true
    → sent i b (reminders today seen docs) ≡ 0
unfolding reminders
reminders-fresh today i b seen [] h = refl
reminders-fresh today i b seen (doc ∷ rest) h = elim (Option-cases (bucket_of today doc)) [
  | inl n ↦ rw (n, reminders) (reminders-fresh today i b seen rest h)
  | inr (c, e) ↦ elim (Bool-cases (has_already_notified doc.id c seen)) [
    | inl old ↦ rw (e, reminders, old) (reminders-fresh today i b seen rest h)
    | inr new ↦ elim (Bool-cases (doc.id == i && c == b)) [
      | inl same ↦
          let i_is : doc.id ≡ i = ground (arith, same) in
          let b_is : c ≡ b = ground (arith, same) in
          absurd (ground (arith, h, rw (i_is, b_is) at new))
      | inr other ↦ rw (e, reminders, new, other) (reminders-fresh today i b seen rest h)
    ]
  ]
]

-- A run sends at most one for each row with the key.
reminders-le :
    (today i b : ℕ) (seen : List DocumentAudit) (docs : List Document)
    → sent i b (reminders today seen docs) ≤ keyed i docs
unfolding reminders
reminders-le today i b seen [] = omega arith
reminders-le today i b seen (doc ∷ rest) =
    let less = reminders-le today i b seen rest in
    elim (Option-cases (bucket_of today doc)) [
      | inl n ↦ rw (n, reminders) (ground (arith, less))
      | inr (c, e) ↦ elim (Bool-cases (has_already_notified doc.id c seen)) [
        | inl old ↦ rw (e, reminders, old) (ground (arith, less))
        | inr new ↦ elim (Bool-cases (doc.id == i)) [
          | inl same ↦ rw (e, reminders, new, same) (ground (arith, less))
          | inr other ↦ rw (e, reminders, new, other) (ground (arith, less))
        ]
      ]
    ]

-- A run sends the reminder of a document's bucket.
pub reminders-present :
    (today b : ℕ) (seen : List DocumentAudit) (docs : List Document) (doc : Document)
    → IsIn doc docs
    → bucket_of today doc ≡ some b
    → has_already_notified doc.id b seen ≡ false
    → 1 ≤ sent doc.id b (reminders today seen docs)
unfolding reminders
reminders-present today b seen [] doc at e h = absurd at
reminders-present today b seen (x ∷ xs) doc (inl same) e h =
    let e' : bucket_of today x ≡ some b = subst (λ z. bucket_of today z ≡ some b) same e in
    let h' : has_already_notified x.id b seen ≡ false =
      subst (λ z. has_already_notified z.id b seen ≡ false) same h in
    subst (λ z. 1 ≤ sent z.id b (reminders today seen (x ∷ xs))) (sym same)
      (rw (e', reminders, h') (ground arith))
reminders-present today b seen (x ∷ xs) doc (inr at) e h =
    let rest = reminders-present today b seen xs doc at e h in
    elim (Option-cases (bucket_of today x)) [
      | inl n ↦ rw (n, reminders) rest
      | inr (c, f) ↦ elim (Bool-cases (has_already_notified x.id c seen)) [
        | inl old ↦ rw (f, reminders, old) rest
        | inr new ↦ rw (f, reminders, new) (ground (arith, rest))
      ]
    ]

-- Keys are distinct and below the counter.
abbrev pub Keyed : DocumentDb → Type 0
Keyed d = All (λ r. r.id < d.next_id) d.documents × ((i : ℕ) → keyed i d.documents ≤ 1)

-- No document has two reminders of a bucket.
abbrev pub AtMostOne : DocumentDb → Type 0
AtMostOne d = (i b : ℕ) → sent i b d.audit ≤ 1

keyed-below : (n : ℕ) (rows : List Document) → All (λ r. r.id < n) rows → keyed n rows ≡ 0
keyed-below n [] h = refl
keyed-below n (x ∷ xs) (low, rest) =
    let other : (x.id == n) ≡ false = ground (arith, low) in rw other (keyed-below n xs rest)

below-suc : (n : ℕ) (rows : List Document) → All (λ r. r.id < n) rows → All (λ r. r.id < suc n) rows
below-suc n [] h = tt
below-suc n (x ∷ xs) (low, rest) = (omega (arith, low), below-suc n xs rest)

pub insert-Keyed :
    (row : Document) (user : ℕ) (d : DocumentDb)
    → row.id ≡ d.next_id
    → Keyed d
    → Keyed (insert_document row user d)
insert-Keyed row user d same (below, one) = (
  All-append_one (λ r. r.id < suc d.next_id) d.documents row (below-suc d.next_id d.documents below)
      (omega (arith, same)),
  λ i. elim (Bool-cases (row.id == i)) [
    | inl e ↦
        let i_is : d.next_id ≡ i = ground (arith, same, e) in
        let none_yet : keyed i d.documents ≡ 0 =
          subst (λ k. keyed k d.documents ≡ 0) i_is (keyed-below d.next_id d.documents below) in
        omega (
          arith,
          count-append_one (λ r. r.id == i) d.documents row,
          none_yet,
          one_if-le (row.id == i),
        )
    | inr e ↦
        let zero_more : one_if (row.id == i) ≡ 0 = rw e refl in
        omega (arith, count-append_one (λ r. r.id == i) d.documents row, zero_more, one i)
  ],
)

pub insert-AtMostOne :
    (row : Document) (user : ℕ) (d : DocumentDb)
    → AtMostOne d
    → AtMostOne (insert_document row user d)
insert-AtMostOne row user d h i b =
    omega (arith, count-append_one (is_reminder i b) d.audit (document_uploaded row.id user), h i b)

keyed-soft_deleted :
    (i id : ℕ) (rows : List Document)
    → keyed i (update_where (λ r. r.id == id) (λ r. record r { is_deleted = true }) rows)
      ≡ keyed i rows
keyed-soft_deleted i id [] = refl
keyed-soft_deleted i id (x ∷ xs) = elim (Bool-cases (x.id == id)) [
  | inl e ↦ rw (e, keyed-soft_deleted i id xs) refl
  | inr e ↦ rw (e, keyed-soft_deleted i id xs) refl
]

abbrev pub Kept : DocumentDb → Type 0
Kept d = Keyed d × AtMostOne d

pub soft_deleted-Kept :
    (row : Document) (user : ℕ) (d : DocumentDb) → Kept d → Kept (soft_deleted user row d)
soft_deleted-Kept row user d ((below, one), h) = (
  (
    All-update_where (λ r. r.id < d.next_id) (λ r. r.id == row.id)
        (λ r. record r { is_deleted = true }) d.documents (λ r v. v) below,
    λ i. rw (keyed-soft_deleted i row.id d.documents) (one i),
  ),
  λ i b.
      omega
        (arith, count-append_one (is_reminder i b) d.audit (document_deleted row.id user), h i b),
)

pub check-Kept : (today : ℕ) (d : DocumentDb) → Kept d → Kept (check today d)
check-Kept today d (keys, h) = (
  keys,
  λ i b.
      let now = select_where (is_candidate today) d.documents in
      let sum = count-append (is_reminder i b) d.audit (reminders today d.audit now) in
      elim (Bool-cases (has_already_notified i b d.audit)) [
        | inl old ↦ omega (arith, sum, reminders-fresh today i b d.audit now old, h i b)
        | inr new ↦ omega (
          arith,
          sum,
          any-none (is_reminder i b) d.audit new,
          reminders-le today i b d.audit now,
          count-select-le (λ r. r.id == i) (is_candidate today) d.documents,
          keys.1 i,
        )
      ],
)
