-- ===== src/Users/ContactChange/RoundTrip.antt =====
-- From the request for a new address to the address.
use raycarwash_project.Base.{
  ℕ, ◌+◌, ◌≤◌, ◌≡◌, refl, inl, inr, Bool, true, false, not, ◌&&◌, some, List, [], ◌∷◌, ◌++◌, arith,
  map, ◌==◌, ltb, Bool-cases, All, All-map, any, find_where, select_where, update_where, same_codes,
  eq_test_false,
}
use raycarwash_project.Catalog.{lower_code, strip}
use raycarwash_project.Store.{Result, ok}
use raycarwash_project.Users.ContactChange.{
  PendingContactChange, ContactUser, ContactDb, email, email_token_ttl, open_change, purge_existing,
  new_change, for_token, request_email_change, confirm_row, confirm_email_change, next_version,
}

abbrev pub normalized : List ℕ → List ℕ
normalized address = map lower_code (strip address)

-- another user's address
abbrev pub is_taken : ContactUser → List ℕ → ContactDb → Bool
is_taken user address d =
    any (λ u. not (u.id == user.id) && same_codes u.email_address address) d.users

find_where-last :
    (p : PendingContactChange → Bool) (rows : List PendingContactChange) (r : PendingContactChange)
    → All (λ x. p x ≡ false) rows
    → p r ≡ true
    → find_where p (rows ++ r ∷ []) ≡ some r
find_where-last p [] r h e = rw e refl
find_where-last p (x ∷ rows) r h e = rw (h.0) (find_where-last p rows r h.1 e)

select_where-All :
    (P : PendingContactChange → Type 0) (p : PendingContactChange → Bool)
    (rows : List PendingContactChange)
    → All P rows
    → All P (select_where p rows)
select_where-All P p [] h = tt
select_where-All P p (x ∷ rows) h = elim (Bool-cases (p x)) [
  | inl e ↦ rw e (h.0, select_where-All P p rows h.1)
  | inr e ↦ rw e (select_where-All P p rows h.1)
]

has_address :
    (id : ℕ) (address : List ℕ) (us : List ContactUser)
    → All
        (λ u. (u.id == id) ≡ true → u.email_address ≡ address)
        (update_where
          (λ u. u.id == id)
          (λ u. record u {
            email_address = address;
            is_verified = true;
            token_version = next_version u.token_version;
          })
          us)
has_address id address [] = tt
has_address id address (u ∷ us) = elim (Bool-cases (u.id == id)) [
  | inl e ↦ rw e ((λ _. refl), has_address id address us)
  | inr e ↦ rw e ((λ k. absurd (ground (arith, e, k))), has_address id address us)
]

-- The answer is the user, and the user has the address.
abbrev pub Switched : ContactUser → List ℕ → Result ℕ × ContactDb → Type 0
Switched user address r =
    (r.0 ≡ ok user.id) × All (λ u. (u.id == user.id) ≡ true → u.email_address ≡ address) r.1.users

module _ (sha256 : ℕ → ℕ) where
  confirm_row-Switched :
      (id hash now later : ℕ) (user : ContactUser) (address : List ℕ) (d : ContactDb)
      → later ≤ now + email_token_ttl
      → any (λ u. u.id == user.id && not u.is_deleted) d.users ≡ true
      → is_taken user address d ≡ false
      → Switched user address (
          confirm_row sha256 later
            (some (new_change id user.id email address hash now email_token_ttl))
            d)
  confirm_row-Switched id hash now later user address d timely present free =
      let in_time : ltb (now + email_token_ttl) later ≡ false = ground (arith, timely) in
      rw (in_time, present, free) (refl, has_address user.id address d.users)

  found_last :
      (token id user now : ℕ) (address : List ℕ) (rows : List PendingContactChange)
      → All (λ r. ¬ (r.verification_token_hash ≡ sha256 token)) rows
      → find_where (for_token sha256 token) (
          purge_existing user email rows
          ++ new_change id user email address (sha256 token) now email_token_ttl ∷ [])
        ≡ some (new_change id user email address (sha256 token) now email_token_ttl)
  unfolding purge_existing
  found_last token id user now address rows fresh =
      find_where-last (for_token sha256 token)
        (select_where (λ r. not (open_change user email r)) rows) _
        (select_where-All (λ r. for_token sha256 token r ≡ false)
          (λ r. not (open_change user email r)) rows
          (All-map _ _ rows
            (λ r differ. rw (eq_test_false r.verification_token_hash (sha256 token) differ) refl)
            fresh))
        (ground arith)

  -- The link of a request for a new address, confirmed in time, gives the user that address, trimmed
  -- and in lower case: when the password is right, the address is new to the user and no other user's,
  -- and no earlier request has the token's hash.
  pub confirm-request_email_change :
      (token now later : ℕ) (user : ContactUser) (new_email : List ℕ) (d : ContactDb)
      → same_codes (normalized new_email) (map lower_code user.email_address) ≡ false
      → any (λ u. u.id == user.id && not u.is_deleted) d.users ≡ true
      → is_taken user (normalized new_email) d ≡ false
      → All (λ r. ¬ (r.verification_token_hash ≡ sha256 token)) d.pending
      → later ≤ now + email_token_ttl
      → Switched user (normalized new_email) (
          confirm_email_change sha256 token later
            (request_email_change sha256 true token now user new_email d).1)
  unfolding request_email_change confirm_email_change
  confirm-request_email_change token now later user new_email d new present free fresh timely =
      let found = found_last token d.next_id user.id now (normalized new_email) d.pending fresh in
      let switched =
        confirm_row-Switched d.next_id (sha256 token) now later user (normalized new_email) in
      rw (new, request_email_change, confirm_email_change, found) (switched _ timely present free)
