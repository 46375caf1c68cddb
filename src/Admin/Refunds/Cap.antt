-- ===== src/Admin/Refunds/Cap.antt =====
-- The refunds of a booking stay within its price.
use Prim.Native.String.{String}
use raycarwash_project.Base.{
  ℕ, ◌+◌, ◌≤◌, ◌≡◌, refl, sym, subst, ◌⊎◌, inl, inr, Bool, false, not, ◌&&◌, ◌||◌, Option, some,
  List, [], ◌∷◌, arith, ◌==◌, ltb, Bool-cases, Option-cases, sum_by-append, find_where,
  find_where-true, update_where,
}
use raycarwash_project.Appointments.Status.{Status}
use raycarwash_project.Store.{Appointment, Db, World, Env, Result, ok, err, Result-cases, ◌>>=◌}
use raycarwash_project.Rides.{scalar_one_or_none}
use raycarwash_project.Payments.Intents.{get_by_id, save, truthy, create_refund}
use raycarwash_project.Admin.Refunds.{
  AdminDb, max_refundable, counted, prior_refunded, new_refund, record_refund, refund_row,
  refund_appointment, reassigned, reassign_row, reassign_appointment, force_appointment_status,
  with_db, transact, is_applicant, is_approved_detailer, is_reassignable, same_detailer,
  stripe_reason,
}

-- Of every booking that is not deleted, the refunds that have not failed are within the price.
abbrev pub WithinCap : AdminDb → Type 0
WithinCap s =
    (id : ℕ) (a : Appointment)
    → get_by_id id s.world.db ≡ some a
    → prior_refunded id s.refunds ≤ max_refundable a

pub data AdminRequest : Type 0 where
  refunds_booking : (id actor amount : ℕ) → String → AdminRequest
  reassigns : (id actor detailer : ℕ) → AdminRequest
  forces : (id actor : ℕ) → Status → AdminRequest

module _ (env : Env) where
  -- The tables after a request.
  abbrev pub serve : AdminRequest → AdminDb → AdminDb
  serve (refunds_booking id actor amount reason) s =
      (transact (refund_appointment env id actor amount reason s) s).1
  serve (reassigns id actor detailer) s = (transact (reassign_appointment id actor detailer s) s).1
  serve (forces id actor status) s = (transact (force_appointment_status id actor status s) s).1

  abbrev pub serve_all : List AdminRequest → AdminDb → AdminDb
  serve_all [] s = s
  serve_all (r ∷ rs) s = serve_all rs (serve r s)

found : ℕ → Appointment → Bool
found id a = a.id == id && not a.is_deleted

get_by_id-save :
    (id : ℕ) (r b : Appointment) (d : Db)
    → r.is_deleted ≡ false
    → get_by_id id (save r d) ≡ some b
    → ((b ≡ r) × (id ≡ r.id)) ⊎ (get_by_id id d ≡ some b)
unfolding get_by_id
get_by_id-save id r b d live h = go d.appointments h
  where
    go :
        (xs : List Appointment)
        → find_where
            (λ x. x.id == id && not x.is_deleted)
            (update_where (λ x. x.id == r.id) (λ _. r) xs)
          ≡ some b
        → ((b ≡ r) × (id ≡ r.id)) ⊎ (find_where (λ x. x.id == id && not x.is_deleted) xs ≡ some b)
    go [] e = inr e
    go (x ∷ xs) e = elim (Bool-cases (x.id == r.id)) [
      | inl same ↦ elim (Bool-cases (r.id == id)) [
        | inl own ↦ inl (ground (arith, live, own, rw same at e), ground (arith, own))
        | inr other ↦ elim (go xs (ground (arith, other, rw same at e))) [
          | inl done ↦ inl done
          | inr rest ↦ inr (ground (arith, same, other, rest))
        ]
      ]
      | inr differs ↦ elim (Bool-cases (x.id == id && not x.is_deleted)) [
        | inl here ↦ inr (ground (arith, here, rw (differs, here) at e))
        | inr other ↦ elim (go xs (rw (differs, other) at e)) [
          | inl done ↦ inl done
          | inr rest ↦ inr (ground (arith, other, rest))
        ]
      ]
    ]

-- A changed row with the same key and prices.
save-WithinCap :
    (r a : Appointment) (s : AdminDb)
    → get_by_id r.id s.world.db ≡ some a
    → r.is_deleted ≡ false
    → max_refundable r ≡ max_refundable a
    → WithinCap s
    → WithinCap (with_db (save r s.world.db) s)
save-WithinCap r a s at live same within id b h = elim (get_by_id-save id r b s.world.db live h) [
  | inl (b_is, id_is) ↦ rw (b_is, same, id_is) (within r.id a at)
  | inr old ↦ within id b old
]

get_by_id-live :
    (id : ℕ) (a : Appointment) (d : Db)
    → get_by_id id d ≡ some a
    → (a.is_deleted ≡ false) × (get_by_id a.id d ≡ some a) × (a.id ≡ id)
unfolding get_by_id
get_by_id-live id a d h =
    let t = find_where-true (λ x. x.id == id && not x.is_deleted) d.appointments a h in
    let same : a.id ≡ id = ground (arith, t) in
    (ground (arith, t), subst (λ i. get_by_id i d ≡ some a) (sym same) h, same)

create_refund-appointments :
    (env : Env) (pi : String) (amount : ℕ) (reason : String) (w : World)
    → (create_refund env pi amount reason w).1.db.appointments ≡ w.db.appointments
unfolding create_refund ◌>>=◌
create_refund-appointments env pi amount reason w = ground arith

counted-le :
    (id own actor amount : ℕ) (refund_id : Option String)
    → (counted id (new_refund own actor amount refund_id) ≤ amount)
      × ((own == id) ≡ false → counted id (new_refund own actor amount refund_id) ≡ 0)
counted-le id own actor amount refund_id = (ground arith, λ other. ground (arith, other))

recorded-WithinCap :
    (actor amount : ℕ) (a : Appointment) (t : Result (Option String) × World) (s : AdminDb)
    → t.1.db.appointments ≡ s.world.db.appointments
    → get_by_id a.id s.world.db ≡ some a
    → prior_refunded a.id s.refunds + amount ≤ max_refundable a
    → WithinCap s
    → WithinCap (transact (record_refund a.id actor amount t s) s).1
unfolding get_by_id
recorded-WithinCap actor amount a (err e, w) s rows at fits within id b h = within id b h
recorded-WithinCap actor amount a (ok refund_id, w) s rows at fits within id b h =
    let new = new_refund a.id actor amount refund_id in
    let sum = sum_by-append (counted id) s.refunds (new ∷ []) in
    let old : get_by_id id s.world.db ≡ some b = rw rows at h in
    let (le, zero_if) = counted-le id a.id actor amount refund_id in
    elim (Bool-cases (a.id == id)) [
      | inl e ↦
          let same : a.id ≡ id = ground (arith, e) in
          let at' : get_by_id id s.world.db ≡ some a =
            subst (λ i. get_by_id i s.world.db ≡ some a) same at in
          let one : b ≡ a = ground (arith, old, at') in
          let fits' : prior_refunded id s.refunds + amount ≤ max_refundable a =
            subst (λ i. prior_refunded i s.refunds + amount ≤ max_refundable a) same fits in
          rw one (omega (arith, sum, le, fits'))
      | inr e ↦ omega (arith, sum, zero_if e, within id b old)
    ]

refund_appointment-WithinCap :
    (env : Env) (id actor amount : ℕ) (reason : String) (s : AdminDb)
    → WithinCap s
    → WithinCap (transact (refund_appointment env id actor amount reason s) s).1
unfolding refund_appointment
refund_appointment-WithinCap env id actor amount reason s within =
    elim (Option-cases (get_by_id id s.world.db)) [
      | inl n ↦ rw (n, refund_appointment, transact) within
      | inr (a, e) ↦
          let (live, at, same) = get_by_id-live id a s.world.db e in
          elim (Option-cases (truthy a.stripe_payment_intent_id)) [
            | inl n ↦ rw (e, refund_appointment, refund_row, n, transact) within
            | inr (pi, p) ↦
                elim (Bool-cases
                  (ltb (max_refundable a) (prior_refunded a.id s.refunds + amount))) [
                    | inl over ↦ rw (e, refund_appointment, refund_row, p, over, transact) within
                    | inr fits ↦
                        rw (e, refund_appointment, refund_row, p, fits)
                          (recorded-WithinCap actor amount a
                            (create_refund env pi amount (stripe_reason reason) s.world) s
                            (create_refund-appointments env pi amount (stripe_reason reason)
                              s.world)
                            at (ground (arith, fits)) within)
                  ]
          ]
    ]

reassign_row-WithinCap :
    (actor detailer : ℕ) (a : Appointment) (s : AdminDb)
    → get_by_id a.id s.world.db ≡ some a
    → a.is_deleted ≡ false
    → WithinCap s
    → WithinCap (transact (reassign_row actor detailer a s) s).1
reassign_row-WithinCap actor detailer a s at live within =
    elim (Bool-cases (not (is_reassignable a.status) || same_detailer a.detailer_id detailer)) [
      | inl e ↦ rw (e, reassign_row, transact) within
      | inr e ↦ elim (Result-cases (scalar_one_or_none (is_applicant detailer) s.applications)) [
        | inr (e', n) ↦ rw (e, reassign_row, n, transact) within
        | inl (found, f) ↦ elim (Bool-cases (is_approved_detailer found)) [
          | inl good ↦
              rw (e, reassign_row, f, good, transact)
                (save-WithinCap (reassigned detailer a) a s at live refl within)
          | inr bad ↦ rw (e, reassign_row, f, bad, transact) within
        ]
      ]
    ]

serve-WithinCap :
    (env : Env) (r : AdminRequest) (s : AdminDb) → WithinCap s → WithinCap (serve env r s)
unfolding reassign_appointment force_appointment_status
serve-WithinCap env (refunds_booking id actor amount reason) s within =
    refund_appointment-WithinCap env id actor amount reason s within
serve-WithinCap env (reassigns id actor detailer) s within =
    elim (Option-cases (get_by_id id s.world.db)) [
      | inl n ↦ rw (n, serve, reassign_appointment, transact) within
      | inr (a, e) ↦
          let (live, at, same) = get_by_id-live id a s.world.db e in
          rw (e, serve, reassign_appointment)
            (reassign_row-WithinCap actor detailer a s at live within)
    ]
serve-WithinCap env (forces id actor status) s within =
    elim (Option-cases (get_by_id id s.world.db)) [
      | inl n ↦ rw (n, serve, force_appointment_status, transact) within
      | inr (a, e) ↦
          let (live, at, same) = get_by_id-live id a s.world.db e in
          rw (e, serve, force_appointment_status, transact)
            (save-WithinCap (record a { status = status }) a s at live refl within)
    ]

-- If of every booking the refunds of administrators that have not failed are within its price (the
-- actual one, if there is one), they are so after any sequence of requests of administrators to refund,
-- reassign and force a status, whether they succeed or fail and whatever Stripe answers.
pub serve_all-WithinCap :
    (env : Env) (rs : List AdminRequest) (s : AdminDb)
    → WithinCap s
    → WithinCap (serve_all env rs s)
serve_all-WithinCap env [] s within = within
serve_all-WithinCap env (r ∷ rs) s within =
    serve_all-WithinCap env rs (serve env r s) (serve-WithinCap env r s within)
