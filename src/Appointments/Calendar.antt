-- ===== src/Appointments/Calendar.antt =====
-- The invariant of the appointments table: keys are distinct and below the counter, and no two active
-- appointments of one detailer overlap, travel buffer included.
use raycarwash_project.Base.{
  ℕ, suc, ◌≤◌, ◌<◌, ◌≡◌, ◌≢◌, refl, sym, ◌∙◌, ◌⊎◌, ◌==◌, ltb, Bool, true, false, ◌&&◌, ◌||◌, Option,
  none, some, List, [], ◌∷◌, ◌++◌, All, All-map, All-zip, All-append_one, count_where_none,
  update_where, if◌then◌else◌, arith, Bool-cases, inl, inr,
}
use raycarwash_project.Appointments.Status.{is_terminal}
use raycarwash_project.Appointments.Queries.{is_active_for, overlaps, get_overlapping_count}
use raycarwash_project.Store.{Appointment, Db}

-- The interval of a detailer's time.
pub record Hold : Type 0 where
  pub detailer : ℕ
  pub start : ℕ
  pub finish : ℕ

-- What an appointment holds: its interval with the travel buffer, while it is active and has both a
-- detailer and an end.
unfoldable pub holds : Appointment → Option Hold
holds a = if a.is_deleted || is_terminal a.status then none else elim a.detailer_id [
  | none ↦ none
  | some d ↦ elim a.travel_buffer_end_time [
    | none ↦ none
    | some e ↦ some (record { detailer = d; start = a.scheduled_time; finish = e })
  ]
]

abbrev pub clash_holds : Option Hold → Option Hold → Bool
clash_holds none _ = false
clash_holds (some h) none = false
clash_holds (some h) (some k) =
    h.detailer == k.detailer && ltb h.start k.finish && ltb k.start h.finish

abbrev pub clash : Appointment → Appointment → Bool
clash a b = clash_holds (holds a) (holds b)

abbrev pub Apart : Appointment → Appointment → Type 0
Apart a b = (a.id ≢ b.id) × (clash a b ≡ false)

abbrev pub NoClash : List Appointment → Type 0
NoClash [] = Unit
NoClash (a ∷ rest) = All (Apart a) rest × NoClash rest

pub record IsValid (d : Db) : Type 0 where
  pub keys_used : All (λ (a : Appointment). a.id < d.next_id) d.appointments
  pub no_clash : NoClash d.appointments

-- A row that is apart from all others may be appended.
pub NoClash-append :
    (xs : List Appointment) (y : Appointment)
    → NoClash xs
    → All (λ x. Apart x y) xs
    → NoClash (xs ++ y ∷ [])
NoClash-append [] y h k = (tt, tt)
NoClash-append (x ∷ xs) y h k = (All-append_one _ xs y h.0 k.0, NoClash-append xs y h.1 k.1)

-- The row `r` takes the place of `x` and holds the detailer no longer than `x` does.
abbrev pub Relaxes : Appointment → Appointment → Type 0
Relaxes x r = (r.id ≡ x.id) × ((holds r ≡ none) ⊎ (holds r ≡ holds x))

clash_none : (h : Option Hold) → clash_holds h none ≡ false
clash_none none = refl
clash_none (some h) = refl

relax_left : (x r y : Appointment) → Relaxes x r → Apart x y → Apart r y
relax_left x r y (e, inl free) (k, c) = (λ q. k (sym e ∙ q), rw free refl)
relax_left x r y (e, inr same) (k, c) = (λ q. k (sym e ∙ q), rw same c)

relax_right : (x r y : Appointment) → Relaxes x r → Apart y x → Apart y r
relax_right x r y (e, inl free) (k, c) = (λ q. k (q ∙ e), rw free (clash_none (holds y)))
relax_right x r y (e, inr same) (k, c) = (λ q. k (q ∙ e), rw same c)

-- Every row with the key of `r` is one that `r` relaxes.
abbrev pub Replaces : Appointment → List Appointment → Type 0
Replaces r xs = All (λ x. (x.id == r.id) ≡ true → Relaxes x r) xs

abbrev pub replace : Appointment → List Appointment → List Appointment
replace r = update_where (λ x. x.id == r.id) (λ _. r)

replace-Apart :
    (r y : Appointment) (xs : List Appointment)
    → Replaces r xs
    → All (Apart y) xs
    → All (Apart y) (replace r xs)
replace-Apart r y [] h k = tt
replace-Apart r y (x ∷ xs) h k = elim (Bool-cases (x.id == r.id)) [
  | inl e ↦ rw e (relax_right x r y (h.0 e) k.0, replace-Apart r y xs h.1 k.1)
  | inr e ↦ rw e (k.0, replace-Apart r y xs h.1 k.1)
]

pub replace-NoClash :
    (r : Appointment) (xs : List Appointment) → Replaces r xs → NoClash xs → NoClash (replace r xs)
replace-NoClash r [] h k = tt
replace-NoClash r (x ∷ xs) h k = elim (Bool-cases (x.id == r.id)) [
  | inl e ↦ rw e (
    replace-Apart r r xs h.1 (All-map _ _ xs (λ y. relax_left x r y (h.0 e)) k.0),
    replace-NoClash r xs h.1 k.1,
  )
  | inr e ↦ rw e (replace-Apart r x xs h.1 k.0, replace-NoClash r xs h.1 k.1)
]

-- The overlap query asks of a row whether it clashes with the queried interval.
pub clash-query :
    (x : Appointment) (k : Hold)
    → clash_holds (holds x) (some k) ≡ (is_active_for k.detailer x && overlaps k.start k.finish x)
unfolding holds
clash-query x k = ground arith

-- No counted row: no clash.
pub no_count_no_clash :
    (y : Appointment) (k : Hold) (d : Db)
    → holds y ≡ some k
    → get_overlapping_count k.detailer k.start k.finish d ≡ 0
    → All (λ x. clash x y ≡ false) d.appointments
unfolding get_overlapping_count
no_count_no_clash y k d h q =
    All-map _ _ d.appointments (λ x e. rw h (clash-query x k ∙ e))
      (count_where_none (λ a. is_active_for k.detailer a && overlaps k.start k.finish a)
        d.appointments q)

pub keys_apart :
    (y n : ℕ) (xs : List Appointment)
    → All (λ (x : Appointment). x.id < n) xs
    → n ≤ y
    → All (λ (x : Appointment). x.id ≢ y) xs
keys_apart y n [] h k = tt
keys_apart y n (x ∷ xs) h k = ((λ e. omega (arith, h.0)), keys_apart y n xs h.1 k)

pub keys_weaken :
    (n : ℕ) (xs : List Appointment)
    → All (λ (x : Appointment). x.id < n) xs
    → All (λ (x : Appointment). x.id < suc n) xs
keys_weaken n [] h = tt
keys_weaken n (x ∷ xs) h = (omega (arith, h.0), keys_weaken n xs h.1)

-- A booking into a free interval keeps the invariant.
pub append-IsValid :
    (y : Appointment) (k : Hold) (d d' : Db)
    → IsValid d
    → holds y ≡ some k
    → get_overlapping_count k.detailer k.start k.finish d ≡ 0
    → y.id ≡ d.next_id
    → d'.next_id ≡ suc d.next_id
    → d'.appointments ≡ d.appointments ++ y ∷ []
    → IsValid d'
append-IsValid y k d d' v h q key next rows = record {
  keys_used =
      rw (rows, next)
        (All-append_one _ d.appointments y (keys_weaken d.next_id d.appointments v.keys_used)
          (omega arith));
  no_clash = rw rows (
      NoClash-append d.appointments y v.no_clash (
        All-zip _ _ d.appointments
          (keys_apart y.id d.next_id d.appointments v.keys_used (omega arith))
          (no_count_no_clash y k d h q)));
}
