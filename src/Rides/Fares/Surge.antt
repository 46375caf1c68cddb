-- ===== src/Rides/Fares/Surge.antt =====
-- Which multiplier the surge takes.
use raycarwash_project.Base.{
  ℕ, ◌≡◌, refl, sym, subst, ◌⊎◌, inl, inr, Bool, true, false, Option, none, some, List, [], ◌∷◌,
  arith, Bool-cases, All, All-map, count_where,
}
use raycarwash_project.Float.{Double, of_ratio}
use raycarwash_project.Rides.Fares.{
  Threshold, within, insert_threshold, sort_thresholds, first_threshold, all_detailers,
  calculate_surge,
}

-- Some entry has the property.
abbrev pub Has : (Threshold → Type 0) → List Threshold → Type 0
Has P [] = ⊥
Has P (t ∷ ts) = P t ⊎ Has P ts

module _ (n : ℕ) where
  abbrev pub Covers : Threshold → Type 0
  Covers t = within (some n) t.max_count ≡ true

  -- The multiplier `m` is of an entry that covers `n`, and no entry that covers it is tighter.
  abbrev pub Tightest : List Threshold → Double → Type 0
  Tightest ts m =
      Has
        (λ t.
          Covers t
          × (t.multiplier ≡ m)
          × All (λ u. Covers u → within t.max_count u.max_count ≡ true) ts)
        ts

  abbrev pub Uncovered : List Threshold → Type 0
  Uncovered ts = All (λ t. within (some n) t.max_count ≡ false) ts

Sorted : List Threshold → Type 0
Sorted [] = Unit
Sorted (t ∷ ts) = All (λ u. within t.max_count u.max_count ≡ true) ts × Sorted ts

All-insert_threshold :
    (P : Threshold → Type 0) (t : Threshold) (ts : List Threshold)
    → P t
    → All P ts
    → All P (insert_threshold t ts)
All-insert_threshold P t [] p h = (p, tt)
All-insert_threshold P t (u ∷ us) p h = elim (Bool-cases (within t.max_count u.max_count)) [
  | inl e ↦ rw e (p, h)
  | inr e ↦ rw e (h.0, All-insert_threshold P t us p h.1)
]

insert_threshold-All :
    (P : Threshold → Type 0) (t : Threshold) (ts : List Threshold)
    → All P (insert_threshold t ts)
    → P t × All P ts
insert_threshold-All P t [] h = (h.0, tt)
insert_threshold-All P t (u ∷ us) h = elim (Bool-cases (within t.max_count u.max_count)) [
  | inl e ↦ rw e at h
  | inr e ↦
      let (x, rest) = rw e at h in
      let (pt, pus) = insert_threshold-All P t us rest in (pt, (x, pus))
]

within_refl : (a : Option ℕ) → within a a ≡ true
within_refl none = refl
within_refl (some a) = ground arith

within_total : (a b : Option ℕ) → within a b ≡ false → within b a ≡ true
within_total none (some b) h = refl
within_total (some a) (some b) h = ground (arith, h)
within_total a none h = absurd (ground (arith, h))

within_trans : (a b c : Option ℕ) → within a b ≡ true → within b c ≡ true → within a c ≡ true
within_trans a b none h k = refl
within_trans none none (some c) h k = absurd (ground (arith, k))
within_trans none (some b) (some c) h k = absurd (ground (arith, h))
within_trans (some a) none (some c) h k = absurd (ground (arith, k))
within_trans (some a) (some b) (some c) h k = ground (arith, h, k)

Sorted-insert_threshold :
    (t : Threshold) (ts : List Threshold) → Sorted ts → Sorted (insert_threshold t ts)
unfolding Sorted
Sorted-insert_threshold t [] h = (tt, tt)
Sorted-insert_threshold t (u ∷ us) (low, sorted) =
    elim (Bool-cases (within t.max_count u.max_count)) [
      | inl e ↦ rw e (
        (
          e,
          All-map (λ v. within u.max_count v.max_count ≡ true)
              (λ v. within t.max_count v.max_count ≡ true) us
              (λ v k. within_trans t.max_count u.max_count v.max_count e k) low,
        ),
        (low, sorted),
      )
      | inr e ↦ rw e (
        All-insert_threshold (λ v. within u.max_count v.max_count ≡ true) t us
            (within_total t.max_count u.max_count e) low,
        Sorted-insert_threshold t us sorted,
      )
    ]

sort_thresholds-Sorted : (ts : List Threshold) → Sorted (sort_thresholds ts)
unfolding Sorted
sort_thresholds-Sorted [] = tt
sort_thresholds-Sorted (t ∷ ts) =
    Sorted-insert_threshold t (sort_thresholds ts) (sort_thresholds-Sorted ts)

sort_thresholds-All :
    (P : Threshold → Type 0) (ts : List Threshold) → All P (sort_thresholds ts) → All P ts
sort_thresholds-All P [] h = tt
sort_thresholds-All P (t ∷ ts) h =
    let (p, rest) = insert_threshold-All P t (sort_thresholds ts) h in
    (p, sort_thresholds-All P ts rest)

Has-map :
    (P Q : Threshold → Type 0) (ts : List Threshold)
    → ((t : Threshold) → P t → Q t)
    → Has P ts
    → Has Q ts
Has-map P Q [] f h = absurd h
Has-map P Q (t ∷ ts) f (inl p) = inl (f t p)
Has-map P Q (t ∷ ts) f (inr h) = inr (Has-map P Q ts f h)

insert_threshold-Has :
    (P : Threshold → Type 0) (t : Threshold) (ts : List Threshold)
    → Has P (insert_threshold t ts)
    → P t ⊎ Has P ts
insert_threshold-Has P t [] (inl p) = inl p
insert_threshold-Has P t [] (inr h) = absurd h
insert_threshold-Has P t (u ∷ us) h = elim (Bool-cases (within t.max_count u.max_count)) [
  | inl e ↦ rw e at h
  | inr e ↦ further (insert_threshold-Has P t us) (rw e at h)
]
  where
    further :
        (Has P (insert_threshold t us) → P t ⊎ Has P us)
        → P u ⊎ Has P (insert_threshold t us)
        → P t ⊎ Has P (u ∷ us)
    further rest (inl p) = inr (inl p)
    further rest (inr k) = elim (rest k) [ inl p ↦ inl p | inr q ↦ inr (inr q) ]

sort_thresholds-Has :
    (P : Threshold → Type 0) (ts : List Threshold) → Has P (sort_thresholds ts) → Has P ts
sort_thresholds-Has P [] h = h
sort_thresholds-Has P (t ∷ ts) h = elim (insert_threshold-Has P t (sort_thresholds ts) h) [
  | inl p ↦ inl p
  | inr k ↦ inr (sort_thresholds-Has P ts k)
]

abbrev pub Chosen : ℕ → List Threshold → Double → Type 0
Chosen n ts m = (Uncovered n ts × (m ≡ of_ratio 1 1)) ⊎ Tightest n ts m

first_threshold-Chosen :
    (n : ℕ) (ts : List Threshold) → Sorted ts → Chosen n ts (first_threshold n ts)
unfolding Sorted
first_threshold-Chosen n [] h = inl (tt, refl)
first_threshold-Chosen n (t ∷ ts) (low, sorted) = elim (Bool-cases (within (some n) t.max_count)) [
  | inl e ↦
      let same : first_threshold n (t ∷ ts) ≡ t.multiplier = rw e refl in
      subst (Chosen n (t ∷ ts)) (sym same) (
        inr (
          inl (
            e,
            refl,
            (
              (λ _. within_refl t.max_count),
              All-map (λ v. within t.max_count v.max_count ≡ true)
                  (λ u. Covers n u → within t.max_count u.max_count ≡ true) ts (λ u k _. k) low,
            ),
          )))
  | inr e ↦
      let same : first_threshold n (t ∷ ts) ≡ first_threshold n ts = rw e refl in
      subst (Chosen n (t ∷ ts)) (sym same) (elim (first_threshold-Chosen n ts sorted) [
        | inl (un, one) ↦ inl ((e, un), one)
        | inr has ↦ inr (
            inr (
              Has-map _ _ ts
                (λ u (c, m, tight). (c, m, ((λ k. absurd (ground (arith, e, k))), tight))) has))
      ])
]

-- The surge is the multiplier of the threshold with the least count that is not below the number of
-- active detailers around the client, in whatever order the setting lists the thresholds, and 1.0
-- when there is none.
pub calculate_surge-Chosen :
    (ts : List Threshold) (members_of_cells : List (List ℕ)) (is_active : ℕ → Bool)
    → Chosen
        (calculate_surge ts members_of_cells is_active).1
        ts
        (calculate_surge ts members_of_cells is_active).0
unfolding calculate_surge
calculate_surge-Chosen ts members_of_cells is_active =
    sorted_first (count_where is_active (all_detailers members_of_cells []))
  where
    sorted_first : (n : ℕ) → Chosen n ts (first_threshold n (sort_thresholds ts))
    sorted_first n =
        elim (first_threshold-Chosen n (sort_thresholds ts) (sort_thresholds-Sorted ts)) [
          | inl (un, one) ↦ inl (sort_thresholds-All _ ts un, one)
          | inr has ↦ inr (
              sort_thresholds-Has _ ts (
                Has-map _ _ (sort_thresholds ts)
                  (λ t (c, m, tight). (c, m, sort_thresholds-All _ ts tight)) has))
        ]
