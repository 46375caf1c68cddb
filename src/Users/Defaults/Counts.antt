-- ===== src/Users/Defaults/Counts.antt =====
-- How an update of one row changes a count.
use raycarwash_project.Base.{
  ℕ, suc, ◌+◌, ◌≤◌, ◌≡◌, refl, subst, ◌⊎◌, inl, inr, Bool, true, false, some, List, [], ◌∷◌, ◌++◌,
  arith, if◌then◌else◌, Bool-cases, All, any, count_where, find_where, select_where, update_where,
}

abbrev pub one_if : Bool → ℕ
one_if true = 1
one_if false = 0

pub one_if-le : (b : Bool) → one_if b ≤ 1
one_if-le true = omega arith
one_if-le false = omega arith

module _ {A : Type 0} where
  abbrev pub IsIn : A → List A → Type 0
  IsIn x [] = ⊥
  IsIn x (y ∷ ys) = (x ≡ y) ⊎ IsIn x ys

  pub find_where-IsIn : (p : A → Bool) (xs : List A) (x : A) → find_where p xs ≡ some x → IsIn x xs
  find_where-IsIn p [] x h = absurd (ground (arith, h))
  find_where-IsIn p (y ∷ ys) x h = elim (Bool-cases (p y)) [
    | inl e ↦ inl (ground (arith, rw e at h))
    | inr e ↦ inr (find_where-IsIn p ys x (rw e at h))
  ]

  pub count_mono :
      (p q : A → Bool) (xs : List A)
      → ((x : A) → p x ≡ true → q x ≡ true)
      → count_where p xs ≤ count_where q xs
  count_mono p q [] h = omega arith
  count_mono p q (x ∷ xs) h = elim (Bool-cases (p x)) [
    | inl e ↦ rw (e, h x e) (omega (arith, count_mono p q xs h))
    | inr e ↦ rw e (elim (Bool-cases (q x)) [
      | inl f ↦ rw f (omega (arith, count_mono p q xs h))
      | inr f ↦ rw f (count_mono p q xs h)
    ])
  ]

  pub IsIn-count :
      (p : A → Bool) (xs : List A) (x : A) → IsIn x xs → p x ≡ true → 1 ≤ count_where p xs
  IsIn-count p [] x at h = absurd at
  IsIn-count p (y ∷ ys) x (inl same) h = rw (subst (λ z. p z ≡ true) same h) (omega arith)
  IsIn-count p (y ∷ ys) x (inr at) h = elim (Bool-cases (p y)) [
    | inl e ↦ rw e (omega arith)
    | inr e ↦ rw e (IsIn-count p ys x at h)
  ]

  pub count-append_one :
      (p : A → Bool) (xs : List A) (y : A)
      → count_where p (xs ++ y ∷ []) ≡ count_where p xs + one_if (p y)
  count-append_one p [] y = elim (Bool-cases (p y)) [
    | inl e ↦ rw e refl
    | inr e ↦ rw e (omega arith)
  ]
  count-append_one p (x ∷ xs) y = elim (Bool-cases (p x)) [
    | inl e ↦ rw e (omega (arith, count-append_one p xs y))
    | inr e ↦ rw e (count-append_one p xs y)
  ]

  -- An update that leaves the test of each row as it is.
  pub count-update_where :
      (p q : A → Bool) (f : A → A) (xs : List A)
      → ((x : A) → q x ≡ true → p (f x) ≡ p x)
      → count_where p (update_where q f xs) ≡ count_where p xs
  count-update_where p q f [] h = refl
  count-update_where p q f (x ∷ xs) h = elim (Bool-cases (q x)) [
    | inl e ↦ rw (e, h x e, count-update_where p q f xs h) refl
    | inr e ↦ rw (e, count-update_where p q f xs h) refl
  ]

  -- An update that makes no further row pass the test.
  pub count-update-le {κ} :
      (Q : A → Type κ) (p q : A → Bool) (f : A → A) (xs : List A)
      → ((x : A) → Q x → q x ≡ true → p (f x) ≡ true → p x ≡ true)
      → All Q xs
      → count_where p (update_where q f xs) ≤ count_where p xs
  count-update-le Q p q f [] h all = omega arith
  count-update-le Q p q f (x ∷ xs) h all =
      let rest = count-update-le Q p q f xs h all.1 in
      elim (Bool-cases (q x)) [
        | inl e ↦ rw e (elim (Bool-cases (p (f x))) [
          | inl t ↦ rw (t, h x all.0 e t) (omega (arith, rest))
          | inr t ↦
              rw t
                (elim (Bool-cases (p x)) [ inl u ↦ rw u (omega (arith, rest)) | inr u ↦ rw u rest ])
        ])
        | inr e ↦
            rw e
              (elim (Bool-cases (p x)) [ inl u ↦ rw u (omega (arith, rest)) | inr u ↦ rw u rest ])
      ]

  count-cons :
      (p : A → Bool) (x : A) (xs : List A)
      → count_where p (x ∷ xs) ≡ one_if (p x) + count_where p xs
  count-cons p x xs = elim (Bool-cases (p x)) [
    | inl e ↦ rw e (omega arith)
    | inr e ↦ rw e (omega arith)
  ]

  update_where_none :
      (q : A → Bool) (f : A → A) (xs : List A) → count_where q xs ≡ 0 → update_where q f xs ≡ xs
  update_where_none q f [] h = refl
  update_where_none q f (x ∷ xs) h = elim (Bool-cases (q x)) [
    | inl e ↦ absurd (omega (arith, rw e at h))
    | inr e ↦ rw (e, update_where_none q f xs (rw e at h)) refl
  ]

  -- An update of exactly one row.
  pub count-update_one :
      (p q : A → Bool) (f : A → A) (xs : List A) (x : A)
      → IsIn x xs
      → q x ≡ true
      → count_where q xs ≤ 1
      → count_where p (update_where q f xs) + one_if (p x) ≡ count_where p xs + one_if (p (f x))
  count-update_one p q f [] x at h one = absurd at
  count-update_one p q f (y ∷ ys) x at h one = elim (Bool-cases (q y)) [
    | inl e ↦ elim at [
      | inl same ↦ here same (rw e at one) (rw e refl)
      | inr further ↦
          absurd (omega (arith, IsIn-count q ys x further h, count-cons q y ys, rw e at one))
    ]
    | inr e ↦ elim at [
      | inl same ↦ absurd (ground (arith, e, h, same))
      | inr further ↦ rw e (
          omega (
            arith,
            count-update_one p q f ys x further h (rw e at one),
            count-cons p y ys,
            count-cons p y (update_where q f ys),
          ))
    ]
  ]
    where
      here :
          x ≡ y
          → suc (count_where q ys) ≤ 1
          → (if q y then f y else y) ≡ f y
          → count_where p ((if q y then f y else y) ∷ update_where q f ys) + one_if (p x)
            ≡ count_where p (y ∷ ys) + one_if (p (f x))
      here same single moved =
          rw (moved, same, update_where_none q f ys (omega (arith, single)))
            (omega (arith, count-cons p y ys, count-cons p (f y) ys))

-- Counts of rows that are appended, selected and sought.
module _ {A : Type 0} where
  pub count-append :
      (p : A → Bool) (xs ys : List A)
      → count_where p (xs ++ ys) ≡ count_where p xs + count_where p ys
  count-append p [] ys = omega arith
  count-append p (x ∷ xs) ys = elim (Bool-cases (p x)) [
    | inl e ↦ rw e (omega (arith, count-append p xs ys))
    | inr e ↦ rw e (count-append p xs ys)
  ]

  pub count-select-le :
      (p q : A → Bool) (xs : List A) → count_where p (select_where q xs) ≤ count_where p xs
  count-select-le p q [] = omega arith
  count-select-le p q (x ∷ xs) = elim (Bool-cases (q x)) [
    | inl e ↦ elim (Bool-cases (p x)) [
      | inl f ↦ rw (e, f) (omega (arith, count-select-le p q xs))
      | inr f ↦ rw (e, f) (count-select-le p q xs)
    ]
    | inr e ↦ elim (Bool-cases (p x)) [
      | inl f ↦ rw (e, f) (omega (arith, count-select-le p q xs))
      | inr f ↦ rw (e, f) (count-select-le p q xs)
    ]
  ]

  pub IsIn-select :
      (q : A → Bool) (xs : List A) (x : A) → IsIn x xs → q x ≡ true → IsIn x (select_where q xs)
  IsIn-select q [] x at h = absurd at
  IsIn-select q (y ∷ ys) x (inl same) h = rw (subst (λ z. q z ≡ true) same h) (inl same)
  IsIn-select q (y ∷ ys) x (inr at) h = elim (Bool-cases (q y)) [
    | inl e ↦ rw e (inr (IsIn-select q ys x at h))
    | inr e ↦ rw e (IsIn-select q ys x at h)
  ]

  pub any-count : (p : A → Bool) (xs : List A) → any p xs ≡ true → 1 ≤ count_where p xs
  any-count p [] h = absurd (ground (arith, h))
  any-count p (x ∷ xs) h = elim (Bool-cases (p x)) [
    | inl e ↦ rw e (omega arith)
    | inr e ↦ rw e (any-count p xs (rw e at h))
  ]

  pub any-none : (p : A → Bool) (xs : List A) → any p xs ≡ false → count_where p xs ≡ 0
  any-none p [] h = refl
  any-none p (x ∷ xs) h = elim (Bool-cases (p x)) [
    | inl e ↦ absurd (ground (arith, rw e at h))
    | inr e ↦ rw e (any-none p xs (rw e at h))
  ]
