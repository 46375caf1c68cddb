-- ===== src/Base/Lists.antt =====
-- Lists as tables of rows: selection, update, sums.
use Prim.Native.Nat.{ℕ, zero, suc, ◌+◌}
use mathlib.Core.Path.{◌≡◌, refl, subst}
use mathlib.Core.Logic.{inl, inr}
use mathlib.Core.Bool.{Bool, true, false, ◌&&◌, ◌||◌}
use mathlib.Core.Option.{Option, none, some}
use mathlib.Core.List.{List, [], ◌∷◌, ◌++◌}
use native.Mathlib.Omega.{arith}
use raycarwash_project.Base.Tests.{◌==◌, if◌then◌else◌, Bool-cases}

module _ {ℓ} {A : Type ℓ} where
  abbrev pub length : List A → ℕ
  length [] = 0
  length (x ∷ xs) = suc (length xs)

  abbrev pub take : ℕ → List A → List A
  take zero xs = []
  take (suc n) [] = []
  take (suc n) (x ∷ xs) = x ∷ take n xs

  abbrev pub All {κ} : (A → Type κ) → List A → Type κ
  All P [] = Unit
  All P (x ∷ xs) = P x × All P xs

  abbrev pub any : (A → Bool) → List A → Bool
  any p [] = false
  any p (x ∷ xs) = p x || any p xs

  -- `SELECT count(*) … WHERE p`
  abbrev pub count_where : (A → Bool) → List A → ℕ
  count_where p [] = 0
  count_where p (x ∷ xs) = let n = count_where p xs in if p x then suc n else n

  -- `SELECT … WHERE p`, the first row
  abbrev pub find_where : (A → Bool) → List A → Option A
  find_where p [] = none
  find_where p (x ∷ xs) = if p x then some x else find_where p xs

  abbrev pub select_where : (A → Bool) → List A → List A
  select_where p [] = []
  select_where p (x ∷ xs) = let r = select_where p xs in if p x then x ∷ r else r

  -- `UPDATE … SET f WHERE p`
  abbrev pub update_where : (A → Bool) → (A → A) → List A → List A
  update_where p f [] = []
  update_where p f (x ∷ xs) = (if p x then f x else x) ∷ update_where p f xs

  abbrev pub sum_by : (A → ℕ) → List A → ℕ
  sum_by f [] = 0
  sum_by f (x ∷ xs) = f x + sum_by f xs

  pub sum_by-append : (f : A → ℕ) (xs ys : List A) → sum_by f (xs ++ ys) ≡ sum_by f xs + sum_by f ys
  sum_by-append f [] ys = omega arith
  sum_by-append f (x ∷ xs) ys = omega (arith, sum_by-append f xs ys)

  pub count_where_none :
      (p : A → Bool) (xs : List A) → count_where p xs ≡ 0 → All (λ x. p x ≡ false) xs
  count_where_none p [] h = tt
  count_where_none p (x ∷ xs) h = elim (Bool-cases (p x)) [
    | inl e ↦ absurd (omega (arith, rw e at h))
    | inr e ↦ (e, count_where_none p xs (rw e at h))
  ]

  pub All-trivial : (xs : List A) → All (λ _. Unit {0}) xs
  All-trivial [] = tt
  All-trivial (x ∷ xs) = (tt, All-trivial xs)

  pub All-map {κ μ} :
      (P : A → Type κ) (Q : A → Type μ) (xs : List A) → ((x : A) → P x → Q x) → All P xs → All Q xs
  All-map P Q [] f h = tt
  All-map P Q (x ∷ xs) f h = (f x h.0, All-map P Q xs f h.1)

  pub All-zip {κ μ} :
      (P : A → Type κ) (Q : A → Type μ) (xs : List A)
      → All P xs
      → All Q xs
      → All (λ x. P x × Q x) xs
  All-zip P Q [] h k = tt
  All-zip P Q (x ∷ xs) h k = ((h.0, k.0), All-zip P Q xs h.1 k.1)

  pub All-append_one {κ} :
      (P : A → Type κ) (xs : List A) (y : A) → All P xs → P y → All P (xs ++ y ∷ [])
  All-append_one P [] y h p = (p, tt)
  All-append_one P (x ∷ xs) y h p = (h.0, All-append_one P xs y h.1 p)

  pub find_where-true : (p : A → Bool) (xs : List A) (a : A) → find_where p xs ≡ some a → p a ≡ true
  find_where-true p [] a h = absurd (ground (arith, h))
  find_where-true p (x ∷ xs) a h = elim (Bool-cases (p x)) [
    | inl e ↦ subst (λ z. p z ≡ true) (ground (arith, rw e at h)) e
    | inr e ↦ find_where-true p xs a (rw e at h)
  ]

  pub find_where-All {κ} :
      (p : A → Bool) (Q : A → Type κ) (xs : List A) (a : A)
      → All Q xs
      → find_where p xs ≡ some a
      → Q a
  find_where-All p Q [] a q h = absurd (ground (arith, h))
  find_where-All p Q (x ∷ xs) a q h = elim (Bool-cases (p x)) [
    | inl e ↦ subst Q (ground (arith, rw e at h)) q.0
    | inr e ↦ find_where-All p Q xs a q.1 (rw e at h)
  ]

  pub All-update_where {κ} :
      (Q : A → Type κ) (p : A → Bool) (f : A → A) (xs : List A)
      → ((x : A) → Q x → Q (f x))
      → All Q xs
      → All Q (update_where p f xs)
  All-update_where Q p f [] g h = tt
  All-update_where Q p f (x ∷ xs) g h = elim (Bool-cases (p x)) [
    | inl e ↦ rw e (g x h.0, All-update_where Q p f xs g h.1)
    | inr e ↦ rw e (h.0, All-update_where Q p f xs g h.1)
  ]

  -- An update of the rows that pass a test.
  pub All-update_where_if {κ} :
      (Q : A → Type κ) (p : A → Bool) (f : A → A) (xs : List A)
      → ((x : A) → p x ≡ true → Q x → Q (f x))
      → All Q xs
      → All Q (update_where p f xs)
  All-update_where_if Q p f [] g h = tt
  All-update_where_if Q p f (x ∷ xs) g h = elim (Bool-cases (p x)) [
    | inl e ↦ rw e (g x e h.0, All-update_where_if Q p f xs g h.1)
    | inr e ↦ rw e (h.0, All-update_where_if Q p f xs g h.1)
  ]

  pub All-count_none :
      (p : A → Bool) (xs : List A) → All (λ x. p x ≡ false) xs → count_where p xs ≡ 0
  All-count_none p [] h = refl
  All-count_none p (x ∷ xs) h = rw h.0 (All-count_none p xs h.1)

-- texts by their code points
abbrev pub same_codes : List ℕ → List ℕ → Bool
same_codes [] [] = true
same_codes (c ∷ s) (d ∷ t) = c == d && same_codes s t
same_codes _ _ = false
