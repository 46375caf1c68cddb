-- ===== src/Texts.antt =====
-- Texts as lists of code points: what their comparison says.
use raycarwash_project.Base.{
  ℕ, ◌≡◌, refl, inl, inr, true, List, [], ◌∷◌, arith, ◌==◌, Bool-cases, same_codes, eq_of_test,
}

pub same_codes_refl : (s : List ℕ) → same_codes s s ≡ true
same_codes_refl [] = refl
same_codes_refl (c ∷ s) = ground (arith, same_codes_refl s)

pub same_codes-eq : (s t : List ℕ) → same_codes s t ≡ true → s ≡ t
same_codes-eq [] [] h = refl
same_codes-eq [] (d ∷ t) h = absurd (ground (arith, h))
same_codes-eq (c ∷ s) [] h = absurd (ground (arith, h))
same_codes-eq (c ∷ s) (d ∷ t) h = elim (Bool-cases (c == d)) [
  | inl e ↦ rw (eq_of_test c d e, same_codes-eq s t (rw e at h)) refl
  | inr e ↦ absurd (ground (arith, rw e at h))
]
