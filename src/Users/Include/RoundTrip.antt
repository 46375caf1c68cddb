-- ===== src/Users/Include/RoundTrip.antt =====
-- A list of tokens, written with commas and read.
use raycarwash_project.Base.{
  ℕ, ◌≡◌, refl, ap, false, not, ◌&&◌, ◌||◌, some, List, [], ◌∷◌, ◌++◌, arith, All, any,
  eq_test_false,
}
use raycarwash_project.Catalog.{strip, lstrip, is_space}
use raycarwash_project.Users.Include.{
  Token, profile, stats, addresses, payment_methods, notifications, security, sessions, vehicles,
  favorites, preferences, provider, token_name, Roles, grants, is_sensitive, TokenSet, same_token,
  split_commas, find_token, parsed, collect_part, collect, spec_for, parse,
}

-- the value of `?include=`
abbrev pub joined : Token → List Token → List ℕ
joined t [] = token_name t
joined t (u ∷ us) = token_name t ++ b',' ∷ joined u us

split_last : (s : List ℕ) → All (λ c. ¬ (c ≡ b',')) s → split_commas s ≡ s ∷ []
split_last [] h = refl
split_last (c ∷ s) h = rw (eq_test_false c b',' h.0, split_last s h.1) refl

split_first :
    (s rest : List ℕ)
    → All (λ c. ¬ (c ≡ b',')) s
    → split_commas (s ++ b',' ∷ rest) ≡ s ∷ split_commas rest
split_first [] rest h = refl
split_first (c ∷ s) rest h = rw (eq_test_false c b',' h.0, split_first s rest h.1) refl

no_comma : (t : Token) → All (λ c. ¬ (c ≡ b',')) (token_name t)
no_comma t = ground arith

collected :
    (t : Token) (set : TokenSet)
    → collect_part (strip (token_name t)) (parsed set) ≡ parsed (λ u. same_token t u || set u)
unfolding strip lstrip is_space find_token
collected profile set = refl
collected stats set = refl
collected addresses set = refl
collected payment_methods set = refl
collected notifications set = refl
collected security set = refl
collected sessions set = refl
collected vehicles set = refl
collected favorites set = refl
collected preferences set = refl
collected provider set = refl

collect-joined :
    (t : Token) (ts : List Token)
    → collect (split_commas (joined t ts)) ≡ parsed (λ u. any (λ v. same_token v u) (t ∷ ts))
collect-joined t [] = rw (split_last (token_name t) (no_comma t)) (collected t (λ _. false))
collect-joined t (u ∷ us) =
    rw (split_first (token_name t) (joined u us) (no_comma t), collect-joined u us)
      (collected t (λ w. any (λ v. same_token v w) (u ∷ us)))

-- Tokens joined by commas are read back: requested are just these, effective those of them that the
-- caller's roles grant, skipped the others, and sensitive those that are effective and need a recent
-- authentication.
pub parse-joined :
    (t : Token) (ts : List Token) (roles : Roles)
    → parse (some (joined t ts)) roles
      ≡ parsed (record {
        requested = λ u. any (λ v. same_token v u) (t ∷ ts);
        effective = λ u. any (λ v. same_token v u) (t ∷ ts) && grants roles u;
        skipped_for_role = λ u. any (λ v. same_token v u) (t ∷ ts) && not (grants roles u);
        sensitive = λ u. any (λ v. same_token v u) (t ∷ ts) && (grants roles u && is_sensitive u);
      })
unfolding parse
parse-joined t ts roles = ap (spec_for roles) (collect-joined t ts)
