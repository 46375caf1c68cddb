-- ===== src/Users/Include/Tests.antt =====
-- A detailer who is no client.
use raycarwash_project.Base.{◌≡◌, refl, true, false, some, [], ◌∷◌, any, not, ◌&&◌}
use raycarwash_project.Catalog.{codes, strip, lstrip, is_space}
use raycarwash_project.Users.Include.{
  profile, security, vehicles, Roles, grants, is_sensitive, same_token, parsed, bad_include_token,
  find_token, parse,
}
use raycarwash_project.Users.Include.RoundTrip.{joined, parse-joined}

abbrev a_detailer : Roles
a_detailer = record { is_client = false; is_detailer = true; is_admin = false }

-- tokens are trimmed and case-sensitive
unknown : parse (some (codes "profile , Stats")) a_detailer ≡ bad_include_token (codes "Stats")
unfolding parse find_token strip lstrip is_space
unknown = refl

parse-joined_example :
    parse (some (joined profile (security ∷ vehicles ∷ []))) a_detailer
    ≡ parsed (record {
      requested = λ u. any (λ v. same_token v u) (profile ∷ security ∷ vehicles ∷ []);
      effective = λ u.
          any (λ v. same_token v u) (profile ∷ security ∷ vehicles ∷ []) && grants a_detailer u;
      skipped_for_role = λ u.
          any (λ v. same_token v u) (profile ∷ security ∷ vehicles ∷ [])
          && not (grants a_detailer u);
      sensitive = λ u.
          any (λ v. same_token v u) (profile ∷ security ∷ vehicles ∷ [])
          && (grants a_detailer u && is_sensitive u);
    })
parse-joined_example = parse-joined profile (security ∷ vehicles ∷ []) a_detailer
