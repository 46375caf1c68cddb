-- ===== src/Users/Favorites/Tests.antt =====
-- A client pins a detailer twice, and unpins.
use raycarwash_project.Base.{◌≡◌, refl, false, none, List, [], ◌∷◌, arith}
use raycarwash_project.Store.{http, err}
use raycarwash_project.Providers.Verification.{ProviderProfile, not_submitted}
use raycarwash_project.Users.Favorites.{
  FavoritesDb, favorite_added, favorite_removed, add_favorite, remove_favorite, add, remove,
}
use raycarwash_project.Users.Favorites.Trail.{
  FavoriteRequest, adds, removes, serve_all, Told, serve_all-Told,
}

abbrev a_profile : ProviderProfile
a_profile = record {
  id = 1;
  user_id = 2;
  verification_status = not_submitted;
  stripe_verification_session_id = none;
  details = none;
  background_check_consent_at = none;
  verification_submitted_at = none;
  verification_reviewed_at = none;
  rejection_reason = none;
  is_accepting_bookings = false;
}

abbrev no_pins : FavoritesDb
no_pins = record {
  users = record { id = 2; is_deleted = false } ∷ record { id = 3; is_deleted = false } ∷ [];
  profiles = a_profile ∷ [];
  favorites = [];
  audit = [];
}

abbrev taps : List FavoriteRequest
taps = adds 1 2 ∷ adds 1 2 ∷ adds 1 3 ∷ removes 1 2 ∷ removes 1 2 ∷ adds 1 2 ∷ []

tapped :
    ((serve_all taps no_pins).favorites ≡ record { user_id = 1; provider_user_id = 2 } ∷ [])
    × ((serve_all taps no_pins).audit
        ≡ favorite_added 1 2 ∷ favorite_removed 1 2 ∷ favorite_added 1 2 ∷ [])
unfolding add_favorite remove_favorite add remove
tapped = (refl, refl)

not_a_detailer : (add_favorite 1 3 no_pins).0 ≡ err (http 404)
unfolding add_favorite
not_a_detailer = refl

nothing-Told : Told no_pins
nothing-Told user provider = (omega arith, refl)

serve_all-Told_example : Told (serve_all taps no_pins)
serve_all-Told_example = serve_all-Told taps no_pins nothing-Told
