-- ===== src/Users/Favorites.antt =====
-- Pinned providers: FavoritesRepository of backend/domains/users/favorites_repository.py with the
-- endpoints of favorites_router.py. Listing, and the fields of the answers, are not modelled.
mod Trail
mod Tests
use raycarwash_project.Base.{
  ℕ, Bool, true, false, not, ◌&&◌, Option, none, some, List, [], ◌∷◌, ◌++◌, ◌==◌, if◌then◌else◌,
  any, find_where, select_where,
}
use raycarwash_project.Store.{Error, http, Result, ok, err}
use raycarwash_project.Rides.{scalar_one_or_none}
use raycarwash_project.Providers.Verification.{ProviderProfile, of_user}

pub record FavoriteUser : Type 0 where
  pub id : ℕ
  pub is_deleted : Bool

pub record ClientFavorite : Type 0 where
  pub user_id : ℕ
  pub provider_user_id : ℕ

-- the action, with the actor and the provider
pub data FavoriteAudit : Type 0 where
  favorite_added favorite_removed : (actor provider : ℕ) → FavoriteAudit

pub record FavoritesDb : Type 0 where
  pub users : List FavoriteUser
  pub profiles : List ProviderProfile
  pub favorites : List ClientFavorite
  pub audit : List FavoriteAudit

abbrev pub is_favorite : ℕ → ℕ → ClientFavorite → Bool
is_favorite user provider f = f.user_id == user && f.provider_user_id == provider

-- INSERT … ON CONFLICT DO NOTHING, and whether a row landed
unfoldable pub add : ℕ → ℕ → FavoritesDb → Bool × FavoritesDb
add user provider d = if any (is_favorite user provider) d.favorites then (false, d) else (
  true,
  record d {
    favorites = d.favorites ++ (record { user_id = user; provider_user_id = provider } ∷ []);
  },
)

unfoldable pub remove : ℕ → ℕ → FavoritesDb → Bool × FavoritesDb
remove user provider d = (
  any (is_favorite user provider) d.favorites,
  record d { favorites = select_where (λ f. not (is_favorite user provider f)) d.favorites },
)

-- a line of the log, if a row has changed
abbrev pub logged : FavoriteAudit → Bool × FavoritesDb → FavoritesDb
logged line (true, d) = record d { audit = d.audit ++ (line ∷ []) }
logged line (false, d) = d

unfoldable pub add_favorite : ℕ → ℕ → FavoritesDb → Result (Unit {0}) × FavoritesDb
add_favorite user provider d =
    elim (find_where (λ u. u.id == provider && not u.is_deleted) d.users) [
      | none ↦ (err (http 404), d)
      | some _ ↦ elim (scalar_one_or_none (of_user provider) d.profiles) [
        | err e ↦ (err e, d)
        | ok none ↦ (err (http 404), d)
        | ok (some _) ↦ (ok tt, logged (favorite_added user provider) (add user provider d))
      ]
    ]

unfoldable pub remove_favorite : ℕ → ℕ → FavoritesDb → Result (Unit {0}) × FavoritesDb
remove_favorite user provider d =
    (ok tt, logged (favorite_removed user provider) (remove user provider d))
