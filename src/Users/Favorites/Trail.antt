-- ===== src/Users/Favorites/Trail.antt =====
-- The log tells what is pinned.
use raycarwash_project.Base.{
  ℕ, ◌+◌, ◌≤◌, ◌≡◌, refl, inl, inr, Bool, true, false, not, ◌&&◌, List, [], ◌∷◌, arith, ◌==◌,
  Bool-cases, Option-cases, if◌then◌else◌, any, count_where, find_where, select_where,
}
use raycarwash_project.Store.{Result-cases}
use raycarwash_project.Rides.{scalar_one_or_none}
use raycarwash_project.Providers.Verification.{of_user}
use raycarwash_project.Users.Defaults.Counts.{count-append_one, any-count, any-none, one_if}
use raycarwash_project.Users.Favorites.{
  ClientFavorite, FavoriteAudit, favorite_added, favorite_removed, FavoritesDb, is_favorite, add,
  remove, logged, add_favorite, remove_favorite,
}

pub data FavoriteRequest : Type 0 where
  adds removes : (user provider : ℕ) → FavoriteRequest

-- A request that is refused has changed nothing.
abbrev pub serve : FavoriteRequest → FavoritesDb → FavoritesDb
serve (adds user provider) d = (add_favorite user provider d).1
serve (removes user provider) d = (remove_favorite user provider d).1

abbrev pub serve_all : List FavoriteRequest → FavoritesDb → FavoritesDb
serve_all [] d = d
serve_all (r ∷ rs) d = serve_all rs (serve r d)

abbrev is_added : ℕ → ℕ → FavoriteAudit → Bool
is_added user provider (favorite_added u p) = u == user && p == provider
is_added user provider (favorite_removed u p) = false

abbrev is_removed : ℕ → ℕ → FavoriteAudit → Bool
is_removed user provider (favorite_added u p) = false
is_removed user provider (favorite_removed u p) = u == user && p == provider

-- the rows of a user and a provider
abbrev pub pins : ℕ → ℕ → FavoritesDb → ℕ
pins user provider d = count_where (is_favorite user provider) d.favorites

-- A provider is pinned once or not at all, and as often as the log has more additions than removals.
abbrev pub Told : FavoritesDb → Type 0
Told d =
    (user provider : ℕ)
    → (pins user provider d ≤ 1)
      × (count_where (is_added user provider) d.audit
          ≡ count_where (is_removed user provider) d.audit + pins user provider d)

count-removed :
    (u p user provider : ℕ) (xs : List ClientFavorite)
    → count_where (is_favorite user provider) (select_where (λ f. not (is_favorite u p f)) xs)
      ≡ (if u == user && p == provider then 0 else count_where (is_favorite user provider) xs)
count-removed u p user provider [] = ground arith
count-removed u p user provider (x ∷ xs) =
    let rest = count-removed u p user provider xs in
    elim (Bool-cases (is_favorite u p x)) [
      | inl e ↦ rw e (ground (arith, e, rest))
      | inr e ↦ rw e (ground (arith, e, rest))
    ]

add-Told : (u p : ℕ) (d : FavoritesDb) → Told d → Told (logged (favorite_added u p) (add u p d))
unfolding add
add-Told u p d h user provider = elim (Bool-cases (any (is_favorite u p) d.favorites)) [
  | inl old ↦ rw (old, add, logged) (h user provider)
  | inr new ↦
      let (one, told) = h user provider in
      let row : ClientFavorite = record { user_id = u; provider_user_id = p } in
      let rows = count-append_one (is_favorite user provider) d.favorites row in
      let more = count-append_one (is_added user provider) d.audit (favorite_added u p) in
      let same = count-append_one (is_removed user provider) d.audit (favorite_added u p) in
      rw (new, add, logged)
        (elim (Bool-cases (u == user && p == provider)) [
          | inl e ↦
              let u_is : u ≡ user = ground (arith, e) in
              let p_is : p ≡ provider = ground (arith, e) in
              let no_row : pins user provider d ≡ 0 =
                any-none (is_favorite user provider) d.favorites (rw (u_is, p_is) at new) in
              let one_more : one_if (u == user && p == provider) ≡ 1 = rw e refl in
              (
                omega (arith, rows, no_row, one_more),
                omega (arith, rows, more, same, told, one_more),
              )
          | inr e ↦
              let no_more : one_if (u == user && p == provider) ≡ 0 = rw e refl in
              (omega (arith, rows, one, no_more), omega (arith, rows, more, same, told, no_more))
        ])
]

-- What is left of the rows of a pair when those of another, or of the same, are deleted.
abbrev left_over : ℕ → ℕ → ℕ → ℕ → FavoritesDb → ℕ
left_over u p user provider d = if u == user && p == provider then 0 else pins user provider d

remove_absent-Told :
    (u p : ℕ) (d : FavoritesDb)
    → any (is_favorite u p) d.favorites ≡ false
    → Told d
    → Told (logged (favorite_removed u p) (remove u p d))
unfolding remove
remove_absent-Told u p d absent h user provider =
    let (one, told) = h user provider in
    let rows = count-removed u p user provider d.favorites in
    rw (remove, absent, logged)
      (elim (Bool-cases (u == user && p == provider)) [
        | inl e ↦
            let u_is : u ≡ user = ground (arith, e) in
            let p_is : p ≡ provider = ground (arith, e) in
            let no_row : pins user provider d ≡ 0 =
              any-none (is_favorite user provider) d.favorites (rw (u_is, p_is) at absent) in
            let gone : left_over u p user provider d ≡ 0 = rw e refl in
            (omega (arith, rows, gone), omega (arith, rows, gone, told, no_row))
        | inr e ↦
            let kept : left_over u p user provider d ≡ pins user provider d = rw e refl in
            (omega (arith, rows, kept, one), omega (arith, rows, kept, told))
      ])

remove_pinned-Told :
    (u p : ℕ) (d : FavoritesDb)
    → any (is_favorite u p) d.favorites ≡ true
    → Told d
    → Told (logged (favorite_removed u p) (remove u p d))
unfolding remove
remove_pinned-Told u p d pinned h user provider =
    let (one, told) = h user provider in
    let rows = count-removed u p user provider d.favorites in
    let same = count-append_one (is_added user provider) d.audit (favorite_removed u p) in
    let more = count-append_one (is_removed user provider) d.audit (favorite_removed u p) in
    rw (remove, pinned, logged)
      (elim (Bool-cases (u == user && p == provider)) [
        | inl e ↦
            let u_is : u ≡ user = ground (arith, e) in
            let p_is : p ≡ provider = ground (arith, e) in
            let a_row : 1 ≤ pins user provider d =
              any-count (is_favorite user provider) d.favorites (rw (u_is, p_is) at pinned) in
            let gone : left_over u p user provider d ≡ 0 = rw e refl in
            let one_more : one_if (u == user && p == provider) ≡ 1 = rw e refl in
            (
              omega (arith, rows, gone),
              omega (arith, rows, gone, more, same, told, one_more, a_row, one),
            )
        | inr e ↦
            let kept : left_over u p user provider d ≡ pins user provider d = rw e refl in
            let no_more : one_if (u == user && p == provider) ≡ 0 = rw e refl in
            (omega (arith, rows, kept, one), omega (arith, rows, kept, more, same, told, no_more))
      ])

remove-Told :
    (u p : ℕ) (d : FavoritesDb) → Told d → Told (logged (favorite_removed u p) (remove u p d))
remove-Told u p d h = elim (Bool-cases (any (is_favorite u p) d.favorites)) [
  | inl pinned ↦ remove_pinned-Told u p d pinned h
  | inr absent ↦ remove_absent-Told u p d absent h
]

add_favorite-Told :
    (user provider : ℕ) (d : FavoritesDb) → Told d → Told (add_favorite user provider d).1
unfolding add_favorite
add_favorite-Told user provider d h =
    elim (Option-cases (find_where (λ u. u.id == provider && not u.is_deleted) d.users)) [
      | inl n ↦ rw (n, add_favorite) h
      | inr (u, e) ↦ elim (Result-cases (scalar_one_or_none (of_user provider) d.profiles)) [
        | inr (x, f) ↦ rw (e, add_favorite, f) h
        | inl (found, f) ↦ elim (Option-cases found) [
          | inl n ↦ rw (e, add_favorite, f, n) h
          | inr (p, s) ↦ rw (e, add_favorite, f, s) (add-Told user provider d h)
        ]
      ]
    ]

-- If every provider is pinned by a user once or not at all, and as often as the log has more additions
-- than removals of the two, that is so after any sequence of requests to pin and unpin, repeated ones and
-- refused ones included.
pub serve_all-Told : (rs : List FavoriteRequest) (d : FavoritesDb) → Told d → Told (serve_all rs d)
unfolding remove_favorite
serve_all-Told [] d h = h
serve_all-Told (adds user provider ∷ rs) d h =
    serve_all-Told rs (add_favorite user provider d).1 (add_favorite-Told user provider d h)
serve_all-Told (removes user provider ∷ rs) d h =
    serve_all-Told rs (remove_favorite user provider d).1 (remove-Told user provider d h)
