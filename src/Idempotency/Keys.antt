-- ===== src/Idempotency/Keys.antt =====
-- The key of the cache keeps users, methods and bodies apart.
use mathlib.Core.List.{append_assoc}
use raycarwash_project.Base.{
  ℕ, ◌≡◌, refl, sym, ◌∙◌, inl, inr, true, List, [], ◌∷◌, ◌++◌, arith, Bool-cases, Option, none,
  some, Option-cases, All, same_codes,
}
use raycarwash_project.Texts.{same_codes-eq}
use raycarwash_project.Catalog.{codes}
use raycarwash_project.Idempotency.{
  HttpRequest, HttpResponse, Cache, Write, Redis, is_idempotent_method, given_key,
  build_idempotency_v2_cache_key, hgetall, store, body_hash, cache_key, cacheable, dispatch,
}

abbrev pub HasNoColon : List ℕ → Type 0
HasNoColon s = All (λ c. ¬ (c ≡ b':')) s

cons-left : (c d : ℕ) (s t : List ℕ) → c ∷ s ≡ d ∷ t → c ≡ d
cons-left c d s t h = ground (arith, h)

cons-right : (c d : ℕ) (s t : List ℕ) → c ∷ s ≡ d ∷ t → s ≡ t
cons-right c d s t h = ground (arith, h)

-- Texts without a colon before the first one are the same, and so is what follows.
first_part :
    (u v x y : List ℕ)
    → HasNoColon u
    → HasNoColon v
    → u ++ b':' ∷ x ≡ v ++ b':' ∷ y
    → (u ≡ v) × (x ≡ y)
first_part [] [] x y p q h = (refl, cons-right b':' b':' x y h)
first_part [] (d ∷ v) x y p q h = absurd (q.0 (sym (cons-left b':' d x (v ++ b':' ∷ y) h)))
first_part (c ∷ u) [] x y p q h = absurd (p.0 (cons-left c b':' (u ++ b':' ∷ x) y h))
first_part (c ∷ u) (d ∷ v) x y p q h =
    let (same, rest) =
      first_part u v x y p.1 q.1 (cons-right c d (u ++ b':' ∷ x) (v ++ b':' ∷ y) h) in
    (rw (cons-left c d (u ++ b':' ∷ x) (v ++ b':' ∷ y) h, same) refl, rest)

no_colon_here : (s t u : List ℕ) → HasNoColon u → ¬ (s ++ b':' ∷ t ≡ u)
no_colon_here [] t [] p h = absurd (ground (arith, h))
no_colon_here [] t (d ∷ u) p h = p.0 (sym (cons-left b':' d t u h))
no_colon_here (c ∷ s) t [] p h = absurd (ground (arith, h))
no_colon_here (c ∷ s) t (d ∷ u) p h = no_colon_here s t u p.1 (cons-right c d (s ++ b':' ∷ t) u h)

last_part : (x y u v : List ℕ) → HasNoColon u → HasNoColon v → x ++ b':' ∷ u ≡ y ++ b':' ∷ v → u ≡ v
last_part [] [] u v p q h = cons-right b':' b':' u v h
last_part [] (d ∷ y) u v p q h =
    absurd (no_colon_here y v u p (sym (cons-right b':' d u (y ++ b':' ∷ v) h)))
last_part (c ∷ x) [] u v p q h =
    absurd (no_colon_here x u v q (cons-right c b':' (x ++ b':' ∷ u) v h))
last_part (c ∷ x) (d ∷ y) u v p q h =
    last_part x y u v p q (cons-right c d (x ++ b':' ∷ u) (y ++ b':' ∷ v) h)

without_prefix : (p x y : List ℕ) → p ++ x ≡ p ++ y → x ≡ y
without_prefix [] x y h = h
without_prefix (c ∷ p) x y h = without_prefix p x y (cons-right c c (p ++ x) (p ++ y) h)

-- The same key has the same user, method and digest.
same_parts :
    (u v m n p q k l g h : List ℕ)
    → HasNoColon u × HasNoColon m × HasNoColon g
    → HasNoColon v × HasNoColon n × HasNoColon h
    → build_idempotency_v2_cache_key u m p k g ≡ build_idempotency_v2_cache_key v n q l h
    → (u ≡ v) × (m ≡ n) × (g ≡ h)
unfolding build_idempotency_v2_cache_key
same_parts u v m n p q k l g h (pu, pm, pg) (qv, qn, qh) e =
    let (users, rest) = first_part u v _ _ pu qv (without_prefix (codes "idemp:v2:") _ _ e) in
    let (verbs, tails) = first_part m n _ _ pm qn rest in
    (
      users,
      verbs,
      last_part (p ++ b':' ∷ k) (q ++ b':' ∷ l) g h pg qh (
          append_assoc p (b':' ∷ k) (b':' ∷ g)
          ∙ tails
          ∙ sym (append_assoc q (b':' ∷ l) (b':' ∷ h))),
    )

module _ (digest : List ℕ → List ℕ) where
  abbrev pub HasCleanParts : HttpRequest → Type 0
  HasCleanParts req =
      HasNoColon req.user_id × HasNoColon req.http_method × HasNoColon (body_hash digest req.body)

  abbrev pub SameCaller : HttpRequest → HttpRequest → Type 0
  SameCaller req other =
      (req.user_id ≡ other.user_id)
      × (req.http_method ≡ other.http_method)
      × (body_hash digest req.body ≡ body_hash digest other.body)

store-other :
    (write : Write) (now later : ℕ) (k key : List ℕ) (r : HttpResponse) (cache : Cache)
    → ¬ (k ≡ key)
    → hgetall later k (store write now key r cache) ≡ hgetall later k cache
unfolding hgetall store
store-other write now later k key r cache differ = elim (Bool-cases (same_codes k key)) [
  | inl e ↦ absurd (differ (same_codes-eq k key e))
  | inr e ↦ rw e refl
]

module _ {S : Type 0} (digest : List ℕ → List ℕ) (recode : List ℕ → List ℕ)
    (route : HttpRequest → S → HttpResponse × S) where
  -- A request leaves the cache as it is, or stores a response under its own key.
  dispatch_cases :
      (P : Cache → Type 0) (o : Option Redis) (now : ℕ) (req : HttpRequest) (s : S) (cache : Cache)
      → P cache
      → ((write : Write) (key : List ℕ) (r : HttpResponse)
          → P (store write now (cache_key digest req key) r cache))
      → P (dispatch digest recode route o now req s cache).2
  unfolding dispatch
  dispatch_cases P o now req s cache kept stored =
      elim (Bool-cases (is_idempotent_method req.http_method)) [
        | inr e ↦ rw (e, dispatch) kept
        | inl e ↦ elim (Option-cases (given_key req.idempotency_key)) [
          | inl n ↦ rw (e, dispatch, n) kept
          | inr (key, g) ↦ keyed o key e g
        ]
      ]
    where
      keyed :
          (o : Option Redis) (key : List ℕ)
          → is_idempotent_method req.http_method ≡ true
          → given_key req.idempotency_key ≡ some key
          → P (dispatch digest recode route o now req s cache).2
      keyed none key e g = rw (e, dispatch, g) kept
      keyed (some redis) key e g = elim (Bool-cases redis.is_readable) [
        | inr down ↦ rw (e, dispatch, g, down) kept
        | inl up ↦ elim (Option-cases (hgetall now (cache_key digest req key) cache)) [
          | inr (r, hit) ↦ rw (e, dispatch, g, up, hit) kept
          | inl miss ↦ elim (Bool-cases (cacheable (route req s).0)) [
            | inr no_room ↦ rw (e, dispatch, g, up, miss, no_room) kept
            | inl fits ↦ rw (e, dispatch, g, up, miss, fits) (stored redis.write key _)
          ]
        ]
      ]

  -- When users, methods and digests have no colon: a request puts no response where a request of
  -- another user, with another method or with a body of another digest would find it, whatever their
  -- paths and idempotency keys, and whatever the calls of Redis come to.
  pub dispatch-other :
      (o : Option Redis) (now later : ℕ) (req other : HttpRequest) (key : List ℕ) (s : S)
      (cache : Cache)
      → HasCleanParts digest req
      → HasCleanParts digest other
      → ¬ (SameCaller digest req other)
      → hgetall later
          (cache_key digest other key)
          (dispatch digest recode route o now req s cache).2
        ≡ hgetall later (cache_key digest other key) cache
  dispatch-other o now later req other key s cache clean clean' differ =
      dispatch_cases
        (λ c.
          hgetall later (cache_key digest other key) c
          ≡ hgetall later (cache_key digest other key) cache)
        o now req s cache refl
        (λ w k r.
          store-other w now later (cache_key digest other key) (cache_key digest req k) r cache
            (λ e. differ (
              same_parts req.user_id other.user_id req.http_method other.http_method req.path
                other.path k key (body_hash digest req.body) (body_hash digest other.body) clean
                clean' (sym e))))
