-- ===== src/Idempotency/Replay.antt =====
-- A request that is sent again.
use raycarwash_project.Base.{
  ℕ, ◌+◌, ◌<◌, ◌≡◌, refl, ◌∙◌, ap, true, false, Option, none, some, inl, inr, Bool-cases,
  Option-cases, List, arith, ltb,
}
use raycarwash_project.Texts.{same_codes_refl}
use raycarwash_project.Idempotency.{
  HttpRequest, HttpResponse, Cache, written, Redis, ttl_seconds, is_idempotent_method, given_key,
  hgetall, store, cache_key, cacheable, dispatch,
}

-- There is no Redis, or it cannot be read.
abbrev pub IsDown : Option Redis → Type 0
IsDown none = Unit
IsDown (some redis) = redis.is_readable ≡ false

module _ {S : Type 0} (digest : List ℕ → List ℕ) (recode : List ℕ → List ℕ)
    (route : HttpRequest → S → HttpResponse × S) where
  stored :
      (redis : Redis) (now : ℕ) (req : HttpRequest) (key : List ℕ) (s : S) (cache : Cache)
      → redis.is_readable ≡ true
      → is_idempotent_method req.http_method ≡ true
      → given_key req.idempotency_key ≡ some key
      → hgetall now (cache_key digest req key) cache ≡ none
      → cacheable (route req s).0 ≡ true
      → recode (route req s).0.content ≡ (route req s).0.content
      → (dispatch digest recode route (some redis) now req s cache).2
        ≡ store redis.write now (cache_key digest req key) (route req s).0 cache
  unfolding dispatch
  stored redis now req key s cache up verb given miss fits text =
      rw (verb, dispatch, given, up, miss, fits, text) refl

  hgetall-store :
      (now later : ℕ) (key : List ℕ) (r : HttpResponse) (cache : Cache)
      → later < now + ttl_seconds
      → hgetall later key (store written now key r cache) ≡ some r
  unfolding hgetall store
  hgetall-store now later key r cache soon =
      let alive : ltb later (now + ttl_seconds) ≡ true = ground (arith, soon) in
      rw (same_codes_refl key, alive) refl

  replayed :
      (redis : Redis) (now : ℕ) (req : HttpRequest) (key : List ℕ) (r : HttpResponse) (s : S)
      (cache : Cache)
      → redis.is_readable ≡ true
      → is_idempotent_method req.http_method ≡ true
      → given_key req.idempotency_key ≡ some key
      → hgetall now (cache_key digest req key) cache ≡ some r
      → dispatch digest recode route (some redis) now req s cache ≡ (r, s, cache)
  unfolding dispatch
  replayed redis now req key r s cache up verb given hit = rw (verb, dispatch, given, up, hit) refl

  -- A Redis that is not there or not readable leaves the route to run.
  run_open :
      (o : Option Redis) (now : ℕ) (req : HttpRequest) (s : S) (cache : Cache)
      → IsDown o
      → dispatch digest recode route o now req s cache ≡ ((route req s).0, (route req s).1, cache)
  unfolding dispatch
  run_open o now req s cache down = elim (Bool-cases (is_idempotent_method req.http_method)) [
    | inr e ↦ rw (e, dispatch) refl
    | inl e ↦ elim (Option-cases (given_key req.idempotency_key)) [
      | inl n ↦ rw (e, dispatch, n) refl
      | inr (key, g) ↦ keyed o key down e g
    ]
  ]
    where
      keyed :
          (o : Option Redis) (key : List ℕ)
          → IsDown o
          → is_idempotent_method req.http_method ≡ true
          → given_key req.idempotency_key ≡ some key
          → dispatch digest recode route o now req s cache
            ≡ ((route req s).0, (route req s).1, cache)
      keyed none key down e g = rw (e, dispatch, g) refl
      keyed (some redis) key down e g = rw (e, dispatch, g, down) refl

  -- On a route that depends on resolve_idempotency, a keyed request that finds nothing in a Redis that
  -- reads and writes, and succeeds with a response that fits and is text, sent again within a day,
  -- whatever the state is then: with a Redis that can be read it gets that very response, and runs
  -- nothing; without a Redis, or with one that cannot be read, the route runs again.
  pub dispatch_again :
      (redis again : Redis) (down : Option Redis) (now later : ℕ) (req : HttpRequest) (key : List ℕ)
      (s t : S) (cache : Cache)
      → redis.is_readable ≡ true
      → redis.write ≡ written
      → again.is_readable ≡ true
      → IsDown down
      → is_idempotent_method req.http_method ≡ true
      → given_key req.idempotency_key ≡ some key
      → hgetall now (cache_key digest req key) cache ≡ none
      → cacheable (route req s).0 ≡ true
      → recode (route req s).0.content ≡ (route req s).0.content
      → later < now + ttl_seconds
      → let kept = (dispatch digest recode route (some redis) now req s cache).2 in
        (dispatch digest recode route (some again) later req t kept ≡ ((route req s).0, t, kept))
        × (dispatch digest recode route down later req t kept
            ≡ ((route req t).0, (route req t).1, kept))
  dispatch_again redis again down now later req key s t cache up writes up' lost verb given miss
        fits text soon =
      let kept = stored redis now req key s cache up verb given miss fits text in
      let cached = (dispatch digest recode route (some redis) now req s cache).2 in
      (
        replayed again later req key (route req s).0 t cached up' verb given (
            ap (hgetall later (cache_key digest req key)) kept
            ∙ ap
                (λ w.
                  hgetall later (cache_key digest req key)
                    (store w now (cache_key digest req key) (route req s).0 cache))
                writes
            ∙ hgetall-store now later (cache_key digest req key) (route req s).0 cache soon),
        run_open down later req t cached lost,
      )
