-- ===== src/Idempotency.antt =====
-- IdempotencyMiddleware and resolve_idempotency of backend/app/core/idempotency.py, on a route that
-- opts in. A text is its code points. The digest of a body, the 16 hexadecimal digits of a SHA-256,
-- and `recode`, which decodes a body with replacement and encodes it again, are parameters; so is the
-- route, a function on a state. Whether a request finds a Redis, and what its calls come to, are
-- arguments of the request.
mod Replay
mod Keys
mod Tests
use raycarwash_project.Base.{
  ℕ, ◌+◌, ◌*◌, Bool, true, false, not, ◌&&◌, ◌||◌, Option, none, some, List, [], ◌∷◌, ◌++◌, ltb,
  leb, length, if◌then◌else◌, same_codes,
}
use raycarwash_project.Catalog.{codes}

pub record HttpRequest : Type 0 where
  pub user_id : List ℕ
  pub http_method : List ℕ
  pub path : List ℕ
  pub idempotency_key : Option (List ℕ)
  pub body : List ℕ

pub record HttpResponse : Type 0 where
  pub status_code : ℕ
  pub content : List ℕ
  pub content_type : List ℕ

-- a hash with the time of its expiry, none when it has none
abbrev pub Cache : Type 0
Cache = List ℕ → Option (Option ℕ × HttpResponse)

-- How a write ends: hset raises; hset stores and expire raises; both succeed.
pub data Write : Type 0 where
  hset_raised expire_raised written : Write

-- `request.app.state.redis` as a request meets it
pub record Redis : Type 0 where
  pub is_readable : Bool
  pub write : Write

-- _TTL_SECONDS and _MAX_BODY_BYTES
abbrev pub ttl_seconds : ℕ
ttl_seconds = 24 * 60 * 60

abbrev pub max_body_bytes : ℕ
max_body_bytes = 256 * 1024

-- _IDEMPOTENT_METHODS
abbrev pub is_idempotent_method : List ℕ → Bool
is_idempotent_method m =
    same_codes m (codes "POST")
    || (same_codes m (codes "PATCH")
        || (same_codes m (codes "PUT") || same_codes m (codes "DELETE")))

-- `if not key`
abbrev pub given_key : Option (List ℕ) → Option (List ℕ)
given_key none = none
given_key (some []) = none
given_key (some (c ∷ key)) = some (c ∷ key)

-- f"idemp:v2:{user_id}:{method}:{path}:{idempotency_key}:{body_hash}"
unfoldable pub build_idempotency_v2_cache_key : List ℕ → List ℕ → List ℕ → List ℕ → List ℕ → List ℕ
build_idempotency_v2_cache_key user verb path key hash =
    codes "idemp:v2:"
    ++ (user ++ (b':' ∷ (verb ++ (b':' ∷ (path ++ (b':' ∷ (key ++ (b':' ∷ hash))))))))

-- hgetall at a time
abbrev pub alive : ℕ → Option (Option ℕ × HttpResponse) → Option HttpResponse
alive now none = none
alive now (some (none, r)) = some r
alive now (some (some expires_at, r)) = if ltb now expires_at then some r else none

unfoldable pub hgetall : ℕ → List ℕ → Cache → Option HttpResponse
hgetall now key cache = alive now (cache key)

abbrev pub entry :
    Write → ℕ → HttpResponse → Option (Option ℕ × HttpResponse) → Option (Option ℕ × HttpResponse)
entry hset_raised now r old = old
entry expire_raised now r old = some (none, r)
entry written now r old = some (some (now + ttl_seconds), r)

-- hset and expire
unfoldable pub store : Write → ℕ → List ℕ → HttpResponse → Cache → Cache
store write now key r cache k = if same_codes k key then entry write now r (cache k) else cache k

module _ (digest : List ℕ → List ℕ) where
  abbrev pub body_hash : List ℕ → List ℕ
  body_hash [] = codes "empty"
  body_hash (c ∷ body) = digest (c ∷ body)

  abbrev pub cache_key : HttpRequest → List ℕ → List ℕ
  cache_key req key =
      build_idempotency_v2_cache_key req.user_id req.http_method req.path key (body_hash req.body)

abbrev pub cacheable : HttpResponse → Bool
cacheable r =
    leb 200 r.status_code && (ltb r.status_code 300 && leb (length r.content) max_body_bytes)

module _ {S : Type 0} (digest : List ℕ → List ℕ) (recode : List ℕ → List ℕ)
    (route : HttpRequest → S → HttpResponse × S) where
  -- the route runs, and its response is kept when it is a success that fits
  abbrev pub run_and_store :
      Write → ℕ → List ℕ → HttpResponse × S → Cache → HttpResponse × S × Cache
  run_and_store write now key (r, s) cache =
      let kept : HttpResponse = record r { content = recode r.content } in
      (r, s, (if cacheable r then store write now key kept cache else cache))

  abbrev pub replay_or_run :
      Write → ℕ → List ℕ → Option HttpResponse → HttpRequest → S → Cache → HttpResponse × S × Cache
  replay_or_run write now key (some r) req s cache = (r, s, cache)
  replay_or_run write now key none req s cache = run_and_store write now key (route req s) cache

  abbrev pub run_uncached : HttpRequest → S → Cache → HttpResponse × S × Cache
  run_uncached req s cache = let (r, s') = route req s in (r, s', cache)

  -- resolve_idempotency, the route, and the write: without a Redis, and when hgetall raises, no key is
  -- registered, and nothing is written
  abbrev pub with_key :
      Option Redis → ℕ → Option (List ℕ) → HttpRequest → S → Cache → HttpResponse × S × Cache
  with_key redis now none req s cache = run_uncached req s cache
  with_key none now (some key) req s cache = run_uncached req s cache
  with_key (some redis) now (some key) req s cache =
      if redis.is_readable
      then replay_or_run redis.write now (cache_key digest req key)
          (hgetall now (cache_key digest req key) cache) req s cache
      else run_uncached req s cache

  -- a request through the middleware: the response, the state and the cache
  unfoldable pub dispatch : Option Redis → ℕ → HttpRequest → S → Cache → HttpResponse × S × Cache
  dispatch redis now req s cache =
      if is_idempotent_method req.http_method
      then with_key redis now (given_key req.idempotency_key) req s cache
      else run_uncached req s cache
