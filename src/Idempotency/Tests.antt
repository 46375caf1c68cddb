-- ===== src/Idempotency/Tests.antt =====
-- A counter behind the middleware.
use raycarwash_project.Base.{ℕ, suc, ◌≡◌, refl, true, false, none, some, List, [], ◌∷◌, arith}
use raycarwash_project.Catalog.{codes}
use raycarwash_project.Idempotency.{
  HttpRequest, HttpResponse, Cache, expire_raised, written, Redis, hgetall, cache_key, store,
  build_idempotency_v2_cache_key, dispatch,
}
use raycarwash_project.Idempotency.Replay.{dispatch_again}
use raycarwash_project.Idempotency.Keys.{dispatch-other}

-- a stand-in for the digest, which does not read the body
abbrev one_digest : List ℕ → List ℕ
one_digest body = codes "d"

abbrev as_it_is : List ℕ → List ℕ
as_it_is content = content

abbrev counter : HttpRequest → ℕ → HttpResponse × ℕ
counter req n =
    (record { status_code = 200; content = n ∷ []; content_type = codes "text/plain" }, suc n)

abbrev cash_out : HttpRequest
cash_out = record {
  user_id = codes "u1";
  http_method = codes "POST";
  path = codes "/cash-out";
  idempotency_key = some (codes "k");
  body = codes "{}";
}

abbrev by_another : HttpRequest
by_another = record cash_out { user_id = codes "u2" }

abbrev nothing_cached : Cache
nothing_cached key = none

abbrev working : Redis
working = record { is_readable = true; write = written }

abbrev unreadable : Redis
unreadable = record { is_readable = false; write = written }

-- expire raised: the response is replayed after a day as well
abbrev without_expiry : Redis
without_expiry = record { is_readable = true; write = expire_raised }

expire_raised_test :
    (dispatch one_digest as_it_is counter
      (some working)
      90000
      cash_out
      9
      (dispatch one_digest as_it_is counter (some without_expiry) 10 cash_out 0 nothing_cached).2).1
    ≡ 9
unfolding dispatch hgetall store build_idempotency_v2_cache_key
expire_raised_test = refl

abbrev cached : Cache
cached = (dispatch one_digest as_it_is counter (some working) 10 cash_out 0 nothing_cached).2

dispatch_again_example :
    (dispatch one_digest as_it_is counter (some working) 50 cash_out 9 cached
      ≡ ((counter cash_out 0).0, 9, cached))
    × (dispatch one_digest as_it_is counter (some unreadable) 50 cash_out 9 cached
        ≡ ((counter cash_out 9).0, 10, cached))
unfolding hgetall
dispatch_again_example =
    dispatch_again one_digest as_it_is counter working working (some unreadable) 10 50 cash_out
      (codes "k") 0 9 nothing_cached refl refl refl refl refl refl refl refl refl (omega arith)

dispatch-other_example :
    hgetall 50
      (cache_key one_digest by_another (codes "k"))
      (dispatch one_digest as_it_is counter (some working) 10 cash_out 0 nothing_cached).2
    ≡ hgetall 50 (cache_key one_digest by_another (codes "k")) nothing_cached
dispatch-other_example =
    dispatch-other one_digest as_it_is counter (some working) 10 50 cash_out by_another (codes "k")
      0 nothing_cached (ground arith) (ground arith) (λ same. ground (arith, same.0))
