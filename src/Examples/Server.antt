-- ===== src/Examples/Server.antt =====
-- server/public/cache.go and server/middleware/ratelimit.go, on a small cache and limiter.
use ho.Prelude.{ℕ, ◌+◌, ◌-◌, ◌*◌, ◌≤◌, ◌≡◌, refl, String, List, [], ◌∷◌, some, arith}
use ho.Prelude.Bytes.{Bytes, codes, decimal}
use ho.Server.Cache.{Cache, new_cache, get, set, cache_key}
use ho.Server.Cache.Laws.{store, write, run, apply, Stored, hit_after_write}
use ho.Server.RateLimit.{RateLimiter, new_rate_limiter, token}
use ho.Server.RateLimit.Bound.{passed, last_time, passed-le}

abbrev posts : Bytes
posts = codes "posts"

abbrev list : Bytes
list = codes "/api/posts"

abbrev page_2 : Bytes
page_2 = codes "page=2"

abbrev key : Bytes
key = cache_key 1 posts list page_2

abbrev filled : Cache
filled = set key (codes "[]") 200 5 10 new_cache

abbrev site : ℕ
site = 1

hit-stored :
    get key 12 (run (write 1 posts ∷ store key (codes "[]") 200 5 10 ∷ []) filled)
    ≡ some (codes "[]", 200)
unfolding run apply get set cache_key decimal
hit-stored = refl

hit_after_write_example : Stored key (codes "[]", 200) (store key (codes "[]") 200 5 10 ∷ [])
hit_after_write_example =
    hit_after_write 1 posts list page_2 (store key (codes "[]") 200 5 10 ∷ []) 12 filled
      (codes "[]", 200) hit-stored

abbrev limiter : RateLimiter
limiter = new_rate_limiter 5 10 0

abbrev burst : List (String × ℕ)
burst = ("10.0.0.1", 1) ∷ ("10.0.0.2", 1) ∷ ("10.0.0.1", 4) ∷ []

passed-le_example :
    passed "10.0.0.1" burst limiter * token ≤ 10 * token + (last_time 0 burst - 0) * 5
passed-le_example =
    passed-le "10.0.0.1" burst 0 limiter (omega arith)
      (omega arith, (omega arith, (omega arith, tt)))
