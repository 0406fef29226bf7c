-- ===== src/Server/RateLimit.antt =====
-- server/middleware/ratelimit.go: the token bucket of each client address. The code counts tokens in
-- float64; here a token is 10^9 units, so that the refill of a whole number of tokens a second over
-- whole nanoseconds is exact. A time is a number of nanoseconds of the monotonic clock.
pub mod Bound
use ho.Prelude.{
  ℕ, ◌+◌, ◌-◌, ◌*◌, ◌<◌, String, Bool, true, false, Option, none, some, ltb, str_eq, if◌then◌else◌,
}

pub record Bucket : Type 0 where
  pub tokens : ℕ
  pub last_check : ℕ

-- The map of buckets is a function of the address.
pub record RateLimiter : Type 0 where
  pub buckets : String → Option Bucket
  pub rate : ℕ  -- tokens a second
  pub burst : ℕ  -- tokens
  pub last_sweep : ℕ

abbrev pub token : ℕ
token = 1000000000

abbrev pub minute : ℕ
minute = 60000000000

-- NewRateLimiter
abbrev pub new_rate_limiter : ℕ → ℕ → ℕ → RateLimiter
new_rate_limiter rate burst now = record {
  buckets = λ ip. none;
  rate = rate;
  burst = burst;
  last_sweep = now;
}

abbrev pub keep_recent : ℕ → Option Bucket → Option Bucket
keep_recent now none = none
keep_recent now (some b) = if ltb (2 * minute) (now - b.last_check) then none else some b

-- The sweep of stale entries, every minute.
unfoldable pub sweep : ℕ → RateLimiter → RateLimiter
sweep now rl =
    if ltb minute (now - rl.last_sweep)
    then record rl { buckets = λ ip. keep_recent now (rl.buckets ip); last_sweep = now }
    else rl

-- The burst, in units.
abbrev pub capacity : RateLimiter → ℕ
capacity rl = rl.burst * token

abbrev pub or_new : ℕ → ℕ → Option Bucket → Bucket
or_new cap now none = record { tokens = cap; last_check = now }
or_new cap now (some b) = b

-- The tokens after the refill, no more than the burst.
unfoldable pub refill : ℕ → ℕ → ℕ → Bucket → ℕ
refill cap rate now b =
    let tokens = b.tokens + (now - b.last_check) * rate in if ltb cap tokens then cap else tokens

abbrev pub put : String → Bucket → RateLimiter → RateLimiter
put ip b rl = record rl { buckets = λ j. if str_eq ip j then some b else rl.buckets j }

unfoldable pub take_token : String → ℕ → ℕ → RateLimiter → RateLimiter × Bool
take_token ip now tokens rl =
    if ltb tokens token
    then (put ip (record { tokens = tokens; last_check = now }) rl, false)
    else (put ip (record { tokens = tokens - token; last_check = now }) rl, true)

unfoldable pub allow : String → ℕ → RateLimiter → RateLimiter × Bool
allow ip now rl =
    let swept = sweep now rl in
    let b = or_new (capacity swept) now (swept.buckets ip) in
    take_token ip now (refill (capacity swept) swept.rate now b) swept
