-- ===== src/Server/RateLimit/Bound.antt =====
-- server/middleware/ratelimit.go: how many requests of one client pass.
use native.Mathlib.Nat.{mul-le-mul_right, add-mul}
use ho.Prelude.{
  ℕ, ◌+◌, ◌-◌, ◌*◌, ◌≤◌, ◌<◌, ◌≡◌, ◌↔◌, ◌∙◌, sym, ap, refl, String, Bool, true, inl, inr, List, [],
  ◌∷◌, Option, none, some, ltb, str_eq, eq_iff, if◌then◌else◌, Bool-cases, arith,
}
use ho.Server.RateLimit.{
  Bucket, RateLimiter, token, minute, keep_recent, sweep, or_new, refill, capacity, take_token,
  allow,
}

-- The tokens that a request of the client would find at a time, before it takes one.
unfoldable pub level : RateLimiter → String → ℕ → ℕ
level rl ip now = refill (capacity rl) rl.rate now (or_new (capacity rl) now (rl.buckets ip))

idle_fills : (e rate : ℕ) → 2 * minute < e → 2 * minute * rate ≤ e * rate
idle_fills e rate h = mul-le-mul_right rate (omega arith)

refill-keep :
    (cap rate now : ℕ) (o : Option Bucket)
    → cap ≤ 2 * minute * rate
    → refill cap rate now (or_new cap now (keep_recent now o))
      ≡ refill cap rate now (or_new cap now o)
unfolding refill
refill-keep cap rate now none h = refl
refill-keep cap rate now (some b) h = ground (arith, idle_fills (now - b.last_check) rate)

-- A bucket that is swept would have been full again.
abbrev pub Refills : RateLimiter → Type 0
Refills rl = capacity rl ≤ 2 * minute * rl.rate

level-sweep :
    (rl : RateLimiter) (ip : String) (now : ℕ)
    → Refills rl
    → level (sweep now rl) ip now ≡ level rl ip now
unfolding level sweep
level-sweep rl ip now h = elim (Bool-cases (ltb minute (now - rl.last_sweep))) [
  | inl e ↦ rw e (refill-keep (capacity rl) rl.rate now (rl.buckets ip) h)
  | inr e ↦ rw e
]

elapsed : (now t last rate : ℕ) → (now - last) * rate ≤ (t - last) * rate + (now - t) * rate
elapsed now t last rate =
    let k : (now - last) * rate ≤ ((t - last) + (now - t)) * rate =
      mul-le-mul_right rate (omega arith) in
    rw add-mul at k

refill-later :
    (cap rate t now : ℕ) (o : Option Bucket)
    → t ≤ now
    → refill cap rate now (or_new cap now o) ≤ refill cap rate t (or_new cap t o) + (now - t) * rate
unfolding refill
refill-later cap rate t now none h = ground arith
refill-later cap rate t now (some b) h = ground (arith, elapsed now t b.last_check rate)

refill_le : (cap rate now : ℕ) (b : Bucket) → refill cap rate now b ≤ cap
unfolding refill
refill_le cap rate now b = ground arith

refill_now :
    (cap rate now tokens : ℕ)
    → tokens ≤ cap
    → refill cap rate now (record { tokens = tokens; last_check = now }) ≡ tokens
unfolding refill
refill_now cap rate now tokens h = ground arith

-- A token for the client whose request passed.
abbrev pub cost : String → String → Bool → ℕ
cost ip j passed = if str_eq ip j then (if passed then token else 0) else 0

take_token-level :
    (ip j : String) (now tokens : ℕ) (rl : RateLimiter)
    → tokens ≤ capacity rl
    → tokens ≡ level rl ip now
    → level (take_token ip now tokens rl).0 j now + cost ip j (take_token ip now tokens rl).1
      ≡ level rl j now
unfolding take_token level
take_token-level ip j now tokens rl h e = elim (Bool-cases (str_eq ip j)) [
  | inr other ↦ ground arith
  | inl this ↦ ground (
    arith,
    eq_iff ip j,
    refill_now (capacity rl) rl.rate now tokens h,
    refill_now (capacity rl) rl.rate now (tokens - token) (omega arith),
  )
]

-- What no operation changes.
abbrev Same : RateLimiter → RateLimiter → Type 0
Same rl rl' = (rl'.rate ≡ rl.rate) × (rl'.burst ≡ rl.burst)

sweep-Same : (now : ℕ) (rl : RateLimiter) → Same rl (sweep now rl)
unfolding sweep
sweep-Same now rl = ground arith

allow-Same : (ip : String) (now : ℕ) (rl : RateLimiter) → Same rl (allow ip now rl).0
unfolding allow take_token
allow-Same ip now rl = ground (arith, sweep-Same now rl)

-- A request costs its own client a token if it passes, and no other client anything.
pub level-allow :
    (ip j : String) (now : ℕ) (rl : RateLimiter)
    → Refills rl
    → level (allow ip now rl).0 j now + cost ip j (allow ip now rl).1 ≡ level rl j now
unfolding allow level
level-allow ip j now rl h =
    take_token-level ip j now (level (sweep now rl) ip now) (sweep now rl) (refill_le _ _ _ _) refl
    ∙ level-sweep rl j now h

take_token_iff :
    (ip : String) (now tokens : ℕ) (rl : RateLimiter)
    → ((take_token ip now tokens rl).1 ≡ true) ↔ (token ≤ tokens)
unfolding take_token
take_token_iff ip now tokens rl = ground arith

-- A request passes exactly if its client has a whole token by then.
pub allow_iff :
    (ip : String) (now : ℕ) (rl : RateLimiter)
    → Refills rl
    → ((allow ip now rl).1 ≡ true) ↔ (token ≤ level rl ip now)
unfolding allow level
allow_iff ip now rl h =
    rw (← level-sweep rl ip now h)
      (take_token_iff ip now (level (sweep now rl) ip now) (sweep now rl))

-- Requests, each by a client at a time, in the order of their times.
abbrev pub InOrder : ℕ → List (String × ℕ) → Type 0
InOrder t [] = Unit
InOrder t ((ip, now) ∷ reqs) = (t ≤ now) × InOrder now reqs

abbrev pub last_time : ℕ → List (String × ℕ) → ℕ
last_time t [] = t
last_time t ((ip, now) ∷ reqs) = last_time now reqs

-- How many requests of the client pass.
unfoldable pub passed : String → List (String × ℕ) → RateLimiter → ℕ
passed j [] rl = 0
passed j ((ip, now) ∷ reqs) rl =
    let (rl', ok) = allow ip now rl in
    (if str_eq ip j then (if ok then 1 else 0) else 0) + passed j reqs rl'

last_time-le : (t : ℕ) (reqs : List (String × ℕ)) → InOrder t reqs → t ≤ last_time t reqs
last_time-le t [] h = omega arith
last_time-le t ((ip, now) ∷ reqs) h = omega (arith, last_time-le now reqs h.1)

level-later :
    (rl : RateLimiter) (ip : String) (t now : ℕ)
    → t ≤ now
    → level rl ip now ≤ level rl ip t + (now - t) * rl.rate
unfolding level
level-later rl ip t now h = refill-later (capacity rl) rl.rate t now (rl.buckets ip) h

span : (a b c rate : ℕ) → a ≤ b → b ≤ c → (b - a) * rate + (c - b) * rate ≡ (c - a) * rate
span a b c rate h k = sym (add-mul (b - a) (c - b) rate) ∙ ap (λ (x : ℕ). x * rate) (omega arith)

-- The sum of one request and the later ones.
sum_up :
    (n l l' l0 a b c : ℕ) (mine ok : Bool)
    → n * token ≤ l' + a
    → l' + (if mine then (if ok then token else 0) else 0) ≡ l
    → l ≤ l0 + b
    → b + a ≡ c
    → ((if mine then (if ok then 1 else 0) else 0) + n) * token ≤ l0 + c
sum_up n l l' l0 a b c mine ok h1 h2 h3 h4 = ground arith

passed-level :
    (j : String) (reqs : List (String × ℕ)) (t : ℕ) (rl : RateLimiter)
    → Refills rl
    → InOrder t reqs
    → passed j reqs rl * token ≤ level rl j t + (last_time t reqs - t) * rl.rate
unfolding passed
passed-level j [] t rl f h = omega arith
passed-level j ((ip, now) ∷ reqs) t rl f (le, h) =
    let rl' : RateLimiter = (allow ip now rl).0 in
    let same : Same rl rl' = allow-Same ip now rl in
    let f' : Refills rl' = ground (arith, same) in
    let ih = passed-level j reqs now rl' f' h in
    let ih' : passed j reqs rl' * token ≤ level rl' j now + (last_time now reqs - now) * rl.rate =
      rw same.0 at ih in
    sum_up _ _ _ _ _ _ _ (str_eq ip j) (allow ip now rl).1 ih' (level-allow ip j now rl f)
      (level-later rl j t now le)
      (span t now (last_time now reqs) rl.rate le (last_time-le now reqs h))

level_le : (rl : RateLimiter) (ip : String) (now : ℕ) → level rl ip now ≤ capacity rl
unfolding level
level_le rl ip now = refill_le _ _ _ _

-- Of the requests in a span of time, whoever else asks in between, no more of one client pass than the burst and what the rate gives over the span. The limiter's buckets fill within two minutes.
pub passed-le :
    (j : String) (reqs : List (String × ℕ)) (t : ℕ) (rl : RateLimiter)
    → Refills rl
    → InOrder t reqs
    → passed j reqs rl * token ≤ rl.burst * token + (last_time t reqs - t) * rl.rate
passed-le j reqs t rl f h = omega (arith, passed-level j reqs t rl f h, level_le rl j t)
