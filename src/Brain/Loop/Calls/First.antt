-- ===== src/Brain/Loop/Calls/First.antt =====
-- Which answer the calls of a model give, and how long they take (brain/tool_loop.go).
use ho.Brain.Loop.{Reply}
use ho.Brain.Loop.Calls.{
  Attempt, Ended, is_timeout, is_connection, is_rate_limit, backoff, after_wait, after_call,
  attempts, call_with_retry_on_provider, prefer, with_fallback, after_primary, call_with_retry,
}
use ho.Prelude.{
  ℕ, zero, suc, ◌+◌, ◌*◌, ◌≤◌, ◌≡◌, refl, sym, inl, inr, Bool, false, Option, none, some,
}
use ho.Prelude.{subst, [], ◌||◌, arith, Bool-cases}
use ho.Prelude.Bytes.{Bytes}
use ho.Prelude.Result.{Result, err, ok}

-- The first answer of the two that is no error, the second error if there is none.
abbrev pub or_else : Result Bytes Reply → Result Bytes Reply → Result Bytes Reply
or_else (ok r) other = ok r
or_else (err e) other = other

-- The first answer of three attempts that is no error, the last error if there is none.
abbrev pub first_answer : (ℕ → Attempt) → Result Bytes Reply
first_answer p = or_else (p 0).answer (or_else (p 1).answer (p 2).answer)

abbrev pub IsTransient : Result Bytes Reply → Type 0
IsTransient (ok r) = Unit
IsTransient (err e) = is_connection e ≡ false

-- The context does not end, and no attempt fails to connect.
abbrev pub IsSteady : (ℕ → Attempt) → Type 0
IsSteady p =
    (k : ℕ) → ((p k).cancelled ≡ false) × ((p k).interrupted ≡ none) × IsTransient (p k).answer

after_call-result :
    (rest : Bytes → ℕ → Ended) (k : ℕ) (a : Attempt) (waited : ℕ) (r other : Result Bytes Reply)
    → a.cancelled ≡ false
    → a.interrupted ≡ none
    → IsTransient r
    → ((e : Bytes) (w : ℕ) → (rest e w).result ≡ other)
    → (after_call rest k a waited r).result ≡ or_else r other
after_call-result rest k a waited (ok r) other c i t h = refl
after_call-result rest k a waited (err e) other c i t h = rw (c, i, t) (h e (waited + backoff k e))

after_call-last :
    (rest : Bytes → ℕ → Ended) (k : ℕ) (a : Attempt) (waited : ℕ) (r : Result Bytes Reply)
    → a.cancelled ≡ false
    → a.interrupted ≡ none
    → IsTransient r
    → ((e : Bytes) (w : ℕ) → (rest e w).result ≡ err e)
    → (after_call rest k a waited r).result ≡ r
after_call-last rest k a waited (ok r) c i t h = refl
after_call-last rest k a waited (err e) c i t h = rw (c, i, t) (h e (waited + backoff k e))

call_with_retry_on_provider-first_answer :
    (p : ℕ → Attempt) → IsSteady p → (call_with_retry_on_provider p).result ≡ first_answer p
unfolding attempts
call_with_retry_on_provider-first_answer p s =
    after_call-result (attempts p 2 1) 0 (p 0) 0 (p 0).answer (or_else (p 1).answer (p 2).answer)
      (s 0).0 (s 0).1 (s 0).2
      (λ e w.
        after_call-result (attempts p 1 2) 1 (p 1) w (p 1).answer (p 2).answer (s 1).0 (s 1).1
          (s 1).2
          (λ f v.
            after_call-last (attempts p 0 3) 2 (p 2) v (p 2).answer (s 2).0 (s 2).1 (s 2).2
              (λ g u. refl)))

after_call-gone :
    (rest : Bytes → ℕ → Ended) (k : ℕ) (a : Attempt) (waited : ℕ) (r : Result Bytes Reply)
    → a.cancelled ≡ false
    → a.interrupted ≡ none
    → ((e : Bytes) (w : ℕ) → (rest e w).gone ≡ false)
    → (after_call rest k a waited r).gone ≡ false
after_call-gone rest k a waited (ok r) c i h = refl
after_call-gone rest k a waited (err e) c i h = elim (Bool-cases (is_connection e)) [
  | inl f ↦ rw (c, f) refl
  | inr f ↦ rw (c, f, i) (h e (waited + backoff k e))
]

attempts-gone :
    (p : ℕ → Attempt) (left k : ℕ) (last : Bytes) (waited : ℕ)
    → IsSteady p
    → (attempts p left k last waited).gone ≡ false
unfolding attempts
attempts-gone p zero k last waited s = refl
attempts-gone p (suc left) k last waited s =
    after_call-gone (attempts p left (k + 1)) k (p k) waited (p k).answer (s k).0 (s k).1
      (λ e w. attempts-gone p left (k + 1) e w s)

-- The seconds that attempts from the `k`-th on may wait.
abbrev pub longest_wait : ℕ → ℕ → ℕ
longest_wait zero k = 0
longest_wait (suc left) k = 15 * (k + 1) + longest_wait left (k + 1)

backoff-le : (k : ℕ) (e : Bytes) → backoff k e ≤ 15 * (k + 1)
unfolding backoff
backoff-le k e = elim (Bool-cases (is_rate_limit e)) [
  | inl f ↦ rw f (omega arith)
  | inr f ↦ elim (Bool-cases (is_timeout e)) [
    | inl g ↦ rw (f, g) (omega arith)
    | inr g ↦ rw (f, g) (omega arith)
  ]
]

-- At most so many calls, and so many seconds waited.
abbrev pub Within : ℕ → ℕ → Ended → Type 0
Within calls waited e = (e.calls ≤ calls) × (e.waited ≤ waited)

after_wait-Within :
    (rest : Bytes → ℕ → Ended) (k n w : ℕ) (e : Bytes) (waited : ℕ) (o : Option Bytes)
    → k + 1 ≤ n
    → waited ≤ w
    → Within n w (rest e (waited + backoff k e))
    → Within n w (after_wait rest k e waited o)
after_wait-Within rest k n w e waited none a b h = h
after_wait-Within rest k n w e waited (some c) a b h = (a, b)

after_call-Within :
    (rest : Bytes → ℕ → Ended) (k n w : ℕ) (a : Attempt) (waited : ℕ) (r : Result Bytes Reply)
    → k + 1 ≤ n
    → waited ≤ w
    → ((e : Bytes) → Within n w (rest e (waited + backoff k e)))
    → Within n w (after_call rest k a waited r)
after_call-Within rest k n w a waited (ok r) b c h = (b, c)
after_call-Within rest k n w a waited (err e) b c h = elim (Bool-cases a.cancelled) [
  | inl f ↦ rw f ((b, c))
  | inr f ↦ elim (Bool-cases (is_connection e)) [
    | inl g ↦ rw (f, g) ((b, c))
    | inr g ↦ rw (f, g) (after_wait-Within rest k n w e waited a.interrupted b c (h e))
  ]
]

attempts-Within :
    (p : ℕ → Attempt) (left k n w : ℕ) (last : Bytes) (waited : ℕ)
    → k + left ≤ n
    → waited + longest_wait left k ≤ w
    → Within n w (attempts p left k last waited)
unfolding attempts
attempts-Within p zero k n w last waited a b = (omega arith, omega arith)
attempts-Within p (suc left) k n w last waited a b =
    after_call-Within (attempts p left (k + 1)) k n w (p k) waited (p k).answer (omega arith)
      (omega arith)
      (λ e.
        attempts-Within p left (k + 1) n w e (waited + backoff k e) (omega arith)
          (omega (arith, backoff-le k e)))

-- The answer of either; if there is none, the first error.
abbrev pub one_of : Result Bytes Reply → Result Bytes Reply → Result Bytes Reply
one_of (ok r) other = ok r
one_of (err e) (ok r) = ok r
one_of (err e) (err f) = err e

prefer-one_of : (e : Bytes) (x : Result Bytes Reply) → prefer (err e) x ≡ one_of (err e) x
prefer-one_of e (ok r) = refl
prefer-one_of e (err f) = refl

after_primary-one_of :
    (e : Ended) (q : ℕ → Attempt) (r x : Result Bytes Reply)
    → e.result ≡ r
    → e.gone ≡ false
    → (call_with_retry_on_provider q).result ≡ x
    → (after_primary e false (some q) r).result ≡ one_of r x
after_primary-one_of e q (ok r) x h g c = h
after_primary-one_of e q (err m) x h g c = rw (g, h, c) (prefer-one_of m x)

-- While the context lives and both providers can be reached, the result is the first answer within three
-- attempts of the first provider, else within three of the second, else the first provider's last error.
pub call_with_retry-first_answer :
    (p q : ℕ → Attempt)
    → IsSteady p
    → IsSteady q
    → (call_with_retry p false (some q)).result ≡ one_of (first_answer p) (first_answer q)
unfolding call_with_retry
call_with_retry-first_answer p q s t =
    let e = call_with_retry_on_provider p in
    let h = call_with_retry_on_provider-first_answer p s in
    subst
      (λ r. (after_primary e false (some q) r).result ≡ one_of (first_answer p) (first_answer q))
      (sym h)
      (after_primary-one_of e q (first_answer p) (first_answer q) h (attempts-gone p 3 0 [] 0 s)
        (call_with_retry_on_provider-first_answer q t))

call_with_retry_on_provider-Within : (p : ℕ → Attempt) → Within 3 90 (call_with_retry_on_provider p)
call_with_retry_on_provider-Within p = attempts-Within p 3 0 3 90 [] 0 (omega arith) (omega arith)

with_fallback-Within :
    (e : Ended) (fallback : Option (ℕ → Attempt))
    → Within 3 90 e
    → Within 6 180 (with_fallback e fallback)
with_fallback-Within e none w = (omega (arith, w.0), omega (arith, w.1))
with_fallback-Within e (some q) w =
    let v = call_with_retry_on_provider-Within q in
    (omega (arith, w.0, v.0), omega (arith, w.1, v.1))

after_primary-Within :
    (e : Ended) (gone : Bool) (fallback : Option (ℕ → Attempt)) (r : Result Bytes Reply)
    → Within 3 90 e
    → Within 6 180 (after_primary e gone fallback r)
after_primary-Within e gone fallback (ok r) w = (omega (arith, w.0), omega (arith, w.1))
after_primary-Within e gone fallback (err m) w = elim (Bool-cases (e.gone || gone)) [
  | inl f ↦ rw f ((omega (arith, w.0), omega (arith, w.1)))
  | inr f ↦ rw f (with_fallback-Within e fallback w)
]

-- Whatever the providers answer, at most six calls are made, and at most three minutes waited between them.
pub call_with_retry-Within :
    (p : ℕ → Attempt) (gone : Bool) (fallback : Option (ℕ → Attempt))
    → Within 6 180 (call_with_retry p gone fallback)
unfolding call_with_retry
call_with_retry-Within p gone fallback =
    let e = call_with_retry_on_provider p in
    after_primary-Within e gone fallback e.result (call_with_retry_on_provider-Within p)
