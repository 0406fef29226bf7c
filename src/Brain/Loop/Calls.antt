-- ===== src/Brain/Loop/Calls.antt =====
-- The calls of a model, tried again and on a second provider: callWithRetry and
-- callWithRetryOnProvider of brain/tool_loop.go.
--
-- A provider is what it answers by the number of the attempt. Whether the context has ended is the
-- environment's; the time that a call itself takes is not counted.
pub mod First
use ho.Brain.Loop.{Reply}
use ho.Prelude.{ℕ, zero, suc, ◌+◌, ◌*◌, Bool, true, false, not, ◌&&◌, ◌||◌, Option, none, some}
use ho.Prelude.{if◌then◌else◌, []}
use ho.Prelude.Bytes.{Bytes, codes, contains}
use ho.Prelude.Result.{Result, err, ok}

pub record Attempt : Type 0 where
  pub answer : Result Bytes Reply
  pub cancelled : Bool  -- the context has ended after the call
  pub interrupted : Option Bytes  -- the error of a context that ends during the wait

-- The result, the calls made, the seconds of the waits that ran to their end, and whether the context
-- was seen to have ended.
pub record Ended : Type 0 where
  pub result : Result Bytes Reply
  pub calls : ℕ
  pub waited : ℕ
  pub gone : Bool

abbrev pub max_llm_retries : ℕ
max_llm_retries = 3

unfoldable pub is_timeout : Bytes → Bool
is_timeout e = contains e (codes "timeout") || contains e (codes "context deadline exceeded")

-- Errors of the name service, of the connection or of its encryption.
unfoldable pub is_connection : Bytes → Bool
is_connection e =
    contains e (codes "send request:")
    && (not (contains e (codes "API error")) && not (is_timeout e))

unfoldable pub is_rate_limit : Bytes → Bool
is_rate_limit e =
    contains e (codes "API error 429")
    || (contains e (codes "API error 529") || contains e (codes "overloaded"))

-- In seconds
unfoldable pub backoff : ℕ → Bytes → ℕ
backoff attempt e =
    if is_rate_limit e
    then 15 * (attempt + 1)
    else if is_timeout e
    then 5 * (attempt + 1)
    else 2 * (attempt + 1)

abbrev pub end_with : Result Bytes Reply → ℕ → ℕ → Bool → Ended
end_with r calls waited gone = record { result = r; calls = calls; waited = waited; gone = gone }

-- The wait for the next attempt.
abbrev pub after_wait : (Bytes → ℕ → Ended) → ℕ → Bytes → ℕ → Option Bytes → Ended
after_wait rest attempt e waited (some c) = end_with (err c) (attempt + 1) waited true
after_wait rest attempt e waited none = rest e (waited + backoff attempt e)

abbrev pub after_call : (Bytes → ℕ → Ended) → ℕ → Attempt → ℕ → Result Bytes Reply → Ended
after_call rest attempt a waited (ok r) = end_with (ok r) (attempt + 1) waited false
after_call rest attempt a waited (err e) =
    if a.cancelled
    then end_with (err e) (attempt + 1) waited true
    else if is_connection e
    then end_with (err e) (attempt + 1) waited false
    else after_wait rest attempt e waited a.interrupted

-- With `left` attempts left, and the last error.
unfoldable pub attempts : (ℕ → Attempt) → ℕ → ℕ → Bytes → ℕ → Ended
attempts p zero attempt last waited = end_with (err last) attempt waited false
attempts p (suc left) attempt last waited =
    after_call (attempts p left (attempt + 1)) attempt (p attempt) waited ((p attempt).answer)

abbrev pub call_with_retry_on_provider : (ℕ → Attempt) → Ended
call_with_retry_on_provider p = attempts p max_llm_retries 0 [] 0

-- The second provider's answer; where it fails too, the error is the first one's.
abbrev pub prefer : Result Bytes Reply → Result Bytes Reply → Result Bytes Reply
prefer first (ok r) = ok r
prefer first (err e) = first

abbrev pub add_ended : Ended → Ended → Ended
add_ended a b =
    end_with (prefer a.result b.result) (a.calls + b.calls) (a.waited + b.waited) (a.gone || b.gone)

abbrev pub with_fallback : Ended → Option (ℕ → Attempt) → Ended
with_fallback e none = e
with_fallback e (some q) = add_ended e (call_with_retry_on_provider q)

-- `gone` tells whether the context has ended by then; the second provider is there or not.
abbrev pub after_primary : Ended → Bool → Option (ℕ → Attempt) → Result Bytes Reply → Ended
after_primary e gone fallback (ok r) = e
after_primary e gone fallback (err msg) = if e.gone || gone then e else with_fallback e fallback

unfoldable pub call_with_retry : (ℕ → Attempt) → Bool → Option (ℕ → Attempt) → Ended
call_with_retry p gone fallback =
    let e = call_with_retry_on_provider p in after_primary e gone fallback e.result
