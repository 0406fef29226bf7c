-- ===== src/Retry.antt =====
-- internal/sqliteretry/retry.go: the calls that are tried again while SQLite is busy. The call is
-- a parameter, by the number of the attempt, as are the jitters that it draws.
pub mod Calls
use ho.Prelude.{
  ℕ, zero, suc, ◌+◌, ◌*◌, ◌^◌, Bool, false, ◌||◌, Option, none, some, leb, if◌then◌else◌,
}
use ho.Prelude.Bytes.{Bytes, codes, contains}

-- An error is its message.
unfoldable pub is_busy : Option Bytes → Bool
is_busy none = false
is_busy (some msg) =
    contains msg (codes "SQLITE_BUSY")
    || contains msg (codes "database is locked")
    || contains msg (codes "database table is locked")

abbrev pub max_retries : ℕ
max_retries = 5

-- 5ms, in nanoseconds
abbrev pub base_delay : ℕ
base_delay = 5000000

-- The delay with the jitter that was drawn.
unfoldable pub backoff : ℕ → ℕ → ℕ → ℕ
backoff base attempt jitter = base * 2 ^ attempt + jitter

-- What the loop leaves: the result and the error of its last call, the calls made, the time slept.
pub record Tried {ℓ} (R : Type ℓ) : Type ℓ where
  pub answer : R × Option Bytes
  pub calls : ℕ
  pub slept : ℕ

-- Exec, BeginTx and Query, which differ in the call alone. The fuel bounds the loop.
unfoldable pub try_from {ℓ} :
    {R : Type ℓ} → (ℕ → R × Option Bytes) → (ℕ → ℕ) → ℕ → ℕ → ℕ → Option (Tried R)
try_from call jitter zero attempt slept = none
try_from call jitter (suc fuel) attempt slept =
    let again =
      try_from call jitter fuel (attempt + 1)
        (slept + backoff base_delay attempt (jitter attempt)) in
    if is_busy (call attempt).1
    then (if leb max_retries attempt
        then some (record { answer = call attempt; calls = attempt + 1; slept = slept })
        else again)
    else some (record { answer = call attempt; calls = attempt + 1; slept = slept })

unfoldable pub with_retry {ℓ} :
    {R : Type ℓ} → (ℕ → R × Option Bytes) → (ℕ → ℕ) → ℕ → Option (Tried R)
with_retry call jitter fuel = try_from call jitter fuel 0 0
