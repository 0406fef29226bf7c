-- ===== src/Prelude/Int.antt =====
-- Go's 64-bit `int`, as far as the cron parser uses it.
use ho.Prelude.Tests.{ltb, leb, if◌then◌else◌}
use Prim.Native.Nat.{ℕ, suc, ◌+◌, ◌-◌, ◌<◌}
use mathlib.Core.Path.{◌≡◌}
use mathlib.Core.Bool.{Bool, true, false}
use native.Mathlib.Omega.{arith}

-- `negsuc n` is -(n + 1).
pub data ℤ : Type 0 where
  pos : ℕ → ℤ
  negsuc : ℕ → ℤ

abbrev pub int_limit : ℕ
int_limit = 9223372036854775808

-- a <= b
abbrev pub le_int : ℤ → ℤ → Bool
le_int (pos a) (pos b) = leb a b
le_int (pos a) (negsuc b) = false
le_int (negsuc a) (pos b) = true
le_int (negsuc a) (negsuc b) = leb b a

abbrev pub lt_int : ℤ → ℤ → Bool
lt_int (pos a) (pos b) = ltb a b
lt_int (pos a) (negsuc b) = false
lt_int (negsuc a) (pos b) = true
lt_int (negsuc a) (negsuc b) = ltb b a

-- i + step for a step of at least 0, wrapping past the largest int.
unfoldable pub add_step : ℤ → ℕ → ℤ
add_step (pos a) s =
    if ltb (a + s) int_limit then pos (a + s) else negsuc (int_limit + int_limit - 1 - (a + s))
add_step (negsuc a) s = if ltb a s then pos (s - suc a) else negsuc (a - s)

pub add_step_pos : (a s : ℕ) → a + s < int_limit → add_step (pos a) s ≡ pos (a + s)
unfolding add_step
add_step_pos a s h = ground arith
