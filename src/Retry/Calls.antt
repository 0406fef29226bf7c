-- ===== src/Retry/Calls.antt =====
-- internal/sqliteretry/retry.go: how often the loop calls, and what it answers.
use ho.Prelude.{
  ℕ, zero, suc, ◌+◌, ◌-◌, ◌*◌, ◌^◌, ◌≤◌, ◌<◌, ◌≡◌, refl, ◌⊎◌, ◌/◌, ap, ◌∙◌, subst, inl, inr, true,
  false, Option, some, Bool-cases, arith, leb,
}
use native.Mathlib.Omega.{pow_step}
use ho.Prelude.Bytes.{Bytes}
use ho.Retry.{is_busy, Tried, backoff, base_delay, try_from, with_retry}

pow_small : (a : ℕ) → a ≤ 5 → 2 ^ a ≤ 32
pow_small zero h = omega arith
pow_small (suc zero) h = omega arith
pow_small (suc (suc zero)) h = omega arith
pow_small (suc (suc (suc zero))) h = omega arith
pow_small (suc (suc (suc (suc zero)))) h = omega arith
pow_small (suc (suc (suc (suc (suc zero))))) h = omega arith
pow_small (suc (suc (suc (suc (suc (suc a)))))) h = omega arith

pow_suc : (a : ℕ) → 2 ^ (a + 1) ≡ 2 * 2 ^ a
pow_suc a = (ap (λ k. 2 ^ k) (omega arith)) ∙ pow_step 2 a

eq_or_lt : (a k : ℕ) → a ≤ k → (a ≡ k) ⊎ (a + 1 ≤ k)
eq_or_lt a k h = elim (Bool-cases (leb (a + 1) k)) [
  | inl e ↦ inr (ground arith)
  | inr e ↦ inl (ground arith)
]

module _ {ℓ} {R : Type ℓ} where
  -- The loop from `attempt` on: its first call that is not busy is the last, or else the sixth, and the time slept is no more than 1.5 times the delays.
  pub record Ended (call : ℕ → R × Option Bytes) (attempt : ℕ) (t : Tried R) : Type ℓ where
    pub calls_pos : attempt < t.calls
    pub at_most_six : t.calls ≤ 6
    pub answer_last : t.answer ≡ call (t.calls - 1)
    pub before_busy : (k : ℕ) → attempt ≤ k → k + 1 < t.calls → is_busy (call k).1 ≡ true
    pub last_free : (t.calls ≡ 6) ⊎ (is_busy t.answer.1 ≡ false)
    pub slept_bound : t.slept ≤ 232500000

  last_call :
      (call : ℕ → R × Option Bytes) (a slept : ℕ)
      → a ≤ 5
      → slept + 7500000 ≤ 2 ^ a * 7500000
      → (a ≡ 5) ⊎ (is_busy (call a).1 ≡ false)
      → Ended call a (record { answer = call a; calls = a + 1; slept = slept })
  last_call call a slept small le last = record {
    calls_pos = omega arith;
    at_most_six = omega arith;
    answer_last = ap call (omega arith);
    before_busy = λ k from to. ground arith;
    last_free = elim last [ inl e ↦ inl (omega arith) | inr e ↦ inr e ];
    slept_bound = omega (arith, pow_small a small);
  }

  earlier_call :
      (call : ℕ → R × Option Bytes) (a : ℕ) (t : Tried R)
      → is_busy (call a).1 ≡ true
      → Ended call (a + 1) t
      → Ended call a t
  earlier_call call a t busy e = record {
    calls_pos = omega (arith, e.calls_pos);
    at_most_six = e.at_most_six;
    answer_last = e.answer_last;
    before_busy = λ k from to. elim (eq_or_lt a k from) [
      | inl same ↦ subst (λ j. is_busy (call j).1 ≡ true) same busy
      | inr later ↦ e.before_busy k later to
    ];
    last_free = e.last_free;
    slept_bound = e.slept_bound;
  }

  try_from-Ended :
      (call : ℕ → R × Option Bytes) (jitter : ℕ → ℕ)
      → ((k : ℕ) → jitter k ≤ base_delay * 2 ^ k / 2)
      → (fuel a slept : ℕ) → a ≤ 5
      → 6 ≤ a + fuel
      → slept + 7500000 ≤ 2 ^ a * 7500000
      → (t : Tried R) × (try_from call jitter fuel a slept ≡ some t) × Ended call a t
  unfolding try_from backoff
  try_from-Ended call jitter drawn zero a slept small enough le = ground arith
  try_from-Ended call jitter drawn (suc fuel) a slept small enough le =
      elim (Bool-cases (is_busy (call a).1)) [
        | inr e ↦ (_, rw e refl, last_call call a slept small le (inr e))
        | inl e ↦ elim (Bool-cases (leb 5 a)) [
          | inl e' ↦ (_, rw (e, e') refl, last_call call a slept small le (inl (ground arith)))
          | inr e' ↦
              let (t, eq, ended) =
                try_from-Ended call jitter drawn fuel (a + 1)
                  (slept + (base_delay * 2 ^ a + jitter a)) (ground arith) (omega arith)
                  (omega (arith, le, drawn a, pow_suc a)) in
              (t, rw (e, e') eq, earlier_call call a t e ended)
        ]
      ]

-- The loop ends within six rounds of fuel, whatever the call answers: it makes at most six calls, answers what the last one answered, every earlier call was busy, the last one was not unless it was the sixth, and it slept at most 232.5ms, where each jitter is at most half its delay.
pub with_retry-Ended {ℓ} :
    {R : Type ℓ}
    → (call : ℕ → R × Option Bytes) (jitter : ℕ → ℕ) → ((k : ℕ) → jitter k ≤ base_delay * 2 ^ k / 2)
    → (fuel : ℕ) → 6 ≤ fuel
    → (t : Tried R) × (with_retry call jitter fuel ≡ some t) × Ended call 0 t
unfolding with_retry
with_retry-Ended call jitter drawn fuel enough =
    try_from-Ended call jitter drawn fuel 0 0 (omega arith) (omega (arith, enough)) (omega arith)
