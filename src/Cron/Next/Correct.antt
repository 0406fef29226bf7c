-- ===== src/Cron/Next/Correct.antt =====
-- internal/cron/cron.go: what NextTime promises of an expression that Validate accepts.
use ho.Prelude.{ℕ, ◌+◌, ◌*◌, ◌<◌, ◌≡◌, refl, sym, subst, true, [], ◌∷◌, Option, none, some, arith}
use ho.Prelude.Bytes.{Bytes, fields, split}
use ho.Cron.Field.{has, bind, validate_field, FieldError}
use ho.Cron.Field.Named.{field_allows, small_steps}
use ho.Cron.Field.Valid.{parse-validate}
use ho.Cron.Next.{
  Schedule, fires, next_fire, horizon, first_candidate, minute_ns, one_hour_later, to_time,
  in_field, validate, validate_fields, next_time, next_time_fields, schedule_of, CronError,
}
use ho.Cron.Next.Scan.{Silent, Earliest, scan-Earliest}

-- Either no minute of the 366 days after `after` fires and the answer is an hour later, or the answer
-- is the start of the first minute after `after` that fires.
pub data NextFire (s : Schedule) (after : ℕ) : ℕ → Type 0 where
  nothing :
      {t : ℕ}
      → Silent s (first_candidate after) (first_candidate after + horizon)
      → t ≡ one_hour_later after
      → NextFire s after t
  minute :
      {t : ℕ} (m : ℕ)
      → t ≡ m * minute_ns
      → after < m * minute_ns
      → m < first_candidate after + horizon
      → fires s m ≡ true
      → Silent s (first_candidate after) m
      → NextFire s after t

to_time-NextFire :
    (s : Schedule) (after : ℕ) (r : Option ℕ)
    → Earliest s (first_candidate after) (first_candidate after + horizon) r
    → NextFire s after (to_time after r)
to_time-NextFire s after none h = NextFire.nothing h refl
to_time-NextFire s after (some m) h = NextFire.minute m refl (omega (arith, h.0)) h.1 h.2 h.3

-- For any sets the search answers with the earliest minute after `after` that fires, within 366 days, or, where none does, with an hour later.
pub next_fire-NextFire : (s : Schedule) (after : ℕ) → NextFire s after (next_fire s after)
unfolding next_fire
next_fire-NextFire s after = to_time-NextFire s after _ (
    scan-Earliest horizon s (first_candidate after) (first_candidate after + horizon) (omega arith))

-- What the five fields of an accepted expression are parsed to.
pub record Means (s : Schedule) (mi ho dom mo dow : Bytes) : Type 0 where
  pub minutes : (v : ℕ) → has v s.minutes ≡ field_allows 0 59 mi v
  pub hours : (v : ℕ) → has v s.hours ≡ field_allows 0 23 ho v
  pub days : (v : ℕ) → has v s.days ≡ field_allows 1 31 dom v
  pub months : (v : ℕ) → has v s.months ≡ field_allows 1 12 mo v
  pub weekdays : (v : ℕ) → has v s.weekdays ≡ field_allows 0 6 dow v

abbrev pub SmallSteps : Bytes → Bytes → Bytes → Bytes → Bytes → Type 0
SmallSteps mi ho dom mo dow =
    (small_steps 59 (split b',' mi) ≡ true)
    × (small_steps 23 (split b',' ho) ≡ true)
    × (small_steps 31 (split b',' dom) ≡ true)
    × (small_steps 12 (split b',' mo) ≡ true)
    × (small_steps 6 (split b',' dow) ≡ true)

in_field-none :
    (i : ℕ) (e : Option FieldError) (later : Option CronError)
    → in_field i e later ≡ none
    → (e ≡ none) × (later ≡ none)
in_field-none i none later h = (refl, h)
in_field-none i (some e) later h = cc

validate_fields-none :
    (mi ho dom mo dow : Bytes)
    → validate_fields (mi ∷ ho ∷ dom ∷ mo ∷ dow ∷ []) ≡ none
    → (validate_field mi 0 59 ≡ none)
      × (validate_field ho 0 23 ≡ none)
      × (validate_field dom 1 31 ≡ none)
      × (validate_field mo 1 12 ≡ none)
      × (validate_field dow 0 6 ≡ none)
unfolding validate_fields
validate_fields-none mi ho dom mo dow h =
    let (v1, h1) = in_field-none 1 _ _ h in
    let (v2, h2) = in_field-none 2 _ _ h1 in
    let (v3, h3) = in_field-none 3 _ _ h2 in
    let (v4, h4) = in_field-none 4 _ _ h3 in
    let (v5, h5) = in_field-none 5 _ _ h4 in (v1, v2, v3, v4, v5)

schedule_of-Means :
    (fuel : ℕ) (mi ho dom mo dow : Bytes)
    → validate_fields (mi ∷ ho ∷ dom ∷ mo ∷ dow ∷ []) ≡ none
    → SmallSteps mi ho dom mo dow
    → 60 < fuel
    → (s : Schedule) × (schedule_of fuel mi ho dom mo dow ≡ some s) × Means s mi ho dom mo dow
unfolding schedule_of
schedule_of-Means fuel mi ho dom mo dow h (k1, k2, k3, k4, k5) f =
    let (v1, v2, v3, v4, v5) = validate_fields-none mi ho dom mo dow h in
    let p1 = parse-validate fuel 0 59 mi (omega arith) (omega arith) (omega arith) v1 k1 in
    let p2 = parse-validate fuel 0 23 ho (omega arith) (omega arith) (omega arith) v2 k2 in
    let p3 = parse-validate fuel 1 31 dom (omega arith) (omega arith) (omega arith) v3 k3 in
    let p4 = parse-validate fuel 1 12 mo (omega arith) (omega arith) (omega arith) v4 k4 in
    let p5 = parse-validate fuel 0 6 dow (omega arith) (omega arith) (omega arith) v5 k5 in
    (
      record { minutes = p1.0; hours = p2.0; days = p3.0; months = p4.0; weekdays = p5.0 },
      rw (p1.1, bind) (rw (p2.1, bind) (rw (p3.1, bind) (rw (p4.1, bind) (rw (p5.1, bind))))),
      record { minutes = p1.2; hours = p2.2; days = p3.2; months = p4.2; weekdays = p5.2 },
    )

-- An expression of five fields that Validate accepts, with steps that int arithmetic can carry: 61 rounds are enough for each loop of the parser, and NextTime answers by the schedule whose sets hold exactly the values that the fields name, with the earliest minute after `after` that fires within 366 days or, where none does, with an hour later.
pub next_time-validate :
    (fuel : ℕ) (expr mi ho dom mo dow : Bytes) (after : ℕ)
    → fields expr ≡ mi ∷ ho ∷ dom ∷ mo ∷ dow ∷ []
    → validate expr ≡ none
    → SmallSteps mi ho dom mo dow
    → 60 < fuel
    → (s : Schedule) × Means s mi ho dom mo dow
      × (t : ℕ) × (next_time fuel expr after ≡ some t)
      × NextFire s after t
unfolding validate next_time
next_time-validate fuel expr mi ho dom mo dow after e h small f =
    let h' : validate_fields (mi ∷ ho ∷ dom ∷ mo ∷ dow ∷ []) ≡ none = rw e at h in
    let (s, parsed, means) = schedule_of-Means fuel mi ho dom mo dow h' small f in
    (
      s,
      means,
      next_fire s after,
      subst (λ w. next_time_fields fuel w after ≡ some (next_fire s after)) (sym e)
          (rw (parsed, bind)),
      next_fire-NextFire s after,
    )
