-- ===== src/Cron/Next/Scan.antt =====
-- internal/cron/cron.go, NextTime: the skips pass over no minute that fires, so that the search finds
-- the earliest one.
use ho.Prelude.{
  ℕ, zero, suc, ◌+◌, ◌-◌, ◌*◌, ◌/◌, ◌≤◌, ◌<◌, ◌≡◌, true, false, inl, inr, Option, none, some, ltb,
  Bool-cases, arith,
}
use ho.Cron.Field.{has}
use ho.Cron.Calendar.{date_of, day_of, hour_of, to_next_month, to_next_month_pos, same_month}
use ho.Cron.Next.{Schedule, month_ok, day_ok, hour_ok, fires, advance, scan}

pub lt-advance : (s : Schedule) (c : ℕ) → c < advance s c
unfolding advance
lt-advance s c = ground (arith, to_next_month_pos (day_of c))

-- No minute of the span fires.
abbrev pub Silent : Schedule → ℕ → ℕ → Type 0
Silent s c d = (m : ℕ) → c ≤ m → m < d → fires s m ≡ false

month_Silent :
    (s : Schedule) (c : ℕ)
    → month_ok s c ≡ false
    → Silent s c ((to_next_month (day_of c) + day_of c) * 1440)
unfolding fires month_ok
month_Silent s c h m a b =
    let k : ℕ = day_of m - day_of c in
    let e : day_of m ≡ k + day_of c = omega arith in
    let e' : (date_of (k + day_of c)).month ≡ (date_of (day_of c)).month =
      (same_month (day_of c) k (omega arith)).1 in
    let no_month : has (date_of (day_of m)).month s.months ≡ false = rw e (rw e' h) in rw no_month

day_Silent : (s : Schedule) (c : ℕ) → day_ok s c ≡ false → Silent s c ((day_of c + 1) * 1440)
unfolding fires day_ok
day_Silent s c h m a b =
    let e : day_of m ≡ day_of c = omega arith in
    let no_day : day_ok s m ≡ false = rw e h in ground (arith, no_day)

hour_Silent : (s : Schedule) (c : ℕ) → hour_ok s c ≡ false → Silent s c ((c / 60 + 1) * 60)
unfolding fires hour_ok
hour_Silent s c h m a b =
    let e : hour_of m ≡ hour_of c = omega arith in
    let no_hour : hour_ok s m ≡ false = rw e h in ground (arith, no_hour)

minute_Silent : (s : Schedule) (c : ℕ) → fires s c ≡ false → Silent s c (c + 1)
minute_Silent s c h m a b = let e : m ≡ c = omega arith in rw e h

-- When a minute does not fire, none fires before the minute that the loop skips to.
pub advance-Silent : (s : Schedule) (c : ℕ) → fires s c ≡ false → Silent s c (advance s c)
unfolding advance
advance-Silent s c h m a b = elim (Bool-cases (month_ok s c)) [
  | inr x ↦ month_Silent s c x m a (ground arith)
  | inl x ↦ elim (Bool-cases (day_ok s c)) [
    | inr y ↦ day_Silent s c y m a (ground arith)
    | inl y ↦ elim (Bool-cases (hour_ok s c)) [
      | inr z ↦ hour_Silent s c z m a (ground arith)
      | inl z ↦ minute_Silent s c h m a (ground arith)
    ]
  ]
]

-- The first minute from c that fires, before the limit, or that none does.
abbrev pub Earliest : Schedule → ℕ → ℕ → Option ℕ → Type 0
Earliest s c limit none = Silent s c limit
Earliest s c limit (some r) = (c ≤ r) × (r < limit) × (fires s r ≡ true) × Silent s c r

Silent-join : (s : Schedule) (c d e : ℕ) → Silent s c d → Silent s d e → Silent s c e
Silent-join s c d e h k m a b = elim (Bool-cases (ltb m d)) [
  | inl x ↦ h m a (ground arith)
  | inr x ↦ k m (ground arith) b
]

Earliest-join :
    (s : Schedule) (c d limit : ℕ) (r : Option ℕ)
    → c ≤ d
    → Silent s c d
    → Earliest s d limit r
    → Earliest s c limit r
Earliest-join s c d limit none a h k = Silent-join s c d limit h k
Earliest-join s c d limit (some r) a h k = (omega arith, k.1, k.2, Silent-join s c d r h k.3)

-- With a round of fuel for every minute up to the limit, the loop finds the earliest.
pub scan-Earliest :
    (fuel : ℕ) (s : Schedule) (c limit : ℕ)
    → limit ≤ c + fuel
    → Earliest s c limit (scan fuel s c limit)
unfolding scan
scan-Earliest zero s c limit h = λ m a b. absurd (omega arith)
scan-Earliest (suc fuel) s c limit h = elim (Bool-cases (ltb c limit)) [
  | inr past ↦ rw (past, scan) (λ m a b. absurd (ground arith))
  | inl before ↦ elim (Bool-cases (fires s c)) [
    | inl now ↦
        rw (before, now, scan) (omega arith, ground arith, now, λ m a b. absurd (omega arith))
    | inr later ↦
        let less = lt-advance s c in
        rw (before, later, scan)
          (Earliest-join s c (advance s c) limit (scan fuel s (advance s c) limit) (omega arith)
            (advance-Silent s c later) (scan-Earliest fuel s (advance s c) limit (omega arith)))
  ]
]
