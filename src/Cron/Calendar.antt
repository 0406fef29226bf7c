-- ===== src/Cron/Calendar.antt =====
-- The civil calendar of Go's `time` package in UTC, as internal/cron/cron.go reads it: the date of a
-- day, counted from 1970-01-01, and the fields of a minute, counted from the start of that day.
use Prim.Native.Nat.add
use native.Mathlib.Nat.{suc-add}
use ho.Prelude.{
  ℕ, zero, suc, ◌+◌, ◌-◌, ◌/◌, ◌%◌, ◌≤◌, ◌<◌, ◌≡◌, Bool, not, ◌&&◌, ◌||◌, ltb, ◌==◌, if◌then◌else◌,
  arith,
}

pub record Date : Type 0 where
  pub year : ℕ
  pub month : ℕ  -- 1 to 12
  pub day : ℕ  -- from 1

abbrev pub is_leap : ℕ → Bool
is_leap y = (y % 4 == 0) && (not (y % 100 == 0) || y % 400 == 0)

unfoldable pub days_in : ℕ → ℕ → ℕ
days_in y m =
    if m == 2
    then (if is_leap y then 29 else 28)
    else if m == 4 || m == 6 || m == 9 || m == 11
    then 30
    else 31

unfoldable pub next_date : Date → Date
next_date d =
    if ltb d.day (days_in d.year d.month)
    then record d { day = d.day + 1 }
    else if ltb d.month 12
    then record d { month = d.month + 1; day = 1 }
    else record { year = d.year + 1; month = 1; day = 1 }

unfoldable pub date_of : ℕ → Date
unfolding next_date
date_of zero = record { year = 1970; month = 1; day = 1 }
date_of (suc n) = next_date (date_of n)

-- 1970-01-01 was a Thursday; Sunday is 0.
abbrev pub weekday_of : ℕ → ℕ
weekday_of n = (n + 4) % 7

abbrev pub day_of : ℕ → ℕ
day_of minute = minute / 1440

abbrev pub hour_of : ℕ → ℕ
hour_of minute = minute / 60 % 24

abbrev pub minute_of : ℕ → ℕ
minute_of minute = minute % 60

-- The days from n to the first day of the next month.
unfoldable pub to_next_month : ℕ → ℕ
unfolding date_of
to_next_month n = days_in (date_of n).year (date_of n).month + 1 - (date_of n).day

pub record IsDate (d : Date) : Type 0 where
  pub from_one : 1 ≤ d.day
  pub in_month : d.day ≤ days_in d.year d.month

days_in_pos : (y m : ℕ) → 28 ≤ days_in y m
unfolding days_in
days_in_pos y m = ground arith

pub next_date-IsDate : (d : Date) → IsDate d → IsDate (next_date d)
unfolding next_date
next_date-IsDate d h = ground (arith, days_in_pos d.year (d.month + 1), days_in_pos (d.year + 1) 1)

pub date_of-IsDate : (n : ℕ) → IsDate (date_of n)
unfolding date_of
date_of-IsDate zero = record {
  from_one = omega arith;
  in_month = omega (arith, days_in_pos 1970 1);
}
date_of-IsDate (suc n) = next_date-IsDate (date_of n) (date_of-IsDate n)

-- Until the next month begins, the days keep the month and count on.
pub same_month :
    (n k : ℕ)
    → k < to_next_month n
    → ((date_of (k + n)).year ≡ (date_of n).year)
      × ((date_of (k + n)).month ≡ (date_of n).month)
      × ((date_of (k + n)).day ≡ (date_of n).day + k)
unfolding to_next_month date_of
same_month n zero h = (rw add.zero, rw add.zero, rw add.zero (omega arith))
same_month n (suc k) h =
    rw suc-add
      (let (y, m, d) = same_month n k (omega arith) in ground (arith, y, m, d, suc-add k n))

pub to_next_month_pos : (n : ℕ) → 0 < to_next_month n
unfolding to_next_month
to_next_month_pos n = omega (arith, (date_of-IsDate n).in_month)

first_after :
    (n k : ℕ)
    → to_next_month n ≡ suc k
    → ((date_of (suc k + n)).day ≡ 1)
      × ((date_of (suc k + n)).month
          ≡ (if ltb (date_of n).month 12 then (date_of n).month + 1 else 1))
unfolding date_of
first_after n k e = rw suc-add (
    let (y, m, d) = same_month n k (omega arith) in
    let last : (date_of n).day + k ≡ days_in (date_of n).year (date_of n).month =
      unfold to_next_month in omega (arith, (date_of-IsDate n).in_month) in
    ground (arith, y, m, d, last))

-- time.Date(year, month + 1, 1) is the first day of the next month.
pub next_month_first :
    (n : ℕ)
    → ((date_of (to_next_month n + n)).day ≡ 1)
      × ((date_of (to_next_month n + n)).month
          ≡ (if ltb (date_of n).month 12 then (date_of n).month + 1 else 1))
next_month_first n =
    let e : to_next_month n ≡ suc (to_next_month n - 1) = omega (arith, to_next_month_pos n) in
    rw e (first_after n (to_next_month n - 1) e)
