-- ===== src/Cron/Next.antt =====
-- internal/cron/cron.go: Validate and NextTime, over the parsed fields of an expression. A time is a
-- number of nanoseconds, and a candidate a number of minutes, since 1970-01-01 in UTC.
pub mod Scan
pub mod Correct
use ho.Prelude.{
  ℕ, zero, suc, ◌+◌, ◌-◌, ◌*◌, ◌/◌, Bool, true, false, not, ◌&&◌, ◌||◌, List, [], ◌∷◌, length,
  Option, none, some, ltb, if◌then◌else◌,
}
use ho.Prelude.Int.{ℤ}
use ho.Prelude.Bytes.{Bytes, fields}
use ho.Cron.Field.{FieldError, has, bind, validate_field, parse_field}
use ho.Cron.Calendar.{date_of, weekday_of, day_of, hour_of, minute_of, to_next_month}

pub data CronError : Type 0 where
  wrong_count : ℕ → CronError
  bad_field : ℕ → FieldError → CronError

-- The first field that is refused, counted from 1.
abbrev pub in_field : ℕ → Option FieldError → Option CronError → Option CronError
in_field i (some e) later = some (bad_field i e)
in_field i none later = later

unfoldable pub validate_fields : List Bytes → Option CronError
unfolding validate_field
validate_fields (mi ∷ ho ∷ dom ∷ mo ∷ dow ∷ []) = in_field 1 (validate_field mi 0 59) (
    in_field 2 (validate_field ho 0 23) (
      in_field 3 (validate_field dom 1 31)
        (in_field 4 (validate_field mo 1 12) (in_field 5 (validate_field dow 0 6) none))))
validate_fields other = some (wrong_count (length other))

-- Validate
unfoldable pub validate : Bytes → Option CronError
unfolding validate_fields
validate expr = validate_fields (fields expr)

-- The five sets of an expression.
pub record Schedule : Type 0 where
  pub minutes : List ℤ
  pub hours : List ℤ
  pub days : List ℤ
  pub months : List ℤ
  pub weekdays : List ℤ

unfoldable pub month_ok : Schedule → ℕ → Bool
month_ok s m = has (date_of (day_of m)).month s.months

unfoldable pub day_ok : Schedule → ℕ → Bool
day_ok s m = has (date_of (day_of m)).day s.days && has (weekday_of (day_of m)) s.weekdays

unfoldable pub hour_ok : Schedule → ℕ → Bool
hour_ok s m = has (hour_of m) s.hours

unfoldable pub minute_ok : Schedule → ℕ → Bool
minute_ok s m = has (minute_of m) s.minutes

-- The test of NextTime's loop.
unfoldable pub fires : Schedule → ℕ → Bool
fires s m = month_ok s m && day_ok s m && hour_ok s m && minute_ok s m

-- The skip to the next month, day, hour or minute.
unfoldable pub advance : Schedule → ℕ → ℕ
advance s m =
    if not (month_ok s m)
    then (to_next_month (day_of m) + day_of m) * 1440
    else if not (day_ok s m)
    then (day_of m + 1) * 1440
    else if not (hour_ok s m)
    then (m / 60 + 1) * 60
    else m + 1

-- `for candidate.Before(limit)`, with fuel for the rounds
unfoldable pub scan : ℕ → Schedule → ℕ → ℕ → Option ℕ
scan zero s candidate limit = none
scan (suc fuel) s candidate limit = elim (ltb candidate limit) [
  | true ↦ elim (fires s candidate) [
    | true ↦ some candidate
    | false ↦ scan fuel s (advance s candidate) limit
  ]
  | false ↦ none
]

abbrev pub minute_ns : ℕ
minute_ns = 60000000000

-- 366 days
abbrev pub horizon : ℕ
horizon = 527040

abbrev pub one_hour_later : ℕ → ℕ
one_hour_later after = after + 60 * minute_ns

abbrev pub to_time : ℕ → Option ℕ → ℕ
to_time after none = one_hour_later after
to_time after (some m) = m * minute_ns

-- The minute after the one that holds `after`, and the search from there.
abbrev pub first_candidate : ℕ → ℕ
first_candidate after = after / minute_ns + 1

unfoldable pub next_fire : Schedule → ℕ → ℕ
next_fire s after =
    to_time after (scan horizon s (first_candidate after) (first_candidate after + horizon))

unfoldable pub schedule_of : ℕ → Bytes → Bytes → Bytes → Bytes → Bytes → Option Schedule
schedule_of fuel mi ho dom mo dow = bind (parse_field fuel mi 0 59) λ minutes.
    bind (parse_field fuel ho 0 23) λ hours. bind (parse_field fuel dom 1 31) λ days.
      bind (parse_field fuel mo 1 12) λ months. bind (parse_field fuel dow 0 6) λ weekdays.
        some (record {
          minutes = minutes;
          hours = hours;
          days = days;
          months = months;
          weekdays = weekdays;
        })

unfoldable pub next_time_fields : ℕ → List Bytes → ℕ → Option ℕ
unfolding schedule_of
next_time_fields fuel (mi ∷ ho ∷ dom ∷ mo ∷ dow ∷ []) after =
    bind (schedule_of fuel mi ho dom mo dow) λ s. some (next_fire s after)
next_time_fields fuel other after = some (one_hour_later after)

-- NextTime; `none` when the fuel of a parse loop runs out
unfoldable pub next_time : ℕ → Bytes → ℕ → Option ℕ
unfolding next_time_fields
next_time fuel expr after = next_time_fields fuel (fields expr) after
