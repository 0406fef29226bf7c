-- ===== src/Examples/Cron.antt =====
-- internal/cron/cron.go, on concrete expressions.
use ho.Prelude.{ℕ, ◌≤◌, ◌≡◌, refl, true, List, [], ◌∷◌, none, some, arith}
use ho.Prelude.Int.{ℤ, pos}
use ho.Prelude.Bytes.{Bytes, codes, atoi}
use ho.Cron.Field.{has, parse_field, validate_field}
use ho.Cron.Field.Named.{field_allows}
use ho.Cron.Field.Valid.{parse-validate}
use ho.Cron.Next.{Schedule, next_time, validate, validate_fields}
use ho.Cron.Next.Correct.{Means, NextFire, next_time-validate}

abbrev office : Bytes
office = codes "*/15 9-17 1,15 * 1-5"

office-validate : validate office ≡ none
unfolding validate validate_fields validate_field atoi
office-validate = refl

next_time-validate_example :
    (s : Schedule) × Means s (codes "*/15") (codes "9-17") (codes "1,15") (codes "*") (codes "1-5")
    × (t : ℕ) × (next_time 61 office 0 ≡ some t)
    × NextFire s 0 t
unfolding atoi
next_time-validate_example =
    next_time-validate 61 office (codes "*/15") (codes "9-17") (codes "1,15") (codes "*")
      (codes "1-5") 0 refl office-validate (refl, refl, refl, refl, refl) (omega arith)

abbrev noon : Schedule
noon = record {
  minutes = pos 0 ∷ [];
  hours = pos 12 ∷ [];
  days = pos 1 ∷ pos 2 ∷ [];
  months = pos 1 ∷ [];
  weekdays = pos 4 ∷ pos 5 ∷ [];
}

quarter-validate : validate_field (codes "*/15") 0 59 ≡ none
unfolding validate_field atoi
quarter-validate = refl

parse-validate_example :
    (set : List ℤ) × (parse_field 61 (codes "*/15") 0 59 ≡ some set)
    × ((v : ℕ) → has v set ≡ field_allows 0 59 (codes "*/15") v)
    × ((v : ℕ) → has v set ≡ true → (0 ≤ v) × (v ≤ 59))
    × ((v : ℕ) × (has v set ≡ true))
unfolding atoi
parse-validate_example =
    parse-validate 61 0 59 (codes "*/15") (omega arith) (omega arith) (omega arith) quarter-validate
      refl
