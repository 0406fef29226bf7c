-- ===== src/Cron/Field.antt =====
-- internal/cron/cron.go: one field of a cron expression, its syntax check (validateField,
-- validateRange) and the set of values that it allows (parseField).
pub mod Fill
pub mod Named
pub mod Part
pub mod Valid
use ho.Prelude.{
  ℕ, zero, suc, Bool, true, false, not, ◌&&◌, ◌||◌, List, [], ◌∷◌, Option, none, some, ltb, ◌==◌,
  if◌then◌else◌,
}
use ho.Prelude.Int.{ℤ, pos, negsuc, le_int, lt_int, add_step}
use ho.Prelude.Bytes.{Bytes, codes, same, trim_space, has_byte, cut, split, atoi}

pub data FieldError : Type 0 where
  empty_value : FieldError
  invalid_step : Bytes → FieldError
  invalid_value : Bytes → FieldError
  invalid_start : Bytes → FieldError
  invalid_end : Bytes → FieldError
  value_out_of_range : ℤ → FieldError
  range_invalid : ℤ → ℤ → FieldError

-- A value on its own: `val < min || val > max` is refused.
unfoldable pub check_value : Bytes → ℕ → ℕ → Option ℤ → Option FieldError
check_value text lo hi none = some (invalid_value text)
check_value text lo hi (some v) =
    if lt_int v (pos lo) || lt_int (pos hi) v then some (value_out_of_range v) else none

unfoldable pub check_ends : Bytes → Bytes → ℕ → ℕ → Option ℤ → Option ℤ → Option FieldError
check_ends a b lo hi none e = some (invalid_start a)
check_ends a b lo hi (some s) none = some (invalid_end b)
check_ends a b lo hi (some s) (some e) =
    if lt_int s (pos lo) || lt_int (pos hi) e || lt_int e s then some (range_invalid s e) else none

check_cut : Bytes → ℕ → ℕ → Bytes × Option Bytes → Option FieldError
unfolding check_value check_ends
check_cut text lo hi (a, none) = check_value text lo hi (atoi text)
check_cut text lo hi (a, some b) = check_ends a b lo hi (atoi a) (atoi b)

-- validateRange
unfoldable pub validate_range : Bytes → ℕ → ℕ → Option FieldError
unfolding check_cut
validate_range text lo hi = check_cut text lo hi (cut b'-' text)

-- `err != nil || step <= 0`
abbrev pub is_step : Option ℤ → Bool
is_step none = false
is_step (some (pos n)) = ltb 0 n
is_step (some (negsuc n)) = false

check_step : ℕ → ℕ → Bytes × Option Bytes → Option FieldError
unfolding validate_range
check_step lo hi (range, none) = none
check_step lo hi (range, some step) =
    if not (is_step (atoi step))
    then some (invalid_step step)
    else if same range (codes "*")
    then none
    else validate_range range lo hi

-- The body of validateField's loop, on a trimmed part.
unfoldable pub validate_part : ℕ → ℕ → Bytes → Option FieldError
unfolding check_step validate_range check_value
validate_part lo hi [] = some empty_value
validate_part lo hi (c ∷ rest) =
    let part = c ∷ rest in
    if same part (codes "*")
    then none
    else if has_byte b'/' part
    then check_step lo hi (cut b'/' part)
    else if has_byte b'-' part
    then validate_range part lo hi
    else check_value part lo hi (atoi part)

abbrev pub or_else : Option FieldError → Option FieldError → Option FieldError
or_else (some e) later = some e
or_else none later = later

unfoldable pub validate_parts : ℕ → ℕ → List Bytes → Option FieldError
unfolding validate_part
validate_parts lo hi [] = none
validate_parts lo hi (part ∷ parts) =
    or_else (validate_part lo hi (trim_space part)) (validate_parts lo hi parts)

-- validateField
unfoldable pub validate_field : Bytes → ℕ → ℕ → Option FieldError
unfolding validate_parts
validate_field field lo hi = validate_parts lo hi (split b',' field)

-- `for i := start; i <= end; i += step { set[i] = true }`, the set as the values put in. An int that
-- passes its limit wraps, so the loop has fuel: `none` when it runs out.
unfoldable pub fill : ℕ → ℤ → ℤ → ℕ → List ℤ → Option (List ℤ)
fill zero i last step set = none
fill (suc fuel) i last step set = elim (le_int i last) [
  | true ↦ fill fuel (add_step i step) last step (i ∷ set)
  | false ↦ some set
]

-- A step that does not parse, or is not positive, counts as 1.
abbrev pub step_or_one : Option ℤ → ℕ
step_or_one none = 1
step_or_one (some (pos zero)) = 1
step_or_one (some (pos (suc n))) = suc n
step_or_one (some (negsuc n)) = 1

-- `continue` leaves the set as it is.
unfoldable pub fill_ends : ℕ → Option ℤ → Option ℤ → ℕ → List ℤ → Option (List ℤ)
unfolding fill
fill_ends fuel (some s) (some e) step set = fill fuel s e step set
fill_ends fuel none e step set = some set
fill_ends fuel (some s) none step set = some set

-- The range in front of a slash; a lone start runs to the field's maximum.
step_range : ℕ → ℕ → ℕ → Bytes → Bytes × Option Bytes → List ℤ → Option (List ℤ)
unfolding fill_ends
step_range fuel hi step text (a, none) set = fill_ends fuel (atoi text) (some (pos hi)) step set
step_range fuel hi step text (a, some b) set = fill_ends fuel (atoi a) (atoi b) step set

parse_step : ℕ → ℕ → ℕ → Bytes × Option Bytes → List ℤ → Option (List ℤ)
unfolding step_range fill
parse_step fuel lo hi (range, none) set = some set
parse_step fuel lo hi (range, some step) set =
    let n = step_or_one (atoi step) in
    if same range (codes "*")
    then fill fuel (pos lo) (pos hi) n set
    else step_range fuel hi n range (cut b'-' range) set

parse_range : ℕ → Bytes × Option Bytes → List ℤ → Option (List ℤ)
unfolding fill_ends
parse_range fuel (a, none) set = some set
parse_range fuel (a, some b) set = fill_ends fuel (atoi a) (atoi b) 1 set

unfoldable pub put_value : ℕ → ℕ → Option ℤ → List ℤ → List ℤ
put_value lo hi none set = set
put_value lo hi (some v) set = if le_int (pos lo) v && le_int v (pos hi) then v ∷ set else set

-- The body of parseField's loop, on a trimmed part.
unfoldable pub parse_part : ℕ → ℕ → ℕ → Bytes → List ℤ → Option (List ℤ)
unfolding parse_step parse_range put_value fill
parse_part fuel lo hi part set =
    if has_byte b'/' part
    then parse_step fuel lo hi (cut b'/' part) set
    else if same part (codes "*")
    then fill fuel (pos lo) (pos hi) 1 set
    else if has_byte b'-' part
    then parse_range fuel (cut b'-' part) set
    else some (put_value lo hi (atoi part) set)

abbrev pub bind {ℓ κ} : {A : Type ℓ} {B : Type κ} → Option A → (A → Option B) → Option B
bind none f = none
bind (some a) f = f a

unfoldable pub parse_parts : ℕ → ℕ → ℕ → List Bytes → List ℤ → Option (List ℤ)
unfolding parse_part
parse_parts fuel lo hi [] set = some set
parse_parts fuel lo hi (part ∷ parts) set =
    bind (parse_part fuel lo hi (trim_space part) set) (parse_parts fuel lo hi parts)

-- An empty set stands for a parse error, and allows every value.
unfoldable pub or_all : ℕ → ℕ → ℕ → List ℤ → Option (List ℤ)
unfolding fill
or_all fuel lo hi [] = fill fuel (pos lo) (pos hi) 1 []
or_all fuel lo hi (v ∷ set) = some (v ∷ set)

-- parseField
unfoldable pub parse_field : ℕ → Bytes → ℕ → ℕ → Option (List ℤ)
unfolding parse_parts or_all
parse_field fuel field lo hi =
    bind (parse_parts fuel lo hi (split b',' field) []) (or_all fuel lo hi)

-- `set[v]`, for the values that a time can have
abbrev pub has : ℕ → List ℤ → Bool
has v [] = false
has v (pos n ∷ set) = n == v || has v set
has v (negsuc n ∷ set) = has v set
