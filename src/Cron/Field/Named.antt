-- ===== src/Cron/Field/Named.antt =====
-- internal/cron/cron.go: the values that the text of a field names, and a loop that puts them into a set.
use ho.Prelude.{
  ℕ, zero, suc, ◌+◌, ◌≤◌, ◌<◌, ◌≡◌, refl, Bool, true, false, ◌&&◌, ◌||◌, List, [], ◌∷◌, Option,
  none, some, ltb, arith, if◌then◌else◌,
}
use ho.Prelude.Int.{ℤ, pos, negsuc, int_limit}
use ho.Prelude.Bytes.{Bytes, codes, same, trim_space, has_byte, cut, split, atoi}
use ho.Cron.Field.{fill, has, check_value, check_ends, step_or_one}
use ho.Cron.Field.Fill.{fill_lem, on_grid, on_grid-start}

-- The values that two ends and a step name.
abbrev pub between : Option ℤ → Option ℤ → ℕ → ℕ → Bool
between (some (pos s)) (some (pos e)) step v = on_grid s e step v
between _ _ step v = false

abbrev pub range_allows : ℕ → ℕ → Bytes → Bytes × Option Bytes → ℕ → Bool
range_allows hi step text (a, none) v = between (atoi text) (some (pos hi)) step v
range_allows hi step text (a, some b) v = between (atoi a) (atoi b) step v

abbrev pub step_allows : ℕ → ℕ → Bytes × Option Bytes → ℕ → Bool
step_allows lo hi (range, none) v = false
step_allows lo hi (range, some step) v =
    if same range (codes "*")
    then on_grid lo hi (step_or_one (atoi step)) v
    else range_allows hi (step_or_one (atoi step)) range (cut b'-' range) v

-- The values that one part of a field names: `*`, `*/s`, `a/s`, `a-b/s`, `a-b` or `a`.
abbrev pub part_allows : ℕ → ℕ → Bytes → ℕ → Bool
part_allows lo hi part v =
    if has_byte b'/' part
    then step_allows lo hi (cut b'/' part) v
    else if same part (codes "*")
    then on_grid lo hi 1 v
    else if has_byte b'-' part
    then range_allows hi 1 part (cut b'-' part) v
    else between (atoi part) (atoi part) 1 v

abbrev pub parts_allow : ℕ → ℕ → List Bytes → ℕ → Bool
parts_allow lo hi [] v = false
parts_allow lo hi (part ∷ parts) v =
    part_allows lo hi (trim_space part) v || parts_allow lo hi parts v

-- The values that a field names: those of any of its parts.
abbrev pub field_allows : ℕ → ℕ → Bytes → ℕ → Bool
field_allows lo hi field v = parts_allow lo hi (split b',' field) v

-- No step of the field is so large that int arithmetic wraps on it.
abbrev pub has_small_step : ℕ → Bytes × Option Bytes → Bool
has_small_step hi (range, none) = true
has_small_step hi (range, some step) = ltb (hi + step_or_one (atoi step)) int_limit

abbrev pub small_steps : ℕ → List Bytes → Bool
small_steps hi [] = true
small_steps hi (part ∷ parts) =
    has_small_step hi (cut b'/' (trim_space part)) && small_steps hi parts

-- The run ends, the set has gained the values of `p`, and these are some and within the limits.
abbrev pub Fills : ℕ → ℕ → List ℤ → (ℕ → Bool) → Option (List ℤ) → Type 0
Fills lo hi set p r =
    (out : List ℤ) × (r ≡ some out)
    × ((v : ℕ) → has v out ≡ (has v set || p v))
    × ((v : ℕ) → p v ≡ true → (lo ≤ v) × (v ≤ hi))
    × ((v : ℕ) × (p v ≡ true))

pub fill-Fills :
    (fuel lo hi s e step : ℕ) (set : List ℤ)
    → lo ≤ s
    → s ≤ e
    → e ≤ hi
    → 0 < step
    → hi + step < int_limit
    → hi + 1 < fuel
    → Fills lo hi set (on_grid s e step) (fill fuel (pos s) (pos e) step set)
fill-Fills fuel lo hi s e step set a b c sp lim f =
    let (out, eq, spec) = fill_lem fuel s e step set sp (omega arith) (omega arith) (omega arith) in
    (out, eq, spec, (λ v h. ground arith), (s, on_grid-start s e step b sp))

pub value-pos :
    (text : Bytes) (lo hi : ℕ) (o : Option ℤ)
    → check_value text lo hi o ≡ none
    → (n : ℕ) × (o ≡ some (pos n)) × (lo ≤ n) × (n ≤ hi)
unfolding check_value
value-pos text lo hi none h = cc
value-pos text lo hi (some (pos n)) h = (n, refl, ground arith, ground arith)
value-pos text lo hi (some (negsuc n)) h = cc

pub ends-pos :
    (a b : Bytes) (lo hi : ℕ) (s e : Option ℤ)
    → check_ends a b lo hi s e ≡ none
    → (m : ℕ) × (n : ℕ) × (s ≡ some (pos m)) × (e ≡ some (pos n)) × (lo ≤ m) × (m ≤ n) × (n ≤ hi)
unfolding check_ends
ends-pos a b lo hi none e h = cc
ends-pos a b lo hi (some s) none h = cc
ends-pos a b lo hi (some (pos m)) (some (pos n)) h =
    (m, n, refl, refl, ground arith, ground arith, ground arith)
ends-pos a b lo hi (some (pos m)) (some (negsuc n)) h = ground arith
ends-pos a b lo hi (some (negsuc m)) (some e) h = cc

pub step_pos : (o : Option ℤ) → 0 < step_or_one o
step_pos none = omega arith
step_pos (some (pos zero)) = omega arith
step_pos (some (pos (suc n))) = omega arith
step_pos (some (negsuc n)) = omega arith
