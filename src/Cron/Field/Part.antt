-- ===== src/Cron/Field/Part.antt =====
-- internal/cron/cron.go: what parseField makes of one part of a field that validateField accepts.
use ho.Prelude.{
  ℕ, ◌+◌, ◌≤◌, ◌<◌, ◌≡◌, true, false, List, [], ◌∷◌, Option, none, some, inl, inr, ◌==◌, Bool-cases,
  arith, if◌then◌else◌,
}
use ho.Prelude.Int.{ℤ, pos, int_limit}
use ho.Prelude.Bytes.{Bytes, codes, same, has_byte, cut, atoi}
use ho.Cron.Field.{
  has, validate_part, validate_range, check_value, check_ends, step_range, check_step, check_cut,
  parse_step, parse_range, parse_part, put_value, fill_ends, step_or_one,
}
use ho.Cron.Field.Fill.{on_grid-start, on_grid-single}
use ho.Cron.Field.Named.{
  between, range_allows, step_allows, part_allows, has_small_step, Fills, fill-Fills, value-pos,
  ends-pos, step_pos,
}

module _ (fuel lo hi : ℕ) (set : List ℤ) (ordered : lo ≤ hi) (fits : hi + 1 < int_limit)
    (enough : hi + 1 < fuel) where
  value-Fills :
      (text : Bytes) (o : Option ℤ)
      → check_value text lo hi o ≡ none
      → Fills lo hi set (between o o 1) (some (put_value lo hi o set))
  unfolding put_value
  value-Fills text o h =
      let (n, e, a, b) = value-pos text lo hi o h in
      rw (e, between, put_value)
        (
          pos n ∷ set,
          ground arith,
          (λ v. on_grid-single n v (has v set)),
          (λ v k. ground arith),
          (n, on_grid-start n n 1 (omega arith) (omega arith)),
        )

  ends-Fills :
      (a b : Bytes) (s e : Option ℤ) (step : ℕ)
      → check_ends a b lo hi s e ≡ none
      → 0 < step
      → hi + step < int_limit
      → Fills lo hi set (between s e step) (fill_ends fuel s e step set)
  unfolding fill_ends
  ends-Fills a b s e step h sp lim =
      let (m, n, es, ee, x, y, z) = ends-pos a b lo hi s e h in
      rw (es, ee, fill_ends, between) (fill-Fills fuel lo hi m n step set x y z sp lim enough)

  lone-Fills :
      (text : Bytes) (o : Option ℤ) (step : ℕ)
      → check_value text lo hi o ≡ none
      → 0 < step
      → hi + step < int_limit
      → Fills lo hi set (between o (some (pos hi)) step) (fill_ends fuel o (some (pos hi)) step set)
  unfolding fill_ends
  lone-Fills text o step h sp lim =
      let (n, e, a, b) = value-pos text lo hi o h in
      rw (e, fill_ends, between)
        (fill-Fills fuel lo hi n hi step set a b (omega arith) sp lim enough)

  range-Fills :
      (text : Bytes) (step : ℕ)
      → validate_range text lo hi ≡ none
      → 0 < step
      → hi + step < int_limit
      → Fills lo hi set
          (range_allows hi step text (cut b'-' text))
          (step_range fuel hi step text (cut b'-' text) set)
  unfolding validate_range step_range
  range-Fills text step h sp lim = go (cut b'-' text) h
    where
      go :
          (c : Bytes × Option Bytes)
          → check_cut text lo hi c ≡ none
          → Fills lo hi set (range_allows hi step text c) (step_range fuel hi step text c set)
      go (a, none) h = lone-Fills text (atoi text) step h sp lim
      go (a, some b) h = ends-Fills a b (atoi a) (atoi b) step h sp lim

  step-Fills :
      (c : Bytes × Option Bytes)
      → (x : Bytes) × (y : Bytes) × (c ≡ (x, some y))
      → check_step lo hi c ≡ none
      → has_small_step hi c ≡ true
      → Fills lo hi set (step_allows lo hi c) (parse_step fuel lo hi c set)
  unfolding check_step parse_step
  step-Fills (range, none) (x, y, e) h k = cc
  step-Fills (range, some step) _ h k = elim (Bool-cases (same range (codes "*"))) [
    | inl star ↦
        rw (star, step_allows)
          (fill-Fills fuel lo hi lo hi (step_or_one (atoi step)) set (omega arith) ordered
            (omega arith) (step_pos (atoi step)) (ground arith) enough)
    | inr other ↦
        rw (other, step_allows)
          (range-Fills range (step_or_one (atoi step)) (ground (arith, h)) (step_pos (atoi step))
            (ground arith))
  ]

cut-some :
    (b : ℕ) (s : Bytes) → has_byte b s ≡ true → (x : Bytes) × (y : Bytes) × (cut b s ≡ (x, some y))
cut-some b [] h = cc
cut-some b (c ∷ s) h = elim (Bool-cases (c == b)) [
  | inl here ↦ ([], s, ground arith)
  | inr later ↦ let (x, y, e) = cut-some b s (ground arith) in (c ∷ x, y, rw (later, e))
]

no_slash : (s : Bytes) → same s (codes "*") ≡ true → has_byte b'/' s ≡ false
no_slash [] h = cc
no_slash (c ∷ []) h = ground arith
no_slash (c ∷ d ∷ s) h = ground arith

-- A part that is neither a star nor has a slash.
plain-Fills :
    (fuel lo hi : ℕ) (set : List ℤ) (part : Bytes)
    → lo ≤ hi
    → hi + 1 < int_limit
    → hi + 1 < fuel
    → (if has_byte b'-' part then validate_range part lo hi else check_value part lo hi (atoi part))
      ≡ none
    → Fills lo hi set
        (λ v.
          if has_byte b'-' part
          then range_allows hi 1 part (cut b'-' part) v
          else between (atoi part) (atoi part) 1 v)
        (if has_byte b'-' part
          then parse_range fuel (cut b'-' part) set
          else some (put_value lo hi (atoi part) set))
unfolding parse_range atoi step_range
plain-Fills fuel lo hi set part o lim f h = elim (Bool-cases (has_byte b'-' part)) [
  | inl dash ↦
      let (x, y, e) = cut-some b'-' part dash in
      let h' : validate_range part lo hi ≡ none = ground (arith, h) in
      let r = range-Fills fuel lo hi set o lim f part 1 h' (omega arith) lim in
      rw (dash, e, range_allows, parse_range) (rw (e, range_allows, step_range) at r)
  | inr one ↦ rw one (value-Fills fuel lo hi set o lim f part (atoi part) (ground (arith, h)))
]

pub part-Fills :
    (fuel lo hi : ℕ) (set : List ℤ) (part : Bytes)
    → lo ≤ hi
    → hi + 1 < int_limit
    → hi + 1 < fuel
    → validate_part lo hi part ≡ none
    → has_small_step hi (cut b'/' part) ≡ true
    → Fills lo hi set (part_allows lo hi part) (parse_part fuel lo hi part set)
unfolding validate_part parse_part
part-Fills fuel lo hi set [] o lim f h k = cc
part-Fills fuel lo hi set (c ∷ rest) o lim f h k =
    let part : Bytes = c ∷ rest in
    elim (Bool-cases (same part (codes "*"))) [
      | inl star ↦
          rw (no_slash part star, star)
            (fill-Fills fuel lo hi lo hi 1 set (omega arith) o (omega arith) (omega arith) lim f)
      | inr other ↦ elim (Bool-cases (has_byte b'/' part)) [
        | inl slash ↦ rw slash (
            step-Fills fuel lo hi set o lim f (cut b'/' part) (cut-some b'/' part slash)
              (ground (arith, h)) k)
        | inr whole ↦
            rw (whole, other) (plain-Fills fuel lo hi set part o lim f (ground (arith, h)))
      ]
    ]
