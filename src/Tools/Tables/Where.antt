-- ===== src/Tools/Tables/Where.antt =====
-- The placeholders of a WHERE clause and its parameters (tools/tables.go).
use ho.Tools.Tables.{
  one_of, allowed_ops, Filter, object, not_object, FilterError, is_null_test, null_clause,
  with_value, filter_clause, join_clauses, filter_clauses, where_text, build_where_clause,
}
use ho.Prelude.{ℕ, ◌+◌, ◌≡◌, refl, sym, subst}
use ho.Prelude.{inl, inr, true, false, Option, none, some}
use ho.Prelude.{List, [], ◌∷◌, ◌++◌, arith, if◌then◌else◌, ◌==◌, Bool-cases}
use ho.Prelude.{length, All, all, length-append}
use ho.Prelude.Bytes.{
  Bytes, codes, same, same_eq, is_identifier, is_word, join, to_upper, trim_space,
}
use ho.Prelude.Result.{Result, err, ok}

abbrev question_mark : ℕ
question_mark = 63

-- How many placeholders a text has.
abbrev pub placeholders : Bytes → ℕ
placeholders [] = 0
placeholders (c ∷ s) = (if c == question_mark then 1 else 0) + placeholders s

placeholders-append : (s t : Bytes) → placeholders (s ++ t) ≡ placeholders s + placeholders t
placeholders-append [] t = omega arith
placeholders-append (c ∷ s) t = omega (arith, placeholders-append s t)

word_placeholder : (c : ℕ) → is_word c ≡ true → (c == question_mark) ≡ false
word_placeholder c h = ground (arith, h)

word_placeholders : (s : Bytes) → all is_word s ≡ true → placeholders s ≡ 0
word_placeholders [] h = refl
word_placeholders (c ∷ s) h =
    let this : is_word c ≡ true = ground (arith, h) in
    let rest : all is_word s ≡ true = ground (arith, h) in
    rw (word_placeholder c this, word_placeholders s rest) refl

identifier_placeholders : (s : Bytes) → is_identifier s ≡ true → placeholders s ≡ 0
identifier_placeholders [] h = refl
identifier_placeholders (c ∷ s) h =
    let start : is_word c ≡ true = ground (arith, h) in
    let rest : all is_word s ≡ true = ground (arith, h) in
    rw (word_placeholder c start, word_placeholders s rest) refl

one_of-All :
    (P : Bytes → Type 0) (words : List Bytes) (s : Bytes)
    → All P words
    → one_of words s ≡ true
    → P s
one_of-All P [] s h m = cc
one_of-All P (w ∷ words) s h m = elim (Bool-cases (same s w)) [
  | inl e ↦ subst P (sym (same_eq s w e)) h.0
  | inr e ↦ let m' = rw e at m in one_of-All P words s h.1 m'
]

op_placeholders : (op : Bytes) → one_of allowed_ops op ≡ true → placeholders op ≡ 0
op_placeholders op h =
    one_of-All (λ w. placeholders w ≡ 0) allowed_ops op
      (refl, (refl, (refl, (refl, (refl, (refl, (refl, (refl, (refl, (refl, tt)))))))))) h

null_placeholders :
    (col op : Bytes)
    → placeholders col ≡ 0
    → placeholders op ≡ 0
    → placeholders (null_clause col op) ≡ 0
null_placeholders col op c o = omega (arith, placeholders-append col (32 ∷ op))

-- The placeholders of all clauses
abbrev total : List Bytes → ℕ
total [] = 0
total (c ∷ cs) = placeholders c + total cs

placeholders-join : (cs : List Bytes) → placeholders (join (codes " AND ") cs) ≡ total cs
placeholders-join [] = refl
placeholders-join (c ∷ []) = omega arith
placeholders-join (c ∷ d ∷ cs) =
    let rest = join (codes " AND ") (d ∷ cs) in
    omega (
      arith,
      placeholders-append c (codes " AND " ++ rest),
      placeholders-append (codes " AND ") rest,
      placeholders-join (d ∷ cs),
    )

module _ {V : Type 0} where
  -- One filter that is accepted has a placeholder for each of its parameters.
  abbrev pub Fits : Result FilterError (Bytes × List V) → Type 0
  Fits (err e) = Unit
  Fits (ok (text, params)) = placeholders text ≡ length params

  with_value-Fits :
      (col op : Bytes) (value : Option V)
      → placeholders col ≡ 0
      → placeholders op ≡ 0
      → Fits (with_value col op value)
  with_value-Fits col op none c o = tt
  with_value-Fits col op (some v) c o = omega (
    arith,
    placeholders-append col (32 ∷ (op ++ codes " ?")),
    placeholders-append op (codes " ?"),
  )

  filter_clause-Fits : (f : Filter V) → Fits (filter_clause f)
  unfolding filter_clause
  filter_clause-Fits not_object = tt
  filter_clause-Fits (object col raw value) =
      let op = to_upper (trim_space raw) in
      elim (Bool-cases (is_identifier col)) [
        | inr e ↦ rw e tt
        | inl e ↦ elim (Bool-cases (one_of allowed_ops op)) [
          | inr f ↦ rw (e, f) tt
          | inl f ↦
              let c = identifier_placeholders col e in
              let o = op_placeholders op f in
              elim (Bool-cases (is_null_test op)) [
                | inl g ↦ rw (e, f, g) (null_placeholders col op c o)
                | inr g ↦ rw (e, f, g) (with_value-Fits col op value c o)
              ]
        ]
      ]

  -- The clauses of all filters
  abbrev AllFit : Result FilterError (List Bytes × List V) → Type 0
  AllFit (err e) = Unit
  AllFit (ok (cs, params)) = total cs ≡ length params

  join_clauses-AllFit :
      (r : Result FilterError (Bytes × List V)) (rest : Result FilterError (List Bytes × List V))
      → Fits r
      → AllFit rest
      → AllFit (join_clauses r rest)
  join_clauses-AllFit (err e) rest h k = tt
  join_clauses-AllFit (ok c) (err e) h k = tt
  join_clauses-AllFit (ok (c, vs)) (ok (cs, ws)) h k = omega (arith, h, k, length-append vs ws)

  filter_clauses-AllFit : (fs : List (Filter V)) → AllFit (filter_clauses fs)
  unfolding filter_clauses
  filter_clauses-AllFit [] = refl
  filter_clauses-AllFit (f ∷ fs) =
      join_clauses-AllFit (filter_clause f) (filter_clauses fs) (filter_clause-Fits f)
        (filter_clauses-AllFit fs)

  where_text-Fits : (r : Result FilterError (List Bytes × List V)) → AllFit r → Fits (where_text r)
  where_text-Fits (err e) h = tt
  where_text-Fits (ok (cs, params)) h = omega (arith, h, placeholders-join cs)

  -- A WHERE clause that is built of any filters has a placeholder for each of its parameters, and no other:
  -- no column and no operator that a request names brings one in.
  pub build_where_clause-Fits : (fs : List (Filter V)) → Fits (build_where_clause fs)
  unfolding build_where_clause
  build_where_clause-Fits [] = refl
  build_where_clause-Fits (f ∷ fs) =
      where_text-Fits (filter_clauses (f ∷ fs)) (filter_clauses-AllFit (f ∷ fs))
