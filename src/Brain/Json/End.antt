-- ===== src/Brain/Json/End.antt =====
-- brain/plan.go, findJSONEnd: the end that it finds.
use ho.Prelude.{
  ℕ, ◌+◌, ◌≤◌, ◌<◌, ◌≡◌, Bool, true, false, not, ◌||◌, inl, inr, [], ◌∷◌, ◌++◌, length, Option,
  some, ◌==◌, Bool-cases, arith,
}
use ho.Prelude.Int.{ℤ, pos}
use ho.Prelude.Bytes.{Bytes}
use ho.Brain.Json.{end_from, find_json_end, inc, dec, is_zero, is_open, quote, backslash}

-- The end lies in the text, past its first byte, and does not depend on what follows it.
abbrev Found : ℕ → ℕ → Bytes → Bytes → Option ℕ → Type 0
Found i n text more after = (i < n) × (n ≤ i + length text) × (after ≡ some n)

end_from-Found :
    (text more : Bytes) (i : ℕ) (depth : ℤ) (in_string escaped : Bool) (n : ℕ)
    → end_from i depth in_string escaped text ≡ some n
    → Found i n text more (end_from i depth in_string escaped (text ++ more))
unfolding end_from
end_from-Found [] more i depth s e n h = cc
end_from-Found (c ∷ text) more i depth s true n h =
    let (a, b, eq) = end_from-Found text more (i + 1) depth s false n h in
    (omega arith, omega arith, eq)
end_from-Found (c ∷ text) more i depth true false n h =
    let (a, b, eq) =
      end_from-Found text more (i + 1) depth (not (c == quote)) (c == backslash) n h in
    (omega arith, omega arith, eq)
end_from-Found (c ∷ text) more i depth false false n h = elim (Bool-cases (c == quote)) [
  | inl e ↦
      let h' = rw e at h in
      let (a, b, eq) = end_from-Found text more (i + 1) depth true false n h' in
      (omega arith, omega arith, rw e eq)
  | inr e ↦ elim (Bool-cases (is_open c)) [
    | inl e' ↦
        let h' = rw (e, e') at h in
        let (a, b, eq) = end_from-Found text more (i + 1) (inc depth) false false n h' in
        (omega arith, omega arith, rw (e, e') eq)
    | inr e' ↦ elim (Bool-cases (c == b'}' || c == b']')) [
      | inl e'' ↦ elim (Bool-cases (is_zero (dec depth))) [
        | inl z ↦
            let h' = rw (e, e', e'', z) at h in
            (ground (arith, h'), ground (arith, h'), rw (e, e', e'', z) h')
        | inr z ↦
            let h' = rw (e, e', e'', z) at h in
            let (a, b, eq) = end_from-Found text more (i + 1) (dec depth) false false n h' in
            (omega arith, omega arith, rw (e, e', e'', z) eq)
      ]
      | inr e'' ↦
          let h' = rw (e, e', e'') at h in
          let (a, b, eq) = end_from-Found text more (i + 1) depth false false n h' in
          (omega arith, omega arith, rw (e, e', e'') eq)
    ]
  ]
]

-- The end that is found lies in the text, and appending text does not move it.
pub find_json_end-append :
    (text more : Bytes) (n : ℕ)
    → find_json_end text ≡ some n
    → (0 < n) × (n ≤ length text) × (find_json_end (text ++ more) ≡ some n)
unfolding find_json_end
find_json_end-append text more n h =
    let (a, b, eq) = end_from-Found text more 0 (pos 0) false false n h in (a, omega arith, eq)
