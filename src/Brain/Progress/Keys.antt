-- ===== src/Brain/Progress/Keys.antt =====
-- brain/progress.go: lists of keys that are done.
use ho.Prelude.{
  ◌≤◌, ◌<◌, ◌≡◌, refl, inl, inr, true, false, not, List, [], ◌∷◌, ◌++◌, map, select, length,
  length-select, Bool-cases, arith,
}
use ho.Prelude.Bytes.{Bytes, same, same_eq, same_iff}
use ho.Brain.Plan.Check.Names.{Distinct}
use ho.Brain.Progress.{is_done, missing}

-- What is left of a list without a key that it has is shorter.
length-without :
    (key : Bytes) (done : List Bytes)
    → is_done key done ≡ true
    → length (select (λ k. not (same k key)) done) < length done
length-without key [] h = ground (arith, h)
length-without key (k ∷ done) h = elim (Bool-cases (same k key)) [
  | inl e ↦ rw e (omega (arith, length-select (λ k'. not (same k' key)) done))
  | inr e ↦ rw e (ground (arith, e, h, length-without key done))
]

other_than :
    (k key other : Bytes) → same k key ≡ true → same other key ≡ false → same k other ≡ false
other_than k key other e h =
    rw (same_eq k key e) (ground (arith, h, same_iff key other, same_iff other key))

-- Another key is still there.
is_done-without :
    (key other : Bytes) (done : List Bytes)
    → same other key ≡ false
    → is_done other (select (λ k. not (same k key)) done) ≡ is_done other done
is_done-without key other [] h = refl
is_done-without key other (k ∷ done) h = elim (Bool-cases (same k key)) [
  | inl e ↦ rw e (
      ground (
        arith,
        h,
        e,
        same_eq k key e,
        is_done-without key other done h,
        other_than k key other e h,
      ))
  | inr e ↦ rw e (ground (arith, is_done-without key other done h))
]

missing-without :
    (key : Bytes) (done names : List Bytes)
    → is_done key names ≡ false
    → missing (select (λ k. not (same k key)) done) names ≡ missing done names
missing-without key done [] h = refl
missing-without key done (name ∷ names) h =
    ground (arith, h, is_done-without key name done, missing-without key done names)

-- Distinct keys that are all done are no more than the keys that are done.
pub length-done :
    (names done : List Bytes)
    → Distinct names
    → missing done names ≡ []
    → length names ≤ length done
length-done [] done d h = omega arith
length-done (name ∷ names) done (new, d) h = elim (Bool-cases (is_done name done)) [
  | inl e ↦
      let shorter = length-without name done e in
      let rest = select (λ k. not (same k name)) done in
      let left : missing rest names ≡ [] =
        rw (missing-without name done names new) (ground (arith, h, e)) in
      omega (arith, shorter, length-done names rest d left)
  | inr e ↦ ground (arith, h, e)
]

pub append_nil : (xs ys : List Bytes) → xs ++ ys ≡ [] → (xs ≡ []) × (ys ≡ [])
append_nil [] ys h = (refl, h)
append_nil (x ∷ xs) ys h = ground (arith, h)

pub length-map : {A : Type 0} → (f : A → Bytes) (xs : List A) → length (map f xs) ≡ length xs
length-map f [] = refl
length-map f (x ∷ xs) = omega (arith, length-map f xs)
