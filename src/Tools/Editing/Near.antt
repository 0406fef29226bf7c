-- ===== src/Tools/Editing/Near.antt =====
-- Which occurrence replaceNear replaces (tools/editing.go).
use ho.Tools.Editing.Patches.{is_nil, later, index, gap, nearer, closest}
use ho.Tools.Editing.Patches.{replace_near}
use ho.Prelude.{ℕ, zero, suc, ◌+◌, ◌-◌, ◌/◌, ◌≤◌, ◌<◌, ◌≡◌, refl, ap, ◌∙◌, subst}
use ho.Prelude.{◌⊎◌, inl, inr, Bool, true, false, Option, none, some}
use ho.Prelude.{List, [], ◌∷◌, ◌++◌, arith, if◌then◌else◌, ltb, ◌==◌, Bool-cases, Option-cases}
use ho.Prelude.{length, All, any, take, drop}
use ho.Prelude.{length-drop, ==_iff, ==_refl}
use mathlib.Core.Option.{some-injective}
use ho.Prelude.Bytes.{Bytes, has_prefix}

-- The offsets of all occurrences, those that overlap too.
abbrev pub positions : ℕ → Bytes → Bytes → List ℕ
positions offset p [] = []
positions offset p (c ∷ s) =
    let rest = positions (suc offset) p s in if has_prefix (c ∷ s) p then offset ∷ rest else rest

abbrev pub is_member : ℕ → List ℕ → Bool
is_member i is = any (λ j. j == i) is

nearer_le :
    (center : ℕ) (p : Bytes) (offset : ℕ) (s : Bytes) (best : Option ℕ × ℕ)
    → (nearer center p offset s best).1 ≤ best.1
unfolding nearer
nearer_le center p offset s best = ground arith

nearer_here :
    (center : ℕ) (p : Bytes) (offset : ℕ) (s : Bytes) (best : Option ℕ × ℕ)
    → has_prefix s p ≡ true
    → (nearer center p offset s best).1 ≤ gap center p offset
unfolding nearer
nearer_here center p offset s best h = rw h (ground arith)

nearer-found :
    (center : ℕ) (p : Bytes) (offset : ℕ) (s : Bytes) (best : Option ℕ × ℕ)
    → (nearer center p offset s best ≡ best)
      ⊎ ((nearer center p offset s best ≡ (some offset, gap center p offset))
          × (has_prefix s p ≡ true))
unfolding nearer
nearer-found center p offset s best = elim (Bool-cases (has_prefix s p)) [
  | inl e ↦ elim (Bool-cases (ltb (gap center p offset) (best.1))) [
    | inl f ↦ inr (rw (e, f) refl, e)
    | inr f ↦ inl (rw (e, f) refl)
  ]
  | inr e ↦ inl (rw e refl)
]

closest_le :
    (center : ℕ) (p : Bytes) (offset : ℕ) (best : Option ℕ × ℕ) (s : Bytes)
    → (closest center p offset best s).1 ≤ best.1
unfolding closest
closest_le center p offset best [] = omega arith
closest_le center p offset best (c ∷ s) = omega (
  arith,
  closest_le center p (suc offset) (nearer center p offset (c ∷ s) best) s,
  nearer_le center p offset (c ∷ s) best,
)

-- No occurrence is nearer than the distance that is found.
closest-positions :
    (center : ℕ) (p : Bytes) (offset : ℕ) (best : Option ℕ × ℕ) (s : Bytes)
    → All (λ j. (closest center p offset best s).1 ≤ gap center p j) (positions offset p s)
unfolding closest
closest-positions center p offset best [] = tt
closest-positions center p offset best (c ∷ s) =
    let next = nearer center p offset (c ∷ s) best in
    let rest : All (λ j. (closest center p (suc offset) next s).1 ≤ gap center p j)
        (positions (suc offset) p s) =
      closest-positions center p (suc offset) next s in
    elim (Bool-cases (has_prefix (c ∷ s) p)) [
      | inl e ↦ rw e (
          (
            omega (
              arith,
              closest_le center p (suc offset) next s,
              nearer_here center p offset (c ∷ s) best e,
            ),
            rest,
          ))
      | inr e ↦ rw e rest
    ]

-- What is found is the start, or an occurrence at its distance.
closest-found :
    (center : ℕ) (p : Bytes) (offset : ℕ) (best : Option ℕ × ℕ) (s : Bytes)
    → (closest center p offset best s ≡ best)
      ⊎ ((i : ℕ) × (closest center p offset best s ≡ (some i, gap center p i))
          × (is_member i (positions offset p s) ≡ true))
unfolding closest
closest-found center p offset best [] = inl refl
closest-found center p offset best (c ∷ s) =
    let next = nearer center p offset (c ∷ s) best in
    elim (closest-found center p (suc offset) next s) [
      | inl e ↦ elim (nearer-found center p offset (c ∷ s) best) [
        | inl f ↦ inl (e ∙ f)
        | inr f ↦ inr (offset, e ∙ f.0, rw f.1 (rw (==_refl offset) refl))
      ]
      | inr e ↦ inr (e.0, e.1, ground arith)
    ]

prefix_length : (s p : Bytes) → has_prefix s p ≡ true → length p ≤ length s
prefix_length s [] h = omega arith
prefix_length [] (d ∷ p) h = cc
prefix_length (c ∷ s) (d ∷ p) h = ground (arith, h, prefix_length s p)

index_bound : (s p : Bytes) (i : ℕ) → index s p ≡ some i → i + length p ≤ length s
index_bound [] p i h = elim (Bool-cases (has_prefix [] p)) [
  | inl e ↦
      let at : some 0 ≡ some i = rw e at h in
      omega (arith, some-injective _ _ at, prefix_length [] p e)
  | inr e ↦ let at : none ≡ some i = rw e at h in cc
]
index_bound (c ∷ s) p i h = elim (Bool-cases (has_prefix (c ∷ s) p)) [
  | inl e ↦
      let at : some 0 ≡ some i = rw e at h in
      omega (arith, some-injective _ _ at, prefix_length (c ∷ s) p e)
  | inr e ↦
      let at : later (index s p) ≡ some i = rw e at h in
      elim (Option-cases (index s p)) [
        | inl f ↦ let no : none ≡ some i = rw f at at in cc
        | inr f ↦
            let yes : some (suc (f.0)) ≡ some i = rw f.1 at at in
            omega (arith, some-injective _ _ yes, index_bound s p f.0 f.1)
      ]
]

-- A match inside the text is one of the positions.
drop-positions :
    (offset k : ℕ) (p s : Bytes)
    → is_nil p ≡ false
    → has_prefix (drop k s) p ≡ true
    → is_member (offset + k) (positions offset p s) ≡ true
drop-positions offset zero [] s e h = cc
drop-positions offset zero (d ∷ p) [] e h = cc
drop-positions offset zero (d ∷ p) (c ∷ s) e h = rw h (ground arith)
drop-positions offset (suc k) [] s e h = cc
drop-positions offset (suc k) (d ∷ p) [] e h = cc
drop-positions offset (suc k) (d ∷ p) (c ∷ s) e h =
    ground (arith, drop-positions (suc offset) k (d ∷ p) s e h)

-- A position is where the text matches.
positions-drop :
    (offset i : ℕ) (p s : Bytes)
    → is_member i (positions offset p s) ≡ true
    → (offset ≤ i) × (has_prefix (drop (i - offset) s) p ≡ true)
positions-drop offset i p [] h = cc
positions-drop offset i p (c ∷ s) h =
    let deep : is_member i (positions (suc offset) p s) ≡ true
        → (offset ≤ i) × (has_prefix (drop (i - offset) (c ∷ s)) p ≡ true) =
      λ q.
        let (below, hit) = positions-drop (suc offset) i p s q in
        let step : i - offset ≡ suc (i - suc offset) = omega arith in (omega arith, rw step hit) in
    elim (Bool-cases (has_prefix (c ∷ s) p)) [
      | inl e ↦ elim (Bool-cases (offset == i)) [
        | inl f ↦
            let here : offset ≡ i = (==_iff offset i).0 f in
            let start : i - offset ≡ 0 = omega arith in (omega arith, rw start e)
        | inr f ↦ let q = rw (e, f) at h in deep q
      ]
      | inr e ↦ let q = rw e at h in deep q
    ]

All-member : (P : ℕ → Type 0) (is : List ℕ) (i : ℕ) → All P is → is_member i is ≡ true → P i
All-member P [] i h m = cc
All-member P (j ∷ is) i h m = elim (Bool-cases (j == i)) [
  | inl e ↦ subst P ((==_iff j i).0 e) h.0
  | inr e ↦ let m' = rw e at m in All-member P is i h.1 m'
]

nil_length : (p : Bytes) → is_nil p ≡ false → 1 ≤ length p
nil_length [] e = cc
nil_length (c ∷ p) e = omega arith

gap_small :
    (content p : Bytes) (center k : ℕ)
    → is_nil p ≡ false
    → center < length content
    → has_prefix (drop k content) p ≡ true
    → gap center p k < length content
gap_small content p center k e c h =
    omega (arith, prefix_length (drop k content) p h, length-drop k content, nil_length p e)

-- Where the place comes from: it is found, it is an occurrence, and no occurrence is nearer.
closest-replaces :
    (content p : Bytes) (center k : ℕ)
    → is_nil p ≡ false
    → center < length content
    → has_prefix (drop k content) p ≡ true
    → (i : ℕ) × ((closest center p 0 (none, length content) content).0 ≡ some i)
      × (has_prefix (drop i content) p ≡ true)
      × All (λ j. gap center p i ≤ gap center p j) (positions 0 p content)
closest-replaces content p center k e c h =
    let found = closest center p 0 (none, length content) content in
    let lowest : All (λ j. found.1 ≤ gap center p j) (positions 0 p content) =
      closest-positions center p 0 (none, length content) content in
    elim (closest-found center p 0 (none, length content) content) [
      | inl same ↦
          let far : found.1 ≡ length content = ap (λ x. x.1) same in
          let near_k : gap center p k < length content = gap_small content p center k e c h in
          let start : 0 + k ≡ k = omega arith in
          let place : is_member k (positions 0 p content) ≡ true =
            subst (λ j. is_member j (positions 0 p content) ≡ true) start
              (drop-positions 0 k p content e h) in
          let at_k : found.1 ≤ gap center p k =
            All-member (λ j. found.1 ≤ gap center p j) (positions 0 p content) k lowest place in
          absurd (omega arith)
      | inr q ↦
          let gone : found.1 ≡ gap center p q.0 = ap (λ x. x.1) q.1 in
          let whole : q.0 - 0 ≡ q.0 = omega arith in
          (
            q.0,
            ap (λ x. x.0) q.1,
            subst (λ i. has_prefix (drop i content) p ≡ true) whole
                (positions-drop 0 q.0 p content q.2).1,
            subst (λ d. All (λ j. d ≤ gap center p j) (positions 0 p content)) gone lowest,
          )
    ]

-- With a context that is found, `replaceNear` replaces one occurrence of the search, and no occurrence,
-- of those that overlap too, has its middle nearer to the middle of the context.
pub replace_near-gap :
    (content p r near : Bytes) (at k : ℕ)
    → is_nil p ≡ false
    → is_nil near ≡ false
    → index content near ≡ some at
    → has_prefix (drop k content) p ≡ true
    → (i : ℕ) × (replace_near content p r near
        ≡ take i content ++ (r ++ drop (i + length p) content))
      × (has_prefix (drop i content) p ≡ true)
      × All
          (λ j. gap (at + length near / 2) p i ≤ gap (at + length near / 2) p j)
          (positions 0 p content)
unfolding replace_near
replace_near-gap content p r near at k e n x h =
    let center = at + length near / 2 in
    let c : center < length content =
      omega (arith, index_bound content near at x, nil_length near n) in
    let q = closest-replaces content p center k e c h in (q.0, rw (x, q.1) refl, q.2, q.3)
