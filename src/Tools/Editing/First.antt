-- ===== src/Tools/Editing/First.antt =====
-- Patches that name no count and no context (tools/editing.go): what is replaced and what is reported.
use ho.Tools.Editing.Patches.{Patch, PatchResult, is_nil, index, later, count_from, replace_from}
use ho.Tools.Editing.Patches.{replaced, replace_at, record_missing, record_applied, apply_patch}
use ho.Prelude.{ℕ, zero, suc, ◌+◌, ◌-◌, ◌≡◌, refl, sym, ap, ◌∙◌, subst}
use ho.Prelude.{inl, inr, Bool, true, false, Option, none, some}
use ho.Prelude.{[], ◌∷◌, ◌++◌, arith, ◌==◌, Bool-cases, Option-cases}
use ho.Prelude.{length, take, drop}
use mathlib.Core.Option.{some-injective}
use ho.Prelude.Int.{pos}
use ho.Prelude.Bytes.{Bytes, has_prefix}

prefix_nil : (p : Bytes) → is_nil p ≡ false → has_prefix [] p ≡ false
prefix_nil [] e = cc
prefix_nil (d ∷ p) e = refl

-- Nothing left to replace: only the bytes of the match are skipped.
replace_from-skip : (skip : ℕ) (p r s : Bytes) → replace_from skip (some 0) p r s ≡ drop skip s
replace_from-skip zero p r [] = refl
replace_from-skip (suc skip) p r [] = refl
replace_from-skip zero p r (c ∷ s) = ap (λ t. c ∷ t) (replace_from-skip 0 p r s)
replace_from-skip (suc skip) p r (c ∷ s) = replace_from-skip skip p r s

abbrev is_none : Option ℕ → Bool
is_none none = true
is_none (some i) = false

is_none-later : (o : Option ℕ) → is_none (later o) ≡ is_none o
is_none-later none = refl
is_none-later (some i) = refl

-- strings.Count and strings.Index agree on whether there is a match.
count-index : (p s : Bytes) → is_nil p ≡ false → (count_from 0 p s == 0) ≡ is_none (index s p)
count-index p [] e = rw (prefix_nil p e) refl
count-index p (c ∷ s) e = elim (Bool-cases (has_prefix (c ∷ s) p)) [
  | inl f ↦ rw f (ground arith)
  | inr f ↦ rw f (count-index p s e ∙ sym (is_none-later (index s p)))
]

-- The match at the start of the text.
replace_from-here :
    (p r : Bytes) (c : ℕ) (s : Bytes)
    → is_nil p ≡ false
    → has_prefix (c ∷ s) p ≡ true
    → replace_from 0 (some 1) p r (c ∷ s) ≡ r ++ drop (length p) (c ∷ s)
replace_from-here [] r c s e f = cc
replace_from-here (d ∷ p) r c s e f =
    let size : suc (length p) - 1 ≡ length p = omega arith in
    rw (f, size, replace_from-skip (length p) (d ∷ p) r s) refl

-- strings.Replace of one match replaces the one that strings.Index finds.
replace_from-index :
    (p r s : Bytes) (i : ℕ)
    → is_nil p ≡ false
    → index s p ≡ some i
    → replace_from 0 (some 1) p r s ≡ replace_at i p r s
replace_from-index p r [] i e h = let no : none ≡ some i = rw (prefix_nil p e) at h in cc
replace_from-index p r (c ∷ s) i e h = elim (Bool-cases (has_prefix (c ∷ s) p)) [
  | inl f ↦
      let first : some 0 ≡ some i = rw f at h in
      subst (λ j. replace_from 0 (some 1) p r (c ∷ s) ≡ replace_at j p r (c ∷ s))
        (some-injective _ _ first)
        (replace_from-here p r c s e f ∙ ap (λ n. r ++ drop n (c ∷ s)) (omega arith))
  | inr f ↦
      let at : later (index s p) ≡ some i = rw f at h in
      elim (Option-cases (index s p)) [
        | inl g ↦ let no : none ≡ some i = rw g at at in cc
        | inr g ↦
            let next : some (suc (g.0)) ≡ some i = rw g.1 at at in
            let size : suc (g.0) + length p ≡ suc (g.0 + length p) = omega arith in
            subst (λ j. replace_from 0 (some 1) p r (c ∷ s) ≡ replace_at j p r (c ∷ s))
              (some-injective _ _ next)
              (rw (f, size) (ap (λ t. c ∷ t) (replace_from-index p r s g.0 e g.1)))
      ]
]

-- A patch without a count or a context whose search first occurs at `i` replaces that occurrence, and
-- no other, and is reported as applied.
pub apply_patch-first :
    (p : Patch) (content : Bytes) (result : PatchResult) (i : ℕ)
    → is_nil p.search ≡ false
    → p.near ≡ []
    → p.count ≡ pos 0
    → index content p.search ≡ some i
    → apply_patch p (content, result) ≡ (
      take i content ++ (p.replace ++ drop (i + length p.search) content),
      record_applied p (count_from 0 p.search content) result,
    )
unfolding apply_patch
apply_patch-first p content result i e n c h =
    let found : (count_from 0 p.search content == 0) ≡ false =
      count-index p.search content e ∙ ap is_none h in
    let first : replaced p content ≡ replace_at i p.search p.replace content =
      rw (n, c) (replace_from-index p.search p.replace content i e h) in
    rw (e, found, first) refl

-- A patch whose search occurs nowhere leaves the text and is reported as not found.
pub apply_patch-missing :
    (p : Patch) (content : Bytes) (result : PatchResult)
    → is_nil p.search ≡ false
    → index content p.search ≡ none
    → apply_patch p (content, result) ≡ (content, record_missing p result)
unfolding apply_patch
apply_patch-missing p content result e h =
    let gone : (count_from 0 p.search content == 0) ≡ true =
      count-index p.search content e ∙ ap is_none h in
    rw (e, gone) refl
