-- ===== src/Brain/Plan/Check/Names.antt =====
-- brain/plan.go, ValidatePlan: the search for a name that comes twice.
use ho.Prelude.{◌≡◌, refl, ◌↔◌, false, List, [], ◌∷◌, arith}
use ho.Prelude.Bytes.{Bytes, same, same_iff}
use ho.Brain.Plan.Check.{was_seen, duplicates}

-- No name comes twice.
abbrev pub Distinct : List Bytes → Type 0
Distinct [] = Unit
Distinct (name ∷ names) = (was_seen name names ≡ false) × Distinct names

-- No name was seen before.
abbrev pub AllNew : List Bytes → List Bytes → Type 0
AllNew seen [] = Unit
AllNew seen (name ∷ names) = (was_seen name seen ≡ false) × AllNew seen names

same_comm : (a b : Bytes) → same a b ≡ same b a
same_comm a b = ground (arith, same_iff a b, same_iff b a)

AllNew-cons :
    (name : Bytes) (seen names : List Bytes)
    → AllNew (name ∷ seen) names ↔ ((was_seen name names ≡ false) × AllNew seen names)
AllNew-cons name seen [] = ((λ h. (refl, tt)), λ h. tt)
AllNew-cons name seen (n ∷ names) =
    let (there, back) = AllNew-cons name seen names in
    let e = same_comm name n in
    (
      (λ h. let k = there h.1 in (ground (arith, h.0), (ground (arith, h.0), k.1))),
      λ h. (ground arith, back (ground arith, h.1.1)),
    )

AllNew-nil : (names : List Bytes) → AllNew [] names
AllNew-nil [] = tt
AllNew-nil (n ∷ names) = (refl, AllNew-nil names)

duplicates_iff :
    (seen names : List Bytes) → (duplicates seen names ≡ []) ↔ (AllNew seen names × Distinct names)
unfolding duplicates
duplicates_iff seen [] = ((λ e. (tt, tt)), λ h. refl)
duplicates_iff seen (n ∷ names) =
    let (there, back) = duplicates_iff (n ∷ seen) names in
    let (split, join) = AllNew-cons n seen names in
    (
      (λ e.
          let rest : duplicates (n ∷ seen) names ≡ [] = ground arith in
          let new : was_seen n seen ≡ false = ground arith in
          let k = there rest in let s = split k.0 in ((new, s.1), (s.0, k.1))),
      λ h. rw h.0.0 (back (join (h.1.0, h.0.1), h.1.1)),
    )

pub no_duplicates : (names : List Bytes) → (duplicates [] names ≡ []) ↔ Distinct names
no_duplicates names =
    let (there, back) = duplicates_iff [] names in
    ((λ e. (there e).1), λ d. back (AllNew-nil names, d))
