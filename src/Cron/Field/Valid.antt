-- ===== src/Cron/Field/Valid.antt =====
-- internal/cron/cron.go: what parseField makes of a field that validateField accepts.
use ho.Prelude.{
  ℕ, ◌+◌, ◌≤◌, ◌<◌, ◌≡◌, refl, Bool, true, ◌||◌, List, [], ◌∷◌, none, some, inl, inr, arith, ◌≢◌,
  sym, ◌∙◌, ◌⊎◌,
}
use ho.Prelude.Int.{ℤ, int_limit}
use ho.Prelude.Bytes.{Bytes, push, trim_space, split}
use ho.Cron.Field.{has, validate_parts, validate_field, parse_parts, parse_field, bind, or_all}
use ho.Cron.Field.Named.{parts_allow, field_allows, small_steps}
use ho.Cron.Field.Part.{part-Fills}

or_sides : (a b : Bool) → (a || b) ≡ true → (a ≡ true) ⊎ (b ≡ true)
or_sides a b h = ground arith

or_left : (a b : Bool) → a ≡ true → (a || b) ≡ true
or_left a b h = ground arith

or_regroup : (s m a b o : Bool) → m ≡ (s || a) → o ≡ (m || b) → o ≡ (s || (a || b))
or_regroup s m a b o h k = ground arith

parts-Fills :
    (fuel lo hi : ℕ) (parts : List Bytes) (set : List ℤ)
    → lo ≤ hi
    → hi + 1 < int_limit
    → hi + 1 < fuel
    → validate_parts lo hi parts ≡ none
    → small_steps hi parts ≡ true
    → (out : List ℤ) × (parse_parts fuel lo hi parts set ≡ some out)
      × ((v : ℕ) → has v out ≡ (has v set || parts_allow lo hi parts v))
      × ((v : ℕ) → parts_allow lo hi parts v ≡ true → (lo ≤ v) × (v ≤ hi))
      × (parts ≢ [] → (v : ℕ) × (parts_allow lo hi parts v ≡ true))
unfolding validate_parts parse_parts
parts-Fills fuel lo hi [] set o lim f h k =
    (set, refl, (λ v. ground arith), (λ v e. ground arith), λ ne. absurd (ne refl))
parts-Fills fuel lo hi (part ∷ parts) set o lim f h k =
    let (mid, e, spec, bound, (w, at)) =
      part-Fills fuel lo hi set (trim_space part) o lim f (ground arith) (ground arith) in
    let (out, e', spec', bound', _) =
      parts-Fills fuel lo hi parts mid o lim f (ground arith) (ground arith) in
    (
      out,
      rw (e, bind) e',
      (λ v. or_regroup _ _ _ _ _ (spec v) (spec' v)),
      (λ v q. elim (or_sides _ _ q) [ inl a ↦ bound v a | inr a ↦ bound' v a ]),
      (λ ne. (w, or_left _ _ at)),
    )

push-ne-nil : (c : ℕ) (ws : List Bytes) → push c ws ≢ []
push-ne-nil c [] h = cc
push-ne-nil c (w ∷ ws) h = cc

split-ne-nil : (b : ℕ) (s : Bytes) → split b s ≢ []
split-ne-nil b [] h = cc
split-ne-nil b (c ∷ s) h = ground (arith, push-ne-nil c (split b s))

or_all-some :
    (fuel lo hi : ℕ) (set : List ℤ) (v : ℕ) → has v set ≡ true → or_all fuel lo hi set ≡ some set
unfolding or_all
or_all-some fuel lo hi [] v h = cc
or_all-some fuel lo hi (x ∷ set) v h = refl

-- A field that validateField accepts, with steps that int arithmetic can carry, is parsed to the end
-- by `hi + 2` rounds of each loop, into exactly the values that the field names.
pub parse-validate :
    (fuel lo hi : ℕ) (field : Bytes)
    → lo ≤ hi
    → hi + 1 < int_limit
    → hi + 1 < fuel
    → validate_field field lo hi ≡ none
    → small_steps hi (split b',' field) ≡ true
    → (set : List ℤ) × (parse_field fuel field lo hi ≡ some set)
      × ((v : ℕ) → has v set ≡ field_allows lo hi field v)
      × ((v : ℕ) → has v set ≡ true → (lo ≤ v) × (v ≤ hi))
      × ((v : ℕ) × (has v set ≡ true))
unfolding validate_field parse_field
parse-validate fuel lo hi field o lim f h k =
    let (set, e, spec, bound, some_value) =
      parts-Fills fuel lo hi (split b',' field) [] o lim f h k in
    let (v, at) = some_value (split-ne-nil b',' field) in
    let holds : has v set ≡ true = spec v ∙ at in
    (
      set,
      rw (e, bind) (or_all-some fuel lo hi set v holds),
      spec,
      (λ u q. bound u (sym (spec u) ∙ q)),
      (v, holds),
    )
