-- ===== src/Brain/Json/Nested.antt =====
-- brain/plan.go, repairTruncatedJSON: a repaired text is nested, by a reader of its own.
use ho.Prelude.{
  ℕ, ◌≡◌, ◌≢◌, refl, sym, ap, subst, ◌∙◌, Bool, true, false, ◌||◌, ◌&&◌, inl, inr, Option, none,
  some, Option-cases, [], ◌∷◌, ◌++◌, ◌==◌, if◌then◌else◌, All, Bool-cases, arith,
}
use mathlib.Core.List.{append-nil}
use mathlib.Core.Option.{some-injective}
use ho.Prelude.Bytes.{Bytes, trim_right, trim_space}
use ho.Brain.Json.{
  Scan, scan_start, is_open, bracket, scan_byte, scan, closer, closers, is_noise, close_text,
  repair_trimmed, repair_truncated_json, starts_json, is_nil,
}
use ho.Brain.Json.Close.{
  IsScan, start-IsScan, scan_byte-IsScan, scan-IsScan, trim_right_parts, trim-in_string, nil_of,
}

pub data Mode : Type 0 where
  plain in_text escape : Mode

-- The closing brackets that are awaited, the next one first, and where the reader stands.
pub record Reader : Type 0 where
  pub awaited : Bytes
  pub mode : Mode

abbrev pub at_start : Reader
at_start = record { awaited = []; mode = plain }

abbrev pub at : Bytes → Mode → Reader
at ds m = record { awaited = ds; mode = m }

abbrev pub close : ℕ → Bytes → Option Reader
close c [] = none
close c (d ∷ ds) = if c == d then some (at ds plain) else none

-- Outside a string a closing bracket must be the one that is awaited.
abbrev pub read_plain : Bytes → ℕ → Option Reader
read_plain ds c =
    if c == b'"'
    then some (at ds in_text)
    else if c == b'{'
    then some (at (b'}' ∷ ds) plain)
    else if c == b'['
    then some (at (b']' ∷ ds) plain)
    else if c == b'}' || c == b']'
    then close c ds
    else some (at ds plain)

abbrev pub read_text : Bytes → ℕ → Option Reader
read_text ds c =
    if c == 92
    then some (at ds escape)
    else if c == b'"'
    then some (at ds plain)
    else some (at ds in_text)

unfoldable pub read_byte : Bytes → Mode → ℕ → Option Reader
read_byte ds plain c = read_plain ds c
read_byte ds in_text c = read_text ds c
read_byte ds escape c = some (at ds in_text)

abbrev pub step_from : Option Reader → ℕ → Option Reader
step_from none c = none
step_from (some r) c = read_byte r.awaited r.mode c

unfoldable pub read_from : Option Reader → Bytes → Option Reader
read_from o [] = o
read_from o (c ∷ text) = read_from (step_from o c) text

abbrev pub read : Bytes → Option Reader
read text = read_from (some at_start) text

-- Every bracket outside a string is closed by its kind, the innermost first.
abbrev pub IsNested : Bytes → Type 0
IsNested text = read text ≡ some at_start

read_from-none : (text : Bytes) → read_from none text ≡ none
unfolding read_from
read_from-none [] = refl
read_from-none (c ∷ text) = read_from-none text

none_read : (text : Bytes) (v : Reader) → read_from none text ≢ some v
none_read text v h = let e = read_from-none text in cc

read_from-append :
    (o : Option Reader) (x y : Bytes) → read_from o (x ++ y) ≡ read_from (read_from o x) y
unfolding read_from
read_from-append o [] y = refl
read_from-append o (c ∷ x) y = read_from-append (step_from o c) x y

abbrev mode_of : Bool → Bool → Mode
mode_of q true = escape
mode_of true false = in_text
mode_of false false = plain

-- What the reader knows at the state of a walk.
abbrev view : Scan → Reader
view s = at (closers s.stack) (mode_of s.in_string s.escaped)

abbrev scanned : Bytes → Bool → Bool → Scan
scanned stack q e = record { stack = stack; in_string = q; escaped = e }

closes-view :
    (c : ℕ) (stack : Bytes) (v : Reader)
    → All (λ b. is_open b ≡ true) stack
    → (c == b'}' || c == b']') ≡ true
    → close c (closers stack) ≡ some v
    → v ≡ at (closers (bracket c stack)) plain
unfolding bracket
closes-view c [] v k b h = cc
closes-view c (d ∷ stack) v k b h = ground arith

scan_plain :
    (stack : Bytes) (c : ℕ)
    → scan_byte (scanned stack false false) c
      ≡ (if c == b'"' then scanned stack true false else scanned (bracket c stack) false false)
unfolding scan_byte
scan_plain stack c = let no : (c == 92 && false) ≡ false = ground arith in rw no refl

plain-view :
    (stack : Bytes) (c : ℕ) (v : Reader)
    → All (λ b. is_open b ≡ true) stack
    → read_plain (closers stack) c ≡ some v
    → v
      ≡ view (if c == b'"' then scanned stack true false else scanned (bracket c stack) false false)
plain-view stack c v k h = elim (Bool-cases (c == b'"')) [
  | inl e ↦ let h' = rw e at h in rw e (sym (some-injective _ _ h'))
  | inr e ↦ elim (Bool-cases (c == b'{')) [
    | inl f ↦
        let h' = rw (e, f) at h in
        let b : bracket c stack ≡ c ∷ stack = unfold bracket in rw f refl in
        rw (e, b, f) (sym (some-injective _ _ h'))
    | inr f ↦ elim (Bool-cases (c == b'[')) [
      | inl g ↦
          let h' = rw (e, f, g) at h in
          let b : bracket c stack ≡ c ∷ stack = unfold bracket in rw (f, g) refl in
          rw (e, b, f) (sym (some-injective _ _ h'))
      | inr g ↦ elim (Bool-cases (c == b'}' || c == b']')) [
        | inl i ↦ let h' = rw (e, f, g, i) at h in rw e (closes-view c stack v k i h')
        | inr i ↦
            let h' = rw (e, f, g, i) at h in
            let b : bracket c stack ≡ stack = unfold bracket in ground arith in
            rw (e, b) (sym (some-injective _ _ h'))
      ]
    ]
  ]
]

reads-view :
    (stack : Bytes) (q e : Bool) (c : ℕ) (v : Reader)
    → IsScan (scanned stack q e)
    → read_byte (closers stack) (mode_of q e) c ≡ some v
    → v ≡ view (scan_byte (scanned stack q e) c)
unfolding read_byte scan_byte
reads-view stack true true c v k h = sym (some-injective _ _ h)
reads-view stack false true c v k h = absurd (ground (arith, k.plain refl))
reads-view stack true false c v k h = ground arith
reads-view stack false false c v k h =
    plain-view stack c v k.opens h ∙ ap view (sym (scan_plain stack c))

-- Where the reader comes to the end of a text, it knows what the walk knows.
read_from-view :
    (s : Scan) (text : Bytes) (v : Reader)
    → IsScan s
    → read_from (some (view s)) text ≡ some v
    → v ≡ view (scan s text)
unfolding read_from scan
read_from-view s [] v k h = sym (some-injective _ _ h)
read_from-view s (c ∷ text) v k h =
    elim (Option-cases (read_byte (closers s.stack) (mode_of s.in_string s.escaped) c)) [
      | inl e ↦ let h' = rw e at h in absurd (none_read text v h')
      | inr (u, e) ↦
          let h' = rw e at h in
          let same = reads-view s.stack s.in_string s.escaped c u k e in
          read_from-view (scan_byte s c) text v (scan_byte-IsScan s c k)
            (subst (λ r. read_from (some r) text ≡ some v) same h')
    ]

-- The closers of what is open bring the reader back to the start.
read_from-closers :
    (stack : Bytes)
    → All (λ b. is_open b ≡ true) stack
    → read_from (some (at (closers stack) plain)) (closers stack) ≡ some at_start
unfolding read_from read_byte
read_from-closers [] k = refl
read_from-closers (c ∷ stack) k =
    let back : read_plain (closers (c ∷ stack)) (closer c) ≡ some (at (closers stack) plain) =
      ground arith in
    ap (λ o. read_from o (closers stack)) back ∙ read_from-closers stack k.1

abbrev pub is_closer : ℕ → Bool
is_closer c = c == b'}' || c == b']'

-- A text without some blanks, commas and colons at its end, and closing brackets after it; nested.
abbrev pub Repaired : Bytes → Bytes → Type 0
Repaired text out =
    (kept : Bytes) × (noise : Bytes) × (closing : Bytes) × (text ≡ kept ++ noise)
    × All (λ c. is_noise c ≡ true) noise
    × (out ≡ kept ++ closing)
    × All (λ c. is_closer c ≡ true) closing
    × IsNested out

closers-All :
    (stack : Bytes)
    → All (λ b. is_open b ≡ true) stack
    → All (λ c. is_closer c ≡ true) (closers stack)
closers-All [] k = tt
closers-All (c ∷ stack) k = (ground arith, closers-All stack k.1)

-- The beginning of a text that the reader takes is taken too.
read-front : (t w : Bytes) (v : Reader) → read (t ++ w) ≡ some v → (u : Reader) × (read t ≡ some u)
read-front t w v h = elim (Option-cases (read t)) [
  | inl e ↦ absurd (
      none_read w v
        (sym (ap (λ o. read_from o w) e) ∙ sym (read_from-append (some at_start) t w) ∙ h))
  | inr found ↦ found
]

-- A text that ends outside a string, with the closers of what is open.
close_text-IsNested :
    (t : Bytes) (u : Reader)
    → read t ≡ some u
    → (scan scan_start t).in_string ≡ false
    → IsNested (t ++ closers (scan scan_start t).stack)
close_text-IsNested t u h q =
    let s : Scan = scan scan_start t in
    let k : IsScan s = scan-IsScan scan_start t start-IsScan in
    let here : view s ≡ at (closers s.stack) plain = rw (q, k.plain q) refl in
    let there : read t ≡ some (at (closers s.stack) plain) =
      h ∙ ap (λ r. some r) (read_from-view scan_start t u start-IsScan h ∙ here) in
    read_from-append (some at_start) t (closers s.stack)
    ∙ ap (λ o. read_from o (closers s.stack)) there
    ∙ read_from-closers s.stack k.opens

repair_trimmed-Repaired :
    (text : Bytes) (v : Reader)
    → starts_json text ≡ true
    → read text ≡ some v
    → (scan scan_start text).in_string ≡ false
    → Repaired text (repair_trimmed text)
unfolding repair_trimmed close_text
repair_trimmed-Repaired text v j h q = elim (Bool-cases (is_nil (scan scan_start text).stack)) [
  | inl e ↦
      let nested : IsNested (text ++ []) =
        subst (λ s. IsNested (text ++ closers s)) (nil_of (scan scan_start text).stack e)
          (close_text-IsNested text v h q) in
      rw (j, e)
        ((
          text,
          [],
          [],
          sym (append-nil text),
          tt,
          sym (append-nil text),
          tt,
          subst IsNested (append-nil text) nested,
        ))
  | inr e ↦
      let (w, eq, noise) = trim_right_parts is_noise text in
      let t : Bytes = trim_right is_noise text in
      let s : Scan = scan scan_start t in
      let (u, front) = read-front t w v (sym (ap read eq) ∙ h) in
      let k : IsScan s = scan-IsScan scan_start t start-IsScan in
      rw (j, e, q)
        ((
          t,
          w,
          closers s.stack,
          eq,
          noise,
          refl,
          closers-All s.stack k.opens,
          close_text-IsNested t u front (trim-in_string text q),
        ))
]

mode_plain : (q e : Bool) → mode_of q e ≡ plain → q ≡ false
mode_plain true true h = cc
mode_plain true false h = cc
mode_plain false e h = refl

view-plain : (s : Scan) (v : Reader) → v ≡ view s → v.mode ≡ plain → s.in_string ≡ false
view-plain s v e m = mode_plain s.in_string s.escaped (ap (λ (r : Reader). r.mode) (sym e) ∙ m)

-- A text that is cut off outside a string, and in which each closing bracket fits, is repaired to one in
-- which every bracket outside a string is closed by its kind, the innermost first: the text without some
-- blanks, commas and colons at its end, and closing brackets after it.
pub repair_truncated_json-Repaired :
    (raw : Bytes) (v : Reader)
    → starts_json (trim_space raw) ≡ true
    → read (trim_space raw) ≡ some v
    → v.mode ≡ plain
    → Repaired (trim_space raw) (repair_truncated_json raw)
unfolding repair_truncated_json
repair_truncated_json-Repaired raw v j h m =
    let text = trim_space raw in
    let same = read_from-view scan_start text v start-IsScan h in
    repair_trimmed-Repaired text v j h (view-plain (scan scan_start text) v same m)
