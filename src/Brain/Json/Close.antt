-- ===== src/Brain/Json/Close.antt =====
-- brain/plan.go, repairTruncatedJSON: what the walk over a text keeps.
use ho.Prelude.{
  ℕ, ◌≡◌, refl, sym, ap, subst, ◌∙◌, Bool, true, false, inl, inr, [], ◌∷◌, ◌++◌, All, All-append,
  Bool-cases, arith,
}
use mathlib.Core.List.{reverse, reverse-append, reverse-reverse}
use ho.Prelude.Bytes.{Bytes, trim_right, trim_left}
use ho.Brain.Json.{Scan, scan_start, is_open, pop, bracket, scan_byte, scan, is_noise, is_nil}

scan-append : (s : Scan) (x y : Bytes) → scan s (x ++ y) ≡ scan (scan s x) y
unfolding scan
scan-append s [] y = refl
scan-append s (c ∷ x) y = scan-append (scan_byte s c) x y

-- Only open brackets get on the stack, and outside a string nothing is escaped.
pub record IsScan (s : Scan) : Type 0 where
  pub opens : All (λ c. is_open c ≡ true) s.stack
  pub plain : s.in_string ≡ false → s.escaped ≡ false

All-pop :
    (b : ℕ) (stack : Bytes)
    → All (λ c. is_open c ≡ true) stack
    → All (λ c. is_open c ≡ true) (pop b stack)
All-pop b [] h = tt
All-pop b (c ∷ stack) h = ground arith

bracket-opens :
    (c : ℕ) (stack : Bytes)
    → All (λ c. is_open c ≡ true) stack
    → All (λ c. is_open c ≡ true) (bracket c stack)
unfolding bracket
bracket-opens c stack h = ground (arith, All-pop b'{' stack h, All-pop b'[' stack h)

pub scan_byte-IsScan : (s : Scan) (c : ℕ) → IsScan s → IsScan (scan_byte s c)
unfolding scan_byte
scan_byte-IsScan s c h = record {
  opens = ground (arith, bracket-opens c s.stack h.opens);
  plain = λ q. ground arith;
}

pub scan-IsScan : (s : Scan) (text : Bytes) → IsScan s → IsScan (scan s text)
unfolding scan
scan-IsScan s [] h = h
scan-IsScan s (c ∷ text) h = scan-IsScan (scan_byte s c) text (scan_byte-IsScan s c h)

scan_noise :
    (s : Scan) (c : ℕ)
    → is_noise c ≡ true
    → (scan_byte s c).in_string ≡ false
    → IsScan s
    → scan_byte s c ≡ s
unfolding scan_byte bracket
scan_noise s c n h k = ground arith

scan-noise :
    (s : Scan) (w : Bytes)
    → All (λ c. is_noise c ≡ true) w
    → (scan s w).in_string ≡ false
    → IsScan s
    → scan s w ≡ s
unfolding scan
scan-noise s [] n h k = refl
scan-noise s (c ∷ w) (n, ns) h k =
    let e : scan (scan_byte s c) w ≡ scan_byte s c =
      scan-noise (scan_byte s c) w ns h (scan_byte-IsScan s c k) in
    e ∙ scan_noise s c n (ap (λ (x : Scan). x.in_string) (sym e) ∙ h) k

-- A trimmed text and what was taken off its end.
trim_left_parts :
    (p : ℕ → Bool) (text : Bytes)
    → (w : Bytes) × (text ≡ w ++ trim_left p text) × All (λ c. p c ≡ true) w
trim_left_parts p [] = ([], refl, tt)
trim_left_parts p (c ∷ text) = elim (Bool-cases (p c)) [
  | inl e ↦
      let (w, eq, all_p) = trim_left_parts p text in (c ∷ w, rw e (ap (λ r. c ∷ r) eq), (e, all_p))
  | inr e ↦ ([], rw e, tt)
]

All-reverse :
    (p : ℕ → Bool) (w : Bytes) → All (λ c. p c ≡ true) w → All (λ c. p c ≡ true) (reverse w)
All-reverse p [] h = tt
All-reverse p (c ∷ w) (h, hs) =
    subst (All (λ x. p x ≡ true)) (sym (reverse-append (c ∷ []) w))
      (All-append _ (reverse w) (c ∷ []) (All-reverse p w hs) (h, tt))

pub trim_right_parts :
    (p : ℕ → Bool) (text : Bytes)
    → (w : Bytes) × (text ≡ trim_right p text ++ w) × All (λ c. p c ≡ true) w
trim_right_parts p text =
    let (w, eq, all_p) = trim_left_parts p (reverse text) in
    (
      reverse w,
      sym (reverse-reverse text) ∙ ap reverse eq ∙ reverse-append w (trim_left p (reverse text)),
      All-reverse p w all_p,
    )

pub start-IsScan : IsScan scan_start
start-IsScan = record { opens = tt; plain = λ h. refl }

-- Noise at the end of a text outside a string does not matter to the walk.
pub trim-in_string :
    (text : Bytes)
    → (scan scan_start text).in_string ≡ false
    → (scan scan_start (trim_right is_noise text)).in_string ≡ false
trim-in_string text h =
    let (w, eq, noise) = trim_right_parts is_noise text in
    let t : Bytes = trim_right is_noise text in
    let e : scan scan_start text ≡ scan (scan scan_start t) w =
      ap (scan scan_start) eq ∙ scan-append scan_start t w in
    let h' : (scan (scan scan_start t) w).in_string ≡ false =
      ap (λ (x : Scan). x.in_string) (sym e) ∙ h in
    let same : scan (scan scan_start t) w ≡ scan scan_start t =
      scan-noise (scan scan_start t) w noise h' (scan-IsScan scan_start t start-IsScan) in
    ap (λ (x : Scan). x.in_string) (sym same) ∙ h'

pub nil_of : (s : Bytes) → is_nil s ≡ true → s ≡ []
nil_of [] h = refl
nil_of (c ∷ s) h = cc
