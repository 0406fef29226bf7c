-- ===== src/Prelude/Bytes.antt =====
-- Texts as lists of bytes, and the functions of Go's `strings` and `strconv` that the code calls,
-- on ASCII text.
use Prim.Native.Char.{code}
use Prim.Native.String.{String}
use Prim.Native.Nat.{ℕ, zero, suc, ◌+◌, ◌-◌, ◌*◌, ◌/◌, ◌%◌}
use mathlib.Core.Path.{◌≡◌, refl, sym, subst, ap, ◌∙◌}
use mathlib.Core.Logic.{◌↔◌, inl, inr}
use native.Mathlib.Omega.{arith}
use mathlib.Core.Bool.{Bool, true, false, ◌&&◌, ◌||◌}
use mathlib.Core.List.{List, [], ◌∷◌, ◌++◌, reverse, map}
use mathlib.Core.Option.{Option, none, some}
use ho.Prelude.Tests.{ltb, leb, ◌==◌, Bool-cases, if◌then◌else◌}
use ho.Prelude.Lists.{All, all}
use ho.Prelude.Int.{ℤ, pos, negsuc, int_limit}

abbrev pub Bytes : Type 0
Bytes = List ℕ

-- The bytes of an ASCII literal.
abbrev pub codes : String → Bytes
codes String.[] = []
codes (String.◌∷◌ c s) = code c ∷ codes s

abbrev pub same : Bytes → Bytes → Bool
same [] [] = true
same [] (b ∷ bs) = false
same (a ∷ as') [] = false
same (a ∷ as') (b ∷ bs) = a == b && same as' bs

-- unicode.IsSpace, on ASCII
abbrev pub is_space : ℕ → Bool
is_space c = c == 32 || (leb 9 c && leb c 13)

-- strings.HasPrefix
abbrev pub has_prefix : Bytes → Bytes → Bool
has_prefix s [] = true
has_prefix [] (p ∷ ps) = false
has_prefix (c ∷ s) (p ∷ ps) = c == p && has_prefix s ps

-- strings.TrimLeft by a predicate
abbrev pub trim_left : (ℕ → Bool) → Bytes → Bytes
trim_left p [] = []
trim_left p (c ∷ s) = if p c then trim_left p s else c ∷ s

-- strings.TrimRight by a predicate
abbrev pub trim_right : (ℕ → Bool) → Bytes → Bytes
trim_right p s = reverse (trim_left p (reverse s))

-- strings.TrimSpace
abbrev pub trim_space : Bytes → Bytes
trim_space s = trim_right is_space (trim_left is_space s)

-- strings.Contains of one byte
abbrev pub has_byte : ℕ → Bytes → Bool
has_byte b [] = false
has_byte b (c ∷ s) = c == b || has_byte b s

-- strings.SplitN(s, sep, 2): the part before the first separator, and what follows it if there is one
abbrev pub cut : ℕ → Bytes → Bytes × Option Bytes
cut b [] = ([], none)
cut b (c ∷ s) =
    let (before, after) = cut b s in if c == b then ([], some s) else (c ∷ before, after)

-- Puts a byte in front of the first part.
abbrev pub push : ℕ → List Bytes → List Bytes
push c [] = (c ∷ []) ∷ []
push c (w ∷ ws) = (c ∷ w) ∷ ws

-- strings.Split by one byte: one more part than there are separators
abbrev pub split : ℕ → Bytes → List Bytes
split b [] = [] ∷ []
split b (c ∷ s) = let rest = split b s in if c == b then [] ∷ rest else push c rest

abbrev is_empty : Bytes → Bool
is_empty [] = true
is_empty (c ∷ s) = false

abbrev drop_empty : List Bytes → List Bytes
drop_empty [] = []
drop_empty (w ∷ ws) = let rest = drop_empty ws in if is_empty w then rest else w ∷ rest

abbrev split_spaces : Bytes → List Bytes
split_spaces [] = [] ∷ []
split_spaces (c ∷ s) = let rest = split_spaces s in if is_space c then [] ∷ rest else push c rest

-- strings.Fields
abbrev pub fields : Bytes → List Bytes
fields s = drop_empty (split_spaces s)

-- Decimal digits after an accumulator, nothing where another byte stands.
unfoldable pub digits_from : ℕ → Bytes → Option ℕ
digits_from n [] = some n
digits_from n (c ∷ s) =
    let rest = digits_from (n * 10 + (c - 48)) s in if leb 48 c && leb c 57 then rest else none

unfoldable pub unsigned : Bytes → Option ℕ
unfolding digits_from
unsigned [] = none
unsigned (c ∷ s) = digits_from 0 (c ∷ s)

abbrev positive : Option ℕ → Option ℤ
positive none = none
positive (some n) = if ltb n int_limit then some (pos n) else none

abbrev negative : Option ℕ → Option ℤ
negative none = none
negative (some zero) = some (pos 0)
negative (some (suc n)) = if ltb n int_limit then some (negsuc n) else none

-- strconv.Atoi: an optional sign, at least one digit, and an error out of the range of int
unfoldable pub atoi : Bytes → Option ℤ
unfolding unsigned
atoi [] = none
atoi (c ∷ s) =
    if c == 43
    then positive (unsigned s)
    else if c == 45
    then negative (unsigned s)
    else positive (unsigned (c ∷ s))

abbrev pub is_letter : ℕ → Bool
is_letter c = (leb b'a' c && leb c b'z') || (leb b'A' c && leb c b'Z')

abbrev pub is_word : ℕ → Bool
is_word c = is_letter c || ((leb b'0' c && leb c b'9') || c == b'_')

-- ^[a-zA-Z][a-zA-Z0-9_]*$
abbrev pub is_identifier : Bytes → Bool
is_identifier [] = false
is_identifier (c ∷ s) = is_letter c && all is_word s

-- strings.Contains
abbrev pub contains : Bytes → Bytes → Bool
contains [] p = has_prefix [] p
contains (c ∷ s) p = has_prefix (c ∷ s) p || contains s p

-- strings.ToLower, on ASCII
abbrev pub to_lower : Bytes → Bytes
to_lower = map (λ c. if leb b'A' c && leb c b'Z' then c + 32 else c)

-- strings.ToUpper, on ASCII
abbrev pub to_upper : Bytes → Bytes
to_upper = map (λ c. if leb b'a' c && leb c b'z' then c - 32 else c)

-- strings.Join
abbrev pub join : Bytes → List Bytes → Bytes
join sep [] = []
join sep (w ∷ []) = w
join sep (w ∷ v ∷ ws) = w ++ (sep ++ join sep (v ∷ ws))

-- The decimal digits that %d prints.
unfoldable pub decimal_from : ℕ → ℕ → Bytes
decimal_from zero n = []
decimal_from (suc fuel) n =
    let front = decimal_from fuel (n / 10) in
    if ltb n 10 then (n + 48) ∷ [] else front ++ ((n % 10 + 48) ∷ [])

unfoldable pub decimal : ℕ → Bytes
unfolding decimal_from
decimal n = decimal_from (suc n) n

pub same_refl : (s : Bytes) → same s s ≡ true
same_refl [] = refl
same_refl (c ∷ s) = ground (arith, same_refl s)

pub same_eq : (s t : Bytes) → same s t ≡ true → s ≡ t
same_eq [] [] h = refl
same_eq [] (d ∷ t) h = cc
same_eq (c ∷ s) [] h = cc
same_eq (c ∷ s) (d ∷ t) h = ground (arith, same_eq s t)

pub same_iff : (s t : Bytes) → (same s t ≡ true) ↔ (s ≡ t)
same_iff s t = (same_eq s t, λ e. subst (λ x. same s x ≡ true) e (same_refl s))

join-push : (b c : ℕ) (ws : List Bytes) → join (b ∷ []) (push c ws) ≡ c ∷ join (b ∷ []) ws
join-push b c [] = refl
join-push b c (w ∷ []) = refl
join-push b c (w ∷ v ∷ ws) = refl

join_nil-push :
    (b c : ℕ) (ws : List Bytes) → join (b ∷ []) ([] ∷ push c ws) ≡ b ∷ join (b ∷ []) (push c ws)
join_nil-push b c [] = refl
join_nil-push b c (w ∷ ws) = refl

join_nil : (b : ℕ) (s : Bytes) → join (b ∷ []) ([] ∷ split b s) ≡ b ∷ join (b ∷ []) (split b s)
join_nil b [] = refl
join_nil b (c ∷ s) = elim (Bool-cases (c == b)) [
  | inl e ↦ rw e refl
  | inr e ↦ rw e (join_nil-push b c (split b s))
]

-- Joining the parts of a text with what it was split at gives the text.
pub join-split : (b : ℕ) (s : Bytes) → join (b ∷ []) (split b s) ≡ s
join-split b [] = refl
join-split b (c ∷ s) = elim (Bool-cases (c == b)) [
  | inl e ↦
      let here : c ≡ b = ground arith in
      rw e (join_nil b s ∙ rw (join-split b s) (ap (λ x. x ∷ s) (sym here)))
  | inr e ↦ rw e (join-push b c (split b s) ∙ ap (λ t. c ∷ t) (join-split b s))
]

pub split_apart : (b : ℕ) (w : Bytes) → has_byte b w ≡ false → split b w ≡ w ∷ []
split_apart b [] h = refl
split_apart b (c ∷ w) h =
    let other : (c == b) ≡ false = ground (arith, h) in
    let rest : has_byte b w ≡ false = ground (arith, h) in rw (other, split_apart b w rest) refl

split_first : (b : ℕ) (w s : Bytes) → has_byte b w ≡ false → split b (w ++ (b ∷ s)) ≡ w ∷ split b s
split_first b [] s h = let here : (b == b) ≡ true = ground arith in rw here refl
split_first b (c ∷ w) s h =
    let other : (c == b) ≡ false = ground (arith, h) in
    let rest : has_byte b w ≡ false = ground (arith, h) in rw (other, split_first b w s rest) refl

-- Splitting what was joined of parts without the separator gives the parts.
pub split-join :
    (b : ℕ) (w : Bytes) (ws : List Bytes)
    → All (λ p. has_byte b p ≡ false) (w ∷ ws)
    → split b (join (b ∷ []) (w ∷ ws)) ≡ w ∷ ws
split-join b w [] h = split_apart b w h.0
split-join b w (v ∷ ws) h =
    split_first b w (join (b ∷ []) (v ∷ ws)) h.0 ∙ ap (λ ps. w ∷ ps) (split-join b v ws h.1)
