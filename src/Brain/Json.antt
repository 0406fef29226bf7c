-- ===== src/Brain/Json.antt =====
-- brain/plan.go: the repair of the JSON that a language model returns (findJSONEnd, countBracketStack,
-- repairTruncatedJSON), over bytes.
pub mod Close
pub mod End
pub mod Nested
use ho.Prelude.{
  ℕ, zero, suc, ◌+◌, Bool, true, false, not, ◌&&◌, ◌||◌, List, [], ◌∷◌, ◌++◌, Option, none, some,
  ◌==◌, if◌then◌else◌,
}
use mathlib.Core.List.{reverse}
use ho.Prelude.Int.{ℤ, pos, negsuc}
use ho.Prelude.Bytes.{Bytes, trim_space, trim_right}

abbrev pub quote : ℕ
quote = 34

abbrev pub backslash : ℕ
backslash = 92

abbrev pub is_open : ℕ → Bool
is_open c = c == b'{' || c == b'['

-- The state of a walk: the unclosed brackets, the innermost first, and where it stands in a string.
pub record Scan : Type 0 where
  pub stack : Bytes
  pub in_string : Bool
  pub escaped : Bool

abbrev pub scan_start : Scan
scan_start = record { stack = []; in_string = false; escaped = false }

-- The innermost bracket is taken off if it is the one that is closed.
abbrev pub pop : ℕ → Bytes → Bytes
pop b [] = []
pop b (c ∷ stack) = if c == b then stack else c ∷ stack

unfoldable pub bracket : ℕ → Bytes → Bytes
bracket c stack =
    if is_open c
    then c ∷ stack
    else if c == b'}'
    then pop b'{' stack
    else if c == b']'
    then pop b'[' stack
    else stack

unfoldable pub scan_byte : Scan → ℕ → Scan
scan_byte s c =
    if s.escaped
    then record s { escaped = false }
    else if c == backslash && s.in_string
    then record s { escaped = true }
    else if c == quote
    then record s { in_string = not s.in_string }
    else if s.in_string
    then s
    else record s { stack = bracket c s.stack }

unfoldable pub scan : Scan → Bytes → Scan
scan s [] = s
scan s (c ∷ text) = scan (scan_byte s c) text

-- countBracketStack
unfoldable pub count_bracket_stack : Bytes → Bytes × Bool
count_bracket_stack text = let s = scan scan_start text in (s.stack, s.in_string)

abbrev pub inc : ℤ → ℤ
inc (pos n) = pos (suc n)
inc (negsuc zero) = pos 0
inc (negsuc (suc n)) = negsuc n

abbrev pub dec : ℤ → ℤ
dec (pos zero) = negsuc 0
dec (pos (suc n)) = pos n
dec (negsuc n) = negsuc (suc n)

abbrev pub is_zero : ℤ → Bool
is_zero (pos zero) = true
is_zero _ = false

-- The loop of findJSONEnd from byte i on.
unfoldable pub end_from : ℕ → ℤ → Bool → Bool → Bytes → Option ℕ
end_from i depth in_string escaped [] = none
end_from i depth in_string true (c ∷ text) = end_from (i + 1) depth in_string false text
end_from i depth true false (c ∷ text) =
    end_from (i + 1) depth (not (c == quote)) (c == backslash) text
end_from i depth false false (c ∷ text) =
    let string = end_from (i + 1) depth true false text in
    let deeper = end_from (i + 1) (inc depth) false false text in
    let higher = end_from (i + 1) (dec depth) false false text in
    let other = end_from (i + 1) depth false false text in
    if c == quote
    then string
    else if is_open c
    then deeper
    else if c == b'}' || c == b']'
    then (if is_zero (dec depth) then some (i + 1) else higher)
    else other

-- findJSONEnd; -1 is `none`
unfoldable pub find_json_end : Bytes → Option ℕ
find_json_end text = end_from 0 (pos 0) false false text

abbrev pub closer : ℕ → ℕ
closer c = if c == b'{' then b'}' else b']'

-- The brackets that close a stack, the innermost first.
abbrev pub closers : Bytes → Bytes
closers [] = []
closers (c ∷ stack) = closer c ∷ closers stack

-- " \t\n\r"
abbrev pub is_blank : ℕ → Bool
is_blank c = c == 32 || c == 9 || c == 10 || c == 13

-- What stands before the last occurrence of a byte.
unfoldable pub before_last : ℕ → Bytes → Option Bytes
before_last b [] = none
before_last b (c ∷ text) = elim (before_last b text) [
  | some front ↦ some (c ∷ front)
  | none ↦ if c == b then some [] else none
]

-- The text without its last byte, if that is b.
unfoldable pub without_end : ℕ → Bytes → Option Bytes
without_end b [] = none
without_end b (c ∷ []) = if c == b then some [] else none
without_end b (c ∷ d ∷ text) = elim (without_end b (d ∷ text)) [
  | some front ↦ some (c ∷ front)
  | none ↦ none
]

abbrev drop_key : Bytes → Option Bytes → Bytes
drop_key text none = text
drop_key text (some front) = elim (before_last quote front) [ none ↦ text | some key ↦ key ]

-- A key whose value was cut off goes too.
unfoldable pub drop_dangling : Bytes → Bytes
unfolding before_last without_end
drop_dangling text = elim (without_end b':' text) [
  | none ↦ text
  | some front ↦ let text' = trim_right is_blank front in drop_key text' (without_end quote text')
]

abbrev pub is_noise : ℕ → Bool
is_noise c = is_blank c || c == b',' || c == b':'

-- The text up to its last complete value; a quote at its start is not cut.
unfoldable pub cut_string : Bytes → Bytes
unfolding drop_dangling
cut_string text = elim (before_last quote text) [
  | none ↦ text
  | some [] ↦ text
  | some (c ∷ front) ↦
      trim_right (λ b. is_blank b || b == b',') (drop_dangling (trim_right is_blank (c ∷ front)))
]

unfoldable pub close_text : Bytes → Bytes
close_text text = text ++ closers (scan scan_start text).stack

abbrev pub starts_json : Bytes → Bool
starts_json [] = false
starts_json (c ∷ text) = is_open c

abbrev pub is_nil : Bytes → Bool
is_nil [] = true
is_nil (c ∷ s) = false

-- repairTruncatedJSON, on a trimmed text
unfoldable pub repair_trimmed : Bytes → Bytes
repair_trimmed text =
    let s = scan scan_start text in
    if not (starts_json text)
    then text
    else if is_nil s.stack
    then text
    else if s.in_string
    then close_text (cut_string text)
    else close_text (trim_right is_noise text)

unfoldable pub repair_truncated_json : Bytes → Bytes
repair_truncated_json raw = repair_trimmed (trim_space raw)
