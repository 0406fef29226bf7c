-- ===== src/Server/Api/Params.antt =====
-- What a list request asks for, and the tests of methods and media types (server/public/handler.go).
use ho.Prelude.{ℕ, ◌≤◌}
use ho.Prelude.{Bool, true, false, ◌&&◌, Option, none, some}
use ho.Prelude.{List, [], ◌∷◌, arith, if◌then◌else◌, ltb, leb}
use ho.Prelude.{any, drop}
use ho.Prelude.Bytes.{Bytes, codes, same, atoi, to_lower, has_prefix}
use ho.Prelude.Int.{ℤ, pos, negsuc}

-- strings.EqualFold, on ASCII
abbrev pub equal_fold : Bytes → Bytes → Bool
equal_fold a b = same (to_lower a) (to_lower b)

abbrev pub method_allowed : List Bytes → Bytes → Bool
method_allowed methods method = any (λ m. equal_fold m method) methods

-- The key before the first "__" and what follows it, if it has one: strings.SplitN(key, "__", 2).
unfoldable pub cut_operator : Bytes → Bytes × Option Bytes
cut_operator [] = ([], none)
cut_operator (c ∷ s) =
    let (before, after) = cut_operator s in
    if has_prefix (c ∷ s) (codes "__") then ([], some (drop 1 s)) else (c ∷ before, after)

-- The SQL operator of a suffix.
abbrev pub operator_of : Option Bytes → Option (Bytes × Bool)
operator_of none = some (codes "=", false)
operator_of (some suffix) =
    if same suffix (codes "like")
    then some (codes "LIKE", true)
    else if same suffix (codes "gt")
    then some (codes ">", false)
    else if same suffix (codes "gte")
    then some (codes ">=", false)
    else if same suffix (codes "lt")
    then some (codes "<", false)
    else if same suffix (codes "lte")
    then some (codes "<=", false)
    else if same suffix (codes "ne")
    then some (codes "!=", false)
    else none

-- The column, the operator and whether it is LIKE; nothing where the suffix is none of these.
unfoldable pub parse_filter_param : Bytes → Option (Bytes × (Bytes × Bool))
parse_filter_param key =
    let (column, suffix) = cut_operator key in
    elim (operator_of suffix) [ none ↦ none | some op ↦ some (column, op) ]

abbrev limited : Option ℤ → ℕ
limited (some (pos n)) = if ltb 0 n && leb n 200 then n else 50
limited o = 50

abbrev started : Option ℤ → ℕ
started (some (pos n)) = n
started o = 0

-- The limit and the offset of apiList; an empty parameter is no number either.
unfoldable pub list_limit : Bytes → ℕ
list_limit l = limited (atoi l)

unfoldable pub list_offset : Bytes → ℕ
list_offset o = started (atoi o)

limited-bounds : (o : Option ℤ) → (1 ≤ limited o) × (limited o ≤ 200)
limited-bounds none = (omega arith, omega arith)
limited-bounds (some (negsuc n)) = (omega arith, omega arith)
limited-bounds (some (pos n)) = ground arith

-- Whatever text a request gives as its limit, from 1 to 200 rows are asked for.
pub list_limit-bounds : (l : Bytes) → (1 ≤ list_limit l) × (list_limit l ≤ 200)
unfolding list_limit
list_limit-bounds l = limited-bounds (atoi l)
