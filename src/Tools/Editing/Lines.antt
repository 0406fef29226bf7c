-- ===== src/Tools/Editing/Lines.antt =====
-- Edits by line number: applyLineEdits of tools/editing.go.
--
-- `sort.Slice` is an insertion sort, hence stable, up to twelve edits; here it is one at any number.
use ho.Prelude.{ℕ, ◌+◌, ◌-◌, Bool, false, ◌&&◌, ◌||◌, List, [], ◌∷◌, ◌++◌}
use ho.Prelude.{if◌then◌else◌, ltb, leb, ◌==◌, take, drop, length}
use ho.Prelude.Bytes.{Bytes, split, join}
use ho.Prelude.Int.{ℤ, pos, negsuc, lt_int}
use ho.Prelude.Result.{Result, err, ok, and_then}

pub record LineEdit : Type 0 where
  pub line : ℤ
  pub from : ℤ
  pub to : ℤ
  pub after : ℤ
  pub content : Bytes
  pub delete : List ℤ

pub data EditError : Type 0 where
  delete_out_of_range : ℤ → ℕ → EditError
  line_out_of_range : ℤ → ℕ → EditError
  range_out_of_range : ℤ → ℤ → ℕ → EditError
  after_out_of_range : ℤ → ℕ → EditError

abbrev pub newline : ℕ
newline = 10

-- The number itself, where it is not negative.
abbrev pub to_nat : ℤ → ℕ
to_nat (pos n) = n
to_nat (negsuc n) = 0

abbrev pub is_positive : ℤ → Bool
is_positive i = lt_int (pos 0) i

abbrev pub is_zero : ℤ → Bool
is_zero (pos n) = n == 0
is_zero (negsuc n) = false

-- d >= 1 && d <= n
abbrev pub within : ℤ → ℕ → Bool
within d n = leb 1 (to_nat d) && leb (to_nat d) n

-- The line numbers of one edit's Delete, each in the text.
abbrev pub check_deletes : ℕ → List ℤ → Result EditError (List ℕ)
check_deletes n [] = ok []
check_deletes n (d ∷ ds) =
    let rest = check_deletes n ds in
    if within d n
    then and_then rest (λ numbers. ok (to_nat d ∷ numbers))
    else err (delete_out_of_range d n)

-- deleteSet, its numbers in the order in which the edits name them
unfoldable pub delete_set : ℕ → List LineEdit → Result EditError (List ℕ)
delete_set n [] = ok []
delete_set n (e ∷ es) =
    and_then (check_deletes n e.delete) (λ ds. and_then (delete_set n es) (λ rest. ok (ds ++ rest)))

-- `len(e.Delete) > 0`
abbrev has_deletes : LineEdit → Bool
has_deletes e = ltb 0 (length e.delete)

abbrev pub has_place : LineEdit → Bool
has_place e = is_positive e.line || (is_positive e.from || is_positive e.after)

-- The number by which the edits are sorted.
abbrev pub place : LineEdit → ℤ
place e = if is_zero e.line then (if is_zero e.from then e.after else e.from) else e.line

abbrev insert_by_place : LineEdit → List LineEdit → List LineEdit
insert_by_place e [] = e ∷ []
insert_by_place e (x ∷ xs) =
    let rest = insert_by_place e xs in if lt_int (place x) (place e) then e ∷ x ∷ xs else x ∷ rest

-- The edits that replace or insert, the highest line first.
unfoldable pub sorted_edits : List LineEdit → List LineEdit
sorted_edits [] = []
sorted_edits (e ∷ es) =
    let rest = sorted_edits es in if has_place e then insert_by_place e rest else rest

abbrev pub count_deletes : List LineEdit → ℕ
count_deletes [] = 0
count_deletes (e ∷ es) = (if has_deletes e then 1 else 0) + count_deletes es

-- lines[:from-1], the new lines, lines[to:]
abbrev pub splice : ℕ → ℕ → List Bytes → List Bytes → List Bytes
splice from to new lines = take (from - 1) lines ++ (new ++ drop to lines)

abbrev replace_line : LineEdit → List Bytes → Result EditError (List Bytes)
replace_line e lines =
    if leb (to_nat e.line) (length lines)
    then ok (splice (to_nat e.line) (to_nat e.line) (e.content ∷ []) lines)
    else err (line_out_of_range e.line (length lines))

-- `to` with its default
abbrev range_end : LineEdit → ℤ
range_end e = if is_zero e.to then e.from else e.to

abbrev replace_range : LineEdit → List Bytes → Result EditError (List Bytes)
replace_range e lines =
    let from = to_nat e.from in
    let to = to_nat (range_end e) in
    if ltb (length lines) to || ltb to from
    then err (range_out_of_range e.from (range_end e) (length lines))
    else ok (splice from to (split newline e.content) lines)

abbrev insert_after : LineEdit → List Bytes → Result EditError (List Bytes)
insert_after e lines =
    let after = to_nat e.after in
    if leb after (length lines)
    then ok (take after lines ++ (split newline e.content ++ drop after lines))
    else err (after_out_of_range e.after (length lines))

-- The body of the loop over the sorted edits.
unfoldable pub edit_lines : LineEdit → List Bytes → Result EditError (List Bytes)
edit_lines e lines =
    if is_positive e.line
    then replace_line e lines
    else if is_positive e.from
    then replace_range e lines
    else insert_after e lines

unfoldable pub edit_all : List LineEdit → List Bytes → Result EditError (List Bytes)
unfolding edit_lines
edit_all [] lines = ok lines
edit_all (e ∷ es) lines = and_then (edit_lines e lines) (edit_all es)

-- A line that is named twice is deleted once: the deletes are a set.
abbrev pub insert_number : ℕ → List ℕ → List ℕ
insert_number d [] = d ∷ []
insert_number d (x ∷ xs) =
    let rest = insert_number d xs in
    if x == d then x ∷ xs else if ltb x d then d ∷ x ∷ xs else x ∷ rest

-- The keys of deleteSet, the highest first.
abbrev pub descending : List ℕ → List ℕ
descending [] = []
descending (d ∷ ds) = insert_number d (descending ds)

abbrev pub delete_line : ℕ → List Bytes → List Bytes
delete_line d lines =
    if leb 1 d && leb d (length lines) then take (d - 1) lines ++ drop d lines else lines

unfoldable pub delete_lines : List ℕ → List Bytes → List Bytes
delete_lines [] lines = lines
delete_lines (d ∷ ds) lines = delete_lines ds (delete_line d lines)

-- The new text and the number of edits applied.
unfoldable pub apply_line_edits : Bytes → List LineEdit → Result EditError (Bytes × ℕ)
unfolding delete_set sorted_edits edit_all delete_lines
apply_line_edits content edits =
    let lines = split newline content in
    let places = sorted_edits edits in
    and_then (delete_set (length lines) edits) (λ deletes.
      and_then (edit_all places lines) (λ edited. ok (
        join (newline ∷ []) (delete_lines (descending deletes) edited),
        count_deletes edits + length places,
      )))
