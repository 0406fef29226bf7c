-- ===== src/Examples/Editing.antt =====
-- Edits of a small page: tools/editing.go.
use ho.Tools.Editing.{LineEdit, newline, to_nat, count_deletes, apply_line_edits}
use ho.Tools.Editing.Deletes.{deletes_of, keep, apply_line_edits-keep}
use ho.Tools.Editing.Patches.{gap, closest, nearer, replace_near}
use ho.Tools.Editing.Near.{positions, replace_near-gap}
use ho.Prelude.{ℕ, ◌+◌, ◌/◌, ◌≤◌, ◌≡◌, refl}
use ho.Prelude.{true}
use ho.Prelude.{List, [], ◌∷◌, ◌++◌, map}
use ho.Prelude.{All, take, drop}
use ho.Prelude.Bytes.{Bytes, codes, split, join, has_prefix}
use ho.Prelude.Int.{ℤ, pos}
use ho.Prelude.Result.{ok}

-- Three lines: a, b, c
abbrev page : Bytes
page = codes "a" ++ (newline ∷ (codes "b" ++ (newline ∷ codes "c")))

abbrev delete_lines_of : List ℤ → LineEdit
delete_lines_of ds = record {
  line = pos 0;
  from = pos 0;
  to = pos 0;
  after = pos 0;
  content = [];
  delete = ds;
}

abbrev two_deletes : List LineEdit
two_deletes = delete_lines_of (pos 3 ∷ pos 1 ∷ []) ∷ delete_lines_of (pos 1 ∷ []) ∷ []

apply_line_edits-keep_example :
    apply_line_edits page two_deletes
    ≡ ok (
      join (newline ∷ []) (keep 1 (map to_nat (deletes_of two_deletes)) (split newline page)),
      count_deletes two_deletes + 0,
    )
apply_line_edits-keep_example =
    apply_line_edits-keep page two_deletes refl ((refl, (refl, (refl, tt))))

kept_line : join (newline ∷ []) (keep 1 (3 ∷ 1 ∷ 1 ∷ []) (split newline page)) ≡ codes "b"
kept_line = refl

-- The line to delete is named before the lines are inserted above it, and found after: line 3, which was
-- c, is the second of the inserted ones.
abbrev insert_and_delete : List LineEdit
insert_and_delete =
    record {
      line = pos 0;
      from = pos 0;
      to = pos 0;
      after = pos 1;
      content = codes "x" ++ (newline ∷ codes "y");
      delete = [];
    }
    ∷ delete_lines_of (pos 3 ∷ [])
    ∷ []

shifted_delete :
    apply_line_edits page insert_and_delete
    ≡ ok (
      codes "a" ++ (newline ∷ (codes "x" ++ (newline ∷ (codes "b" ++ (newline ∷ codes "c"))))),
      2,
    )
unfolding apply_line_edits
shifted_delete = refl

abbrev links : Bytes
links = codes "<a>one</a><a>two</a>"

replace_near-gap_example :
    (i : ℕ) × (replace_near links (codes "<a>") (codes "<b>") (codes "two")
      ≡ take i links ++ (codes "<b>" ++ drop (i + 3) links))
    × (has_prefix (drop i links) (codes "<a>") ≡ true)
    × All
        (λ j. gap (13 + 3 / 2) (codes "<a>") i ≤ gap (13 + 3 / 2) (codes "<a>") j)
        (positions 0 (codes "<a>") links)
replace_near-gap_example =
    replace_near-gap links (codes "<a>") (codes "<b>") (codes "two") 13 0 refl refl refl refl

second_replaced :
    replace_near links (codes "<a>") (codes "<b>") (codes "two") ≡ codes "<a>one</a><b>two</a>"
unfolding replace_near closest nearer
second_replaced = refl
