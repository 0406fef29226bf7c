-- ===== src/Tools/Editing/Deletes.antt =====
-- Edits that only delete lines (tools/editing.go): what is left.
use ho.Tools.Editing.{
  check_deletes, LineEdit, newline, to_nat, within, has_place, delete_set, sorted_edits, edit_all,
  count_deletes, descending, delete_line, insert_number, delete_lines, apply_line_edits,
}
use ho.Prelude.{ℕ, zero, suc, ◌+◌, ◌-◌, ◌≤◌, ◌<◌, ◌≡◌, refl, sym, ap, ◌∙◌, subst}
use ho.Prelude.{inl, inr, true, false}
use ho.Prelude.{List, [], ◌∷◌, ◌++◌, map, arith, if◌then◌else◌, ltb, leb, ◌==◌, Bool-cases, ltb→lt}
use ho.Prelude.{length, All, any, take, drop}
use ho.Prelude.{All-map}
use ho.Prelude.Bytes.{Bytes, split, join}
use ho.Prelude.Int.{ℤ}
use ho.Prelude.Result.{ok}

-- All numbers that the edits delete.
abbrev pub deletes_of : List LineEdit → List ℤ
deletes_of [] = []
deletes_of (e ∷ es) = e.delete ++ deletes_of es

-- The lines whose number, counted from `i`, is not among the numbers.
abbrev pub keep : ℕ → List ℕ → List Bytes → List Bytes
keep i ds [] = []
keep i ds (l ∷ ls) =
    let rest = keep (suc i) ds ls in if any (λ d. d == i) ds then rest else l ∷ rest

-- A strictly descending list of numbers.
abbrev IsDescending : List ℕ → Type 0
IsDescending [] = Unit
IsDescending (d ∷ ds) = All (λ x. x < d) ds × IsDescending ds

below_keep : (i : ℕ) (ds : List ℕ) → All (λ x. x < i) ds → any (λ d. d == i) ds ≡ false
below_keep i [] h = refl
below_keep i (d ∷ ds) h = ground (arith, h, below_keep i ds)

below_suc : (i : ℕ) (ds : List ℕ) → All (λ x. x < i) ds → All (λ x. x < suc i) ds
below_suc i ds h = All-map (λ x p. omega arith) ds h

keep_all : (i : ℕ) (ds : List ℕ) (ls : List Bytes) → All (λ x. x < i) ds → keep i ds ls ≡ ls
keep_all i ds [] h = refl
keep_all i ds (l ∷ ls) h =
    rw (below_keep i ds h) (ap (λ t. l ∷ t) (keep_all (suc i) ds ls (below_suc i ds h)))

any_below : (i d : ℕ) (ds : List ℕ) → i < d → any (λ x. x == i) (d ∷ ds) ≡ any (λ x. x == i) ds
any_below i d ds h = ground arith

any_here : (i : ℕ) (ds : List ℕ) → any (λ x. x == i) (i ∷ ds) ≡ true
any_here i ds = ground arith

keep_past : (i d : ℕ) (ds : List ℕ) (ls : List Bytes) → d < i → keep i (d ∷ ds) ls ≡ keep i ds ls
keep_past i d ds [] h = refl
keep_past i d ds (l ∷ ls) h =
    let past : any (λ x. x == i) (d ∷ ds) ≡ any (λ x. x == i) ds = ground arith in
    rw (past, keep_past (suc i) d ds ls (omega arith)) refl

-- Deleting the highest line and keeping by the rest is keeping by all.
keep-splice :
    (i k d : ℕ) (ds : List ℕ) (ls : List Bytes)
    → d ≡ i + k
    → All (λ x. x < d) ds
    → keep i (d ∷ ds) ls ≡ keep i ds (take k ls ++ drop (suc k) ls)
keep-splice i zero d ds [] e h = refl
keep-splice i (suc k) d ds [] e h = refl
keep-splice i zero d ds (l ∷ ls) e h =
    let same_place : d ≡ i = omega arith in
    let below : All (λ x. x < i) ds = subst (λ n. All (λ x. x < n) ds) same_place h in
    let hit : any (λ x. x == i) (d ∷ ds) ≡ true = ground arith in
    rw (hit, keep_past (suc i) d ds ls (omega arith), keep_all (suc i) ds ls (below_suc i ds below))
      (sym (keep_all i ds ls below))
keep-splice i (suc k) d ds (l ∷ ls) e h =
    let skip : any (λ x. x == i) (d ∷ ds) ≡ any (λ x. x == i) ds = any_below i d ds (omega arith) in
    rw (skip, keep-splice (suc i) k d ds ls (omega arith) h) refl

keep_far :
    (i d : ℕ) (ds : List ℕ) (ls : List Bytes)
    → i + length ls ≤ d
    → keep i (d ∷ ds) ls ≡ keep i ds ls
keep_far i d ds [] h = refl
keep_far i d ds (l ∷ ls) h =
    let skip : any (λ x. x == i) (d ∷ ds) ≡ any (λ x. x == i) ds = any_below i d ds (omega arith) in
    rw (skip, keep_far (suc i) d ds ls (omega arith)) refl

keep-delete_line :
    (d : ℕ) (ds : List ℕ) (ls : List Bytes)
    → 1 ≤ d
    → All (λ x. x < d) ds
    → keep 1 (d ∷ ds) ls ≡ keep 1 ds (delete_line d ls)
keep-delete_line zero ds ls h k = ground arith
keep-delete_line (suc d) ds ls h k = elim (Bool-cases (leb (suc d) (length ls))) [
  | inl e ↦
      let low : leb 1 (suc d) ≡ true = ground arith in
      let before : suc d - 1 ≡ d = omega arith in
      rw (low, e, before) (keep-splice 1 d (suc d) ds ls (omega arith) k)
  | inr e ↦
      let low : leb 1 (suc d) ≡ true = ground arith in
      rw (low, e) (keep_far 1 (suc d) ds ls (ground arith))
]

-- Deleting by a descending list is keeping the others.
delete_lines-keep :
    (ds : List ℕ) (ls : List Bytes)
    → IsDescending ds
    → All (λ d. 1 ≤ d) ds
    → delete_lines ds ls ≡ keep 1 ds ls
unfolding delete_lines
delete_lines-keep [] ls h p = sym (keep_all 1 [] ls tt)
delete_lines-keep (d ∷ ds) ls h p =
    delete_lines-keep ds (delete_line d ls) h.1 p.1 ∙ sym (keep-delete_line d ds ls p.0 h.0)

insert_number-All :
    (P : ℕ → Type 0) (d : ℕ) (ds : List ℕ) → P d → All P ds → All P (insert_number d ds)
insert_number-All P d [] p h = (p, tt)
insert_number-All P d (x ∷ xs) p h = ground (arith, p, h, insert_number-All P d xs p h.1)

descending-All : (P : ℕ → Type 0) (ds : List ℕ) → All P ds → All P (descending ds)
descending-All P [] h = tt
descending-All P (d ∷ ds) h = insert_number-All P d (descending ds) h.0 (descending-All P ds h.1)

insert_number-IsDescending :
    (d : ℕ) (ds : List ℕ) → IsDescending ds → IsDescending (insert_number d ds)
insert_number-IsDescending d [] h = (tt, tt)
insert_number-IsDescending d (x ∷ xs) h =
    let above : x < d → All (λ y. y < d) xs = λ p. All-map (λ y q. omega arith) xs h.0 in
    let under : d < x → All (λ y. y < x) (insert_number d xs) =
      λ p. insert_number-All (λ y. y < x) d xs p h.0 in
    elim (Bool-cases (x == d)) [
      | inl e ↦ rw e h
      | inr e ↦ elim (Bool-cases (ltb x d)) [
        | inl f ↦ rw (e, f) (((ltb→lt x d f, above (ltb→lt x d f)), h))
        | inr f ↦ rw (e, f) ((under (ground arith), insert_number-IsDescending d xs h.1))
      ]
    ]

descending-IsDescending : (ds : List ℕ) → IsDescending (descending ds)
descending-IsDescending [] = tt
descending-IsDescending (d ∷ ds) =
    insert_number-IsDescending d (descending ds) (descending-IsDescending ds)

insert_number-any :
    (i d : ℕ) (ds : List ℕ) → any (λ x. x == i) (insert_number d ds) ≡ any (λ x. x == i) (d ∷ ds)
insert_number-any i d [] = refl
insert_number-any i d (x ∷ xs) = ground (arith, insert_number-any i d xs)

descending-any : (i : ℕ) (ds : List ℕ) → any (λ x. x == i) (descending ds) ≡ any (λ x. x == i) ds
descending-any i [] = refl
descending-any i (d ∷ ds) =
    ground (arith, insert_number-any i d (descending ds), descending-any i ds)

keep-descending : (i : ℕ) (ds : List ℕ) (ls : List Bytes) → keep i (descending ds) ls ≡ keep i ds ls
keep-descending i ds [] = refl
keep-descending i ds (l ∷ ls) = rw (descending-any i ds, keep-descending (suc i) ds ls) refl

check_deletes-within :
    (n : ℕ) (ds : List ℤ)
    → All (λ d. within d n ≡ true) ds
    → check_deletes n ds ≡ ok (map to_nat ds)
check_deletes-within n [] h = refl
check_deletes-within n (d ∷ ds) h = rw (h.0, check_deletes-within n ds h.1) refl

All-append_left : (P : ℤ → Type 0) (xs ys : List ℤ) → All P (xs ++ ys) → All P xs × All P ys
All-append_left P [] ys h = (tt, h)
All-append_left P (x ∷ xs) ys h = let (l, r) = All-append_left P xs ys h.1 in ((h.0, l), r)

map_append : (xs ys : List ℤ) → map to_nat (xs ++ ys) ≡ map to_nat xs ++ map to_nat ys
map_append [] ys = refl
map_append (x ∷ xs) ys = ap (λ t. to_nat x ∷ t) (map_append xs ys)

delete_set-within :
    (n : ℕ) (es : List LineEdit)
    → All (λ d. within d n ≡ true) (deletes_of es)
    → delete_set n es ≡ ok (map to_nat (deletes_of es))
unfolding delete_set
delete_set-within n [] h = refl
delete_set-within n (e ∷ es) h =
    let (l, r) = All-append_left (λ d. within d n ≡ true) e.delete (deletes_of es) h in
    rw
      (
        check_deletes-within n e.delete l,
        delete_set-within n es r,
        map_append e.delete (deletes_of es),
      )
      refl

sorted_edits-none : (es : List LineEdit) → any has_place es ≡ false → sorted_edits es ≡ []
unfolding sorted_edits
sorted_edits-none [] h = refl
sorted_edits-none (e ∷ es) h = ground (arith, h, sorted_edits-none es)

within_low :
    (n : ℕ) (ds : List ℤ) → All (λ d. within d n ≡ true) ds → All (λ d. 1 ≤ d) (map to_nat ds)
within_low n [] h = tt
within_low n (d ∷ ds) h = (ground (arith, h.0), within_low n ds h.1)

-- Edits that only delete lines, all of them lines of the text, leave exactly the lines whose numbers are
-- not named, in their order, and each edit that names a line counts as applied.
pub apply_line_edits-keep :
    (content : Bytes) (es : List LineEdit)
    → any has_place es ≡ false
    → All (λ d. within d (length (split newline content)) ≡ true) (deletes_of es)
    → apply_line_edits content es
      ≡ ok (
        join (newline ∷ []) (keep 1 (map to_nat (deletes_of es)) (split newline content)),
        count_deletes es + 0,
      )
unfolding apply_line_edits edit_all
apply_line_edits-keep content es h k =
    let lines = split newline content in
    let ds = map to_nat (deletes_of es) in
    let none_placed : sorted_edits es ≡ [] = sorted_edits-none es h in
    let found : delete_set (length lines) es ≡ ok ds = delete_set-within (length lines) es k in
    let kept : delete_lines (descending ds) lines ≡ keep 1 ds lines =
      delete_lines-keep (descending ds) lines (descending-IsDescending ds)
        (descending-All (λ d. 1 ≤ d) ds (within_low (length lines) (deletes_of es) k))
      ∙ keep-descending 1 ds lines in
    rw (found, none_placed, kept) refl
