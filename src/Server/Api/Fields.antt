-- ===== src/Server/Api/Fields.antt =====
-- No hash is shown, and the fields that are shown are those that may be (server/public/handler.go).
use ho.Server.Api.Columns.{Endpoint, id_column, hash_kind, is_in, is_allowed, is_nil}
use ho.Server.Api.Columns.{field_columns, with_id, fields_of, strip_row, comma}
use ho.Prelude.{◌≡◌, refl, ap, ◌∙◌, subst}
use ho.Prelude.{inl, inr, Bool, true, false, ◌&&◌, ◌||◌, none}
use ho.Prelude.{List, [], ◌∷◌, ◌++◌, arith, if◌then◌else◌, Bool-cases}
use ho.Prelude.{All, any, any-append, All-append}
use ho.Prelude.{All-map}
use ho.Prelude.Bytes.{Bytes, same, same_refl, same_eq, split, trim_space}
use ho.Prelude.Dict.{bytes_eq, find, remove, find-remove}

-- No column twice.
abbrev pub IsDistinct : List Bytes → Type 0
IsDistinct [] = Unit
IsDistinct (c ∷ cs) = (is_in c cs ≡ false) × IsDistinct cs

-- A column that may be shown, or the id.
abbrev pub IsShown : Endpoint → Bytes → Type 0
IsShown ep col = (is_allowed ep col || same col id_column) ≡ true

is_in-append : (x y : Bytes) (cs : List Bytes) → is_in x (cs ++ (y ∷ [])) ≡ (is_in x cs || same y x)
is_in-append x y cs =
    let last : (same y x || false) ≡ same y x = ground arith in
    any-append (λ z. same z x) cs (y ∷ []) ∙ ap (λ b. is_in x cs || b) last

append-IsDistinct :
    (c : Bytes) (cs : List Bytes) → is_in c cs ≡ false → IsDistinct cs → IsDistinct (cs ++ (c ∷ []))
append-IsDistinct c [] h d = (refl, tt)
append-IsDistinct c (x ∷ cs) h d =
    let other : same x c ≡ false = ground (arith, h) in
    let rest : is_in c cs ≡ false = ground (arith, h) in
    let apart : same c x ≡ false = elim (Bool-cases (same c x)) [
      | inl e ↦
          let here : same x c ≡ true = subst (λ y. same y c ≡ true) (same_eq c x e) (same_refl c) in
          cc
      | inr e ↦ e
    ] in
    (is_in-append x c cs ∙ rw (d.0, apart) refl, append-IsDistinct c cs rest d.1)

field_columns-IsShown :
    (ep : Endpoint) (cols fs : List Bytes)
    → IsDistinct cols × All (λ c. is_allowed ep c ≡ true) cols
    → IsDistinct (field_columns ep cols fs)
      × All (λ c. is_allowed ep c ≡ true) (field_columns ep cols fs)
unfolding field_columns
field_columns-IsShown ep cols [] h = h
field_columns-IsShown ep cols (f ∷ fs) h =
    let col = trim_space f in
    elim (Bool-cases (is_nil col || is_in col cols)) [
      | inl e ↦ rw e (field_columns-IsShown ep cols fs h)
      | inr e ↦ elim (Bool-cases (is_allowed ep col)) [
        | inl a ↦
            let fresh : is_in col cols ≡ false = ground (arith, e) in
            rw (e, a)
              (field_columns-IsShown ep (cols ++ (col ∷ [])) fs (
                (
                  append-IsDistinct col cols fresh h.0,
                  All-append (λ c. is_allowed ep c ≡ true) cols (col ∷ []) h.1 (a, tt),
                )))
        | inr a ↦ rw (e, a) (field_columns-IsShown ep cols fs h)
      ]
    ]

-- What parseFieldsParam's list of columns is: empty, or the id and columns that may be shown, none twice.
abbrev pub IsFieldList : Endpoint → List Bytes → Type 0
IsFieldList ep [] = Unit
IsFieldList ep (c ∷ cs) =
    IsDistinct (c ∷ cs) × (is_in id_column (c ∷ cs) ≡ true) × All (IsShown ep) (c ∷ cs)

with_id-IsFieldList :
    (ep : Endpoint) (cols : List Bytes)
    → IsDistinct cols × All (λ c. is_allowed ep c ≡ true) cols
    → IsFieldList ep (with_id cols)
with_id-IsFieldList ep [] h = tt
with_id-IsFieldList ep (c ∷ cs) h =
    let shown : All (IsShown ep) (c ∷ cs) = All-map (λ x a. rw a refl) (c ∷ cs) h.1 in
    elim (Bool-cases (is_in id_column (c ∷ cs))) [
      | inl e ↦ rw e ((h.0, e, shown))
      | inr e ↦
          let own : IsShown ep id_column = ground arith in rw e (((e, h.0), refl, (own, shown)))
    ]

-- Whatever fields a request names, the columns that are selected are the id and columns that the endpoint
-- allows: valid names, no password hash, within the public columns if there are any; and none is
-- selected twice.
pub fields_of-IsFieldList : (ep : Endpoint) (raw : Bytes) → IsFieldList ep (fields_of ep raw)
unfolding fields_of
fields_of-IsFieldList ep raw = elim (Bool-cases (is_nil raw)) [
  | inl e ↦ rw e tt
  | inr e ↦ rw e (
      with_id-IsFieldList ep (field_columns ep [] (split comma raw))
        (field_columns-IsShown ep [] (split comma raw) ((tt, tt))))
]

-- The columns of a row that are not password hashes, by the columns' kinds.
abbrev pub is_stripped : Bytes → List (Bytes × Bytes) → Bool
is_stripped col secure = any (λ entry. same entry.0 col && same entry.1 hash_kind) secure

if_same : {A : Type 0} (b : Bool) (a : A) → (if b then a else a) ≡ a
if_same true a = refl
if_same false a = refl

-- A row loses the columns whose kind is hash, and keeps every other column with its value.
pub strip_row-find :
    {V : Type 0} (secure : List (Bytes × Bytes)) (col : Bytes) (row : List (Bytes × V))
    → find col (strip_row secure row) ≡ (if is_stripped col secure then none else find col row)
unfolding strip_row
strip_row-find [] col row = refl
strip_row-find ((c, kind) ∷ secure) col row = elim (Bool-cases (same kind hash_kind)) [
  | inl k ↦ elim (Bool-cases (same c col)) [
    | inl p ↦
        let gone : find col (remove c row) ≡ none = find-remove c col row ∙ rw p refl in
        rw (k, p)
          (strip_row-find secure col (remove c row)
            ∙ rw gone (if_same (is_stripped col secure) none))
    | inr p ↦
        let kept : find col (remove c row) ≡ find col row = find-remove c col row ∙ rw p refl in
        rw (k, p) (strip_row-find secure col (remove c row) ∙ rw kept refl)
  ]
  | inr k ↦
      let skip : (same c col && false) ≡ false = ground arith in
      rw (k, skip) (strip_row-find secure col row)
]
