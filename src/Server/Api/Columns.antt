-- ===== src/Server/Api/Columns.antt =====
-- Which columns of a table a response may show: visibleColumns, parseFieldsParam and stripSecureColumns of
-- server/public/handler.go, with ValidateColumnName of security/validate.go.
use ho.Prelude.{ℕ}
use ho.Prelude.{Bool, true, false, not, ◌&&◌, ◌||◌, Option, none, some}
use ho.Prelude.{List, [], ◌∷◌, ◌++◌, map, if◌then◌else◌, ltb}
use ho.Prelude.{length, any, select}
use ho.Prelude.Bytes.{Bytes, is_identifier, codes, same, split, join, trim_space}
use ho.Prelude.Dict.{bytes_eq, find, remove}

-- The fields of apiEndpoint that are read here.
pub record Endpoint : Type 0 where
  pub public_columns : List Bytes
  pub secure_columns : List (Bytes × Bytes)

abbrev pub id_column : Bytes
id_column = codes "id"

abbrev pub hash_kind : Bytes
hash_kind = codes "hash"

abbrev pub separator : Bytes
separator = codes ", "

-- ValidateColumnName
abbrev pub is_valid_column : Bytes → Bool
is_valid_column name = is_identifier name

-- ValidateColumnNames: the first name that is not valid
abbrev pub first_invalid : List Bytes → Option Bytes
first_invalid [] = none
first_invalid (name ∷ names) = if is_valid_column name then first_invalid names else some name

abbrev pub is_hash_kind : Option Bytes → Bool
is_hash_kind none = false
is_hash_kind (some kind) = same kind hash_kind

abbrev pub is_hash : Endpoint → Bytes → Bool
is_hash ep col = is_hash_kind (find col ep.secure_columns)

abbrev pub is_in : Bytes → List Bytes → Bool
is_in x xs = any (λ y. same y x) xs

abbrev pub safe_columns : Endpoint → List Bytes
safe_columns ep = select (λ col. not (is_hash ep col)) ep.public_columns

abbrev pub or_id : List Bytes → List Bytes
or_id [] = id_column ∷ []
or_id (c ∷ cs) = c ∷ cs

-- Without explicit public columns every column is selected.
unfoldable pub visible_columns : Endpoint → Bytes
visible_columns ep =
    if ltb 0 (length ep.public_columns) then join separator (or_id (safe_columns ep)) else codes "*"

abbrev pub is_public : Endpoint → Bytes → Bool
is_public ep col = not (ltb 0 (length ep.public_columns)) || is_in col ep.public_columns

-- What the loop over the fields does not skip, but for a column that was seen.
abbrev pub is_allowed : Endpoint → Bytes → Bool
is_allowed ep col = is_valid_column col && (not (is_hash ep col) && is_public ep col)

abbrev pub is_nil : Bytes → Bool
is_nil [] = true
is_nil (c ∷ s) = false

-- The loop over the fields, with the columns so far, which are the columns seen.
unfoldable pub field_columns : Endpoint → List Bytes → List Bytes → List Bytes
field_columns ep cols [] = cols
field_columns ep cols (f ∷ fs) =
    let col = trim_space f in
    field_columns ep
      (if is_nil col || is_in col cols
        then cols
        else if is_allowed ep col
        then cols ++ (col ∷ [])
        else cols)
      fs

-- The id is there even where it is not asked for.
abbrev pub with_id : List Bytes → List Bytes
with_id [] = []
with_id (c ∷ cols) = if is_in id_column (c ∷ cols) then c ∷ cols else id_column ∷ c ∷ cols

abbrev pub comma : ℕ
comma = 44

-- The columns of parseFieldsParam: none, where its result is empty.
unfoldable pub fields_of : Endpoint → Bytes → List Bytes
fields_of ep raw = if is_nil raw then [] else with_id (field_columns ep [] (split comma raw))

unfoldable pub parse_fields_param : Endpoint → Bytes → Bytes
parse_fields_param ep raw = join separator (fields_of ep raw)

-- The loop of stripSecureColumns over the secure columns, on one row.
unfoldable pub strip_row : {V : Type 0} → List (Bytes × Bytes) → List (Bytes × V) → List (Bytes × V)
strip_row [] row = row
strip_row ((col, kind) ∷ secure) row =
    let next = if same kind hash_kind then remove col row else row in strip_row secure next

unfoldable pub strip_secure_columns :
    {V : Type 0} → List (Bytes × Bytes) → List (List (Bytes × V)) → List (List (Bytes × V))
strip_secure_columns secure rows = map (strip_row secure) rows
