-- ===== src/Tools/Tables.antt =====
-- Names, columns and filters of the tables of a site: tools/tables.go. A value that a request gives is of
-- any type V, and the objects of a request are given by their fields.
pub mod Where
use ho.Prelude.{ℕ, zero, suc, ◌+◌, ◌-◌, ◌*◌, ◌/◌, ◌%◌, ◌≤◌, ◌<◌, ◌≡◌, refl, sym, ap, ◌∙◌, subst}
use ho.Prelude.{◌≢◌, ◌↔◌, ◌⊎◌, inl, inr, Bool, true, false, not, ◌&&◌, ◌||◌, Option, none, some}
use ho.Prelude.{
  List, [], ◌∷◌, ◌++◌, map, arith, if◌then◌else◌, ltb, leb, ◌==◌, Bool-cases, Option-cases,
}
use ho.Prelude.{length, All, any, all, select, take, drop, length-append, any-append, All-append}
use ho.Prelude.{All-map, take-drop, length-drop, ==_iff, ==_refl, String, min, max}
use ho.Prelude.Bytes.{Bytes, codes, same, is_identifier, cut, join, to_upper, trim_space}
use ho.Prelude.Result.{Result, err, ok}

-- strings that are tested with ==
abbrev pub one_of : List Bytes → Bytes → Bool
one_of words s = any (λ w. same s w) words

abbrev pub system_tables : List Bytes
system_tables = map codes (
    "ho_pages" ∷ "ho_page_versions" ∷ "ho_assets" ∷ "ho_files" ∷ "ho_file_versions" ∷ "ho_brain_log"
    ∷ "ho_memory" ∷ "ho_chat_messages" ∷ "ho_questions" ∷ "ho_answers" ∷ "ho_dynamic_tables"
    ∷ "ho_api_endpoints" ∷ "ho_auth_endpoints" ∷ "ho_oauth_providers" ∷ "ho_webhooks"
    ∷ "ho_webhook_subscriptions" ∷ "ho_webhook_logs" ∷ "ho_analytics" ∷ "ho_secrets"
    ∷ "ho_scheduled_tasks" ∷ "ho_task_runs" ∷ "ho_activity_log" ∷ "ho_approval_rules"
    ∷ "ho_site_snapshots" ∷ "ho_service_providers" ∷ "ho_llm_log" ∷ "ho_layouts"
    ∷ "ho_layout_versions" ∷ "ho_pipeline_state" ∷ "ho_stage_log" ∷ "ho_upload_endpoints"
    ∷ "ho_stream_endpoints" ∷ "ho_redirects" ∷ "ho_ws_endpoints" ∷ "ho_seo_meta" ∷ "ho_blobs"
    ∷ "ho_jobs" ∷ "ho_actions" ∷ "ho_llm_endpoints" ∷ [])

unfoldable pub is_system_table : Bytes → Bool
is_system_table name = one_of system_tables name

pub data NameError : Type 0 where
  invalid_table reserved_table : NameError

unfoldable pub sanitized_table_name : Bytes → Result NameError Bytes
sanitized_table_name name =
    if not (is_identifier name)
    then err invalid_table
    else if is_system_table name
    then err reserved_table
    else ok name

-- A column as it is asked for: the name of a type, an object, or anything else.
pub record Constraints : Type 0 where
  pub type_name : Bytes
  pub not_null : Bool
  pub unique : Bool
  pub default : Bytes
  pub check : Bytes
  pub references : Bytes

pub data RawColumn : Type 0 where
  simple : Bytes → RawColumn
  extended : Constraints → RawColumn
  other_value : RawColumn

pub record ColumnDef : Type 0 where
  pub name : Bytes
  pub logical : Bytes
  pub sql_type : Bytes
  pub constraints : Constraints
  pub kind : Option Bytes  -- of a secure column

pub data ColumnError : Type 0 where
  missing_type invalid_references unsupported_type not_a_column : ColumnError

abbrev pub is_nil : Bytes → Bool
is_nil [] = true
is_nil (c ∷ s) = false

-- allowedColumnTypes
abbrev pub sql_type_of : Bytes → Option Bytes
sql_type_of t =
    if one_of (map codes ("TEXT" ∷ "INTEGER" ∷ "REAL" ∷ "BLOB" ∷ "BOOLEAN" ∷ [])) t
    then some t
    else if one_of (map codes ("PASSWORD" ∷ "ENCRYPTED" ∷ [])) t
    then some (codes "TEXT")
    else none

-- secureColumnKinds
abbrev pub kind_of : Bytes → Option Bytes
kind_of t =
    if same t (codes "PASSWORD")
    then some (codes "hash")
    else if same t (codes "ENCRYPTED")
    then some (codes "encrypt")
    else none

-- What follows the parenthesis: a name and the closing one.
abbrev closes : Bytes × Option Bytes → Bool
closes (column, none) = false
closes (column, some []) = is_identifier column
closes (column, some (c ∷ s)) = false

abbrev opens : Bytes × Option Bytes → Bool
opens (table, none) = false
opens (table, some rest) = is_identifier table && closes (cut 41 rest)

-- validFKReference: table(column)
unfoldable pub is_reference : Bytes → Bool
is_reference ref = opens (cut 40 ref)

abbrev no_constraints : Bytes → Constraints
no_constraints t = record {
  type_name = t;
  not_null = false;
  unique = false;
  default = [];
  check = [];
  references = [];
}

abbrev define : Bytes → Constraints → Result ColumnError ColumnDef
define name c =
    let t = to_upper c.type_name in
    elim (sql_type_of t) [
      | none ↦ err unsupported_type
      | some sql ↦
          ok
            (record { name = name; logical = t; sql_type = sql; constraints = c; kind = kind_of t })
    ]

unfoldable pub parse_column_def : Bytes → RawColumn → Result ColumnError ColumnDef
parse_column_def name (simple t) = define name (no_constraints t)
parse_column_def name (extended c) =
    if is_nil c.type_name
    then err missing_type
    else if not (is_nil c.references) && not (is_reference c.references)
    then err invalid_references
    else define name c
parse_column_def name other_value = err not_a_column

abbrev part : Bool → Bytes → List Bytes
part wanted text = if wanted then text ∷ [] else []

-- The fragment for CREATE TABLE; uniqueness is no part of it.
unfoldable pub column_sql : ColumnDef → Bytes
column_sql d =
    let c = d.constraints in
    join (codes " ") (
      d.name
      ∷ d.sql_type
      ∷ (part c.not_null (codes "NOT NULL")
          ++ (part (not (is_nil c.default)) (codes "DEFAULT " ++ c.default)
              ++ (part (not (is_nil c.check))
                    (codes "CHECK (" ++ (d.name ++ (codes " " ++ (c.check ++ codes ")"))))
                  ++ part (not (is_nil c.references)) (codes "REFERENCES " ++ c.references)))))

abbrev pub allowed_ops : List Bytes
allowed_ops =
    map codes
      ("=" ∷ "!=" ∷ "<" ∷ ">" ∷ "<=" ∷ ">=" ∷ "LIKE" ∷ "NOT LIKE" ∷ "IS NULL" ∷ "IS NOT NULL" ∷ [])

pub data Filter (V : Type 0) : Type 0 where
  object : Bytes → Bytes → Option V → Filter V
  not_object : Filter V

pub data FilterError : Type 0 where
  not_an_object invalid_column unsupported_operator missing_value : FilterError

abbrev pub is_null_test : Bytes → Bool
is_null_test op = same op (codes "IS NULL") || same op (codes "IS NOT NULL")

abbrev pub null_clause : Bytes → Bytes → Bytes
null_clause col op = col ++ (codes " " ++ op)

abbrev pub value_clause : Bytes → Bytes → Bytes
value_clause col op = col ++ (codes " " ++ (op ++ codes " ?"))

module _ {V : Type 0} where
  abbrev pub with_value : Bytes → Bytes → Option V → Result FilterError (Bytes × List V)
  with_value col op none = err missing_value
  with_value col op (some v) = ok (value_clause col op, v ∷ [])

  -- The clause of one filter and its parameters.
  unfoldable pub filter_clause : Filter V → Result FilterError (Bytes × List V)
  filter_clause not_object = err not_an_object
  filter_clause (object col raw value) =
      let op = to_upper (trim_space raw) in
      if not (is_identifier col)
      then err invalid_column
      else if not (one_of allowed_ops op)
      then err unsupported_operator
      else if is_null_test op
      then ok (null_clause col op, [])
      else with_value col op value

  abbrev pub join_clauses :
      Result FilterError (Bytes × List V)
      → Result FilterError (List Bytes × List V)
      → Result FilterError (List Bytes × List V)
  join_clauses (err e) rest = err e
  join_clauses (ok c) (err e) = err e
  join_clauses (ok (c, vs)) (ok (cs, ws)) = ok (c ∷ cs, vs ++ ws)

  unfoldable pub filter_clauses : List (Filter V) → Result FilterError (List Bytes × List V)
  filter_clauses [] = ok ([], [])
  filter_clauses (f ∷ fs) = join_clauses (filter_clause f) (filter_clauses fs)

  abbrev pub where_text :
      Result FilterError (List Bytes × List V) → Result FilterError (Bytes × List V)
  where_text (err e) = err e
  where_text (ok (cs, vs)) = ok (codes " WHERE " ++ join (codes " AND ") cs, vs)

  unfoldable pub build_where_clause : List (Filter V) → Result FilterError (Bytes × List V)
  build_where_clause [] = ok ([], [])
  build_where_clause (f ∷ fs) = where_text (filter_clauses (f ∷ fs))
