-- ===== src/Brain/Plan/Check.antt =====
-- brain/plan.go, ValidatePlan. The warnings that it only logs are left out.
pub mod Names
pub mod Sound
pub mod Patched
use ho.Prelude.{
  ℕ, ◌+◌, Bool, true, false, not, ◌&&◌, ◌||◌, List, [], ◌∷◌, ◌++◌, map, any, all, Option, none,
  some, if◌then◌else◌,
}
use ho.Prelude.Bytes.{Bytes, codes, same}
use ho.Brain.Plan.{
  Dict, DesignSystem, LayoutSpec, PageSpec, EndpointSpec, ColumnDef, TableSpec, Plan,
}

pub data PlanError : Type 0 where
  app_type_required no_pages no_homepage colors_required no_primary no_bg layout_required :
      PlanError
  duplicate_path : Bytes → PlanError
  bad_header bad_footer : Bytes → PlanError
  bad_action : ℕ → Bytes → PlanError
  path_required : ℕ → PlanError
  table_name_required : ℕ → PlanError
  duplicate_column : Bytes → Bytes → PlanError
  only_system_columns : Bytes → PlanError

abbrev pub is_text : Bytes → Bool
is_text [] = false
is_text (c ∷ s) = true

-- The error, if the check fails.
abbrev pub unless : Bool → PlanError → List PlanError
unless ok e = if ok then [] else e ∷ []

-- A name that was seen, by a map that holds the names so far.
abbrev pub was_seen : Bytes → List Bytes → Bool
was_seen name = any (λ other. same other name)

-- The names that are there already when they come up.
unfoldable pub duplicates : List Bytes → List Bytes → List Bytes
duplicates seen [] = []
duplicates seen (name ∷ names) =
    let rest = duplicates (name ∷ seen) names in if was_seen name seen then name ∷ rest else rest

-- colors[key], "" for a key that is not there
unfoldable pub color : Bytes → Dict → Bytes
color key [] = []
color key ((k, v) ∷ d) = if same k key then v else color key d

unfoldable pub check_colors : Option Dict → List PlanError
check_colors none = colors_required ∷ []
check_colors (some []) = colors_required ∷ []
check_colors (some (kv ∷ d)) =
    unless (is_text (color (codes "primary") (kv ∷ d))) no_primary
    ++ unless (is_text (color (codes "bg") (kv ∷ d))) no_bg

unfoldable pub check_design : Option DesignSystem → List PlanError
check_design none = []
check_design (some d) = check_colors d.colors

-- `text != "" && !validChrome[text]` is an error.
abbrev pub is_chrome : Bytes → Bool
is_chrome text =
    not (is_text text)
    || same text (codes "full")
    || same text (codes "minimal")
    || same text (codes "none")

unfoldable pub check_layout : Option LayoutSpec → List PlanError
check_layout none = layout_required ∷ []
check_layout (some l) =
    unless (is_chrome l.header) (bad_header l.header)
    ++ unless (is_chrome l.footer) (bad_footer l.footer)

unfoldable pub is_action : Bytes → Bool
is_action action =
    same action (codes "create_api")
    || same action (codes "create_auth")
    || same action (codes "create_websocket")
    || same action (codes "create_stream")
    || same action (codes "create_upload")
    || same action (codes "create_llm")

unfoldable pub check_endpoints : ℕ → List EndpointSpec → List PlanError
check_endpoints i [] = []
check_endpoints i (ep ∷ eps) =
    (unless (is_action ep.action) (bad_action i ep.action)
      ++ unless (is_text ep.path) (path_required i))
    ++ check_endpoints (i + 1) eps

abbrev pub is_system : ColumnDef → Bool
is_system c =
    same c.name (codes "id") || same c.name (codes "created_at") || same c.name (codes "updated_at")

abbrev pub column_name : ColumnDef → Bytes
column_name c = c.name

-- `nonSystem == 0 && len(t.Columns) > 0` is an error.
abbrev pub has_own_column : List ColumnDef → Bool
has_own_column [] = true
has_own_column (c ∷ cs) = any (λ c'. not (is_system c')) (c ∷ cs)

abbrev pub has_pages : List PageSpec → Bool
has_pages [] = false
has_pages (pg ∷ pages) = true

abbrev pub page_path : PageSpec → Bytes
page_path pg = pg.path

module _ {J : Type 0} where
  unfoldable pub check_table : ℕ → TableSpec J → List PlanError
  check_table i t =
      if is_text t.name
      then map (duplicate_column t.name) (duplicates [] (map column_name t.columns))
        ++ unless (has_own_column t.columns) (only_system_columns t.name)
      else table_name_required i ∷ []

  unfoldable pub check_tables : ℕ → List (TableSpec J) → List PlanError
  check_tables i [] = []
  check_tables i (t ∷ ts) = check_table i t ++ check_tables (i + 1) ts

  -- ValidatePlan
  unfoldable pub validate_plan : Plan J → List PlanError
  validate_plan p =
      unless (is_text p.app_type) app_type_required
      ++ (unless (has_pages p.pages) no_pages
          ++ (map duplicate_path (duplicates [] (map page_path p.pages))
              ++ (unless (was_seen (codes "/") (map page_path p.pages)) no_homepage
                  ++ (check_design p.design_system
                      ++ (check_layout p.layout
                          ++ (check_endpoints 0 p.endpoints ++ check_tables 0 p.tables))))))
