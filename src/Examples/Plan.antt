-- ===== src/Examples/Plan.antt =====
-- brain/plan.go, on a small plan whose JSON values are numbers.
use ho.Prelude.{ℕ, ◌≡◌, ◌↔◌, refl, false, [], ◌∷◌, ◌++◌, map, none, some, select}
use ho.Prelude.Bytes.{Bytes, codes}
use ho.Brain.Plan.{DesignSystem, PageSpec, EndpointSpec, Plan, PlanPatch}
use ho.Brain.Plan.Patch.{patch_pages, apply_patch}
use ho.Brain.Plan.Patch.Pages.{is_kept, modified, patch_pages-eq}
use ho.Brain.Plan.Patch.Design.{NilColors, apply_patch-none}
use ho.Brain.Plan.Check.Patched.{apply_patch-validate_plan}
use ho.Brain.Plan.Check.{
  validate_plan, check_design, check_colors, check_layout, check_endpoints, is_action, check_tables,
  duplicates, color,
}
use ho.Brain.Plan.Check.Sound.{WellFormed, validate_plan_iff}

abbrev page : Bytes → PageSpec
page path = record {
  path = path;
  title = codes "T";
  purpose = [];
  sections = [];
  endpoints = [];
  auth = false;
  notes = [];
}

abbrev endpoint : Bytes → EndpointSpec
endpoint action = record {
  action = action;
  path = codes "auth";
  table_name = [];
  requires_auth = false;
  public_read = false;
  streaming = none;
  room_column = [];
  write_table = [];
  event_types = [];
  username_col = [];
  password_col = [];
  default_role = [];
  role_column = [];
  jwt_expiry_hours = 0;
  public_columns = [];
  owner_column = [];
}

abbrev design : DesignSystem
design = record {
  colors = none;
  extended_colors = none;
  typography = none;
  design_intent = [];
  dark_mode = false;
  components = none;
}

abbrev small : Plan ℕ
small = record {
  app_type = codes "site";
  architecture = codes "spa";
  auth_strategy = codes "none";
  design_system = some design;
  layout =
      some (record { style = []; nav_items = []; header = codes "none"; footer = codes "none" });
  tables = [];
  endpoints = endpoint (codes "create_api") ∷ [];
  pages = page (codes "/") ∷ page (codes "/about") ∷ [];
  external_libraries = [];
  exclusions = codes "no auth" ∷ [];
  webhooks = [];
  actions = [];
  components = [];
  scheduled_tasks = [];
  questions = [];
}

abbrev change : PlanPatch ℕ
change = record {
  add_pages = page (codes "/blog") ∷ [];
  modify_pages = [];
  remove_pages = codes "/about" ∷ [];
  add_endpoints = endpoint (codes "create_upload") ∷ [];
  modify_endpoints = endpoint (codes "create_auth") ∷ [];
  add_tables = [];
  modify_tables = [];
  add_webhooks = [];
  add_components = [];
  add_tasks = [];
  update_css = false;
  update_nav = false;
  update_auth_strategy = [];
  update_design_system =
      some (record design { colors = some ((codes "primary", codes "#fff") ∷ []) });
  update_layout = none;
}

validate_plan_iff_example : (validate_plan small ≡ []) ↔ WellFormed small
validate_plan_iff_example = validate_plan_iff small

patch_pages-eq_example :
    patch_pages change small.pages
    ≡ map (modified []) (select (is_kept (codes "/about" ∷ [])) small.pages)
      ++ (page (codes "/blog") ∷ [])
patch_pages-eq_example = patch_pages-eq change small.pages (refl, (refl, tt))

apply_patch-none_example :
    (apply_patch change small ≡ none) ↔ NilColors change.update_design_system small.design_system
apply_patch-none_example = apply_patch-none change small

abbrev styled : Plan ℕ
styled = record small {
  design_system = some (record design {
    colors = some ((codes "primary", codes "#000") ∷ (codes "bg", codes "#fff") ∷ []);
  });
}

styled-validate_plan : validate_plan styled ≡ []
unfolding validate_plan check_design check_colors check_layout check_endpoints is_action
    check_tables duplicates color
styled-validate_plan = refl

apply_patch-validate_plan_example : (p : Plan ℕ) × (apply_patch change styled ≡ some p)
apply_patch-validate_plan_example = apply_patch-validate_plan change styled styled-validate_plan
