-- ===== src/Brain/Plan/Patch.antt =====
-- brain/plan.go, ApplyPatch. A write into a nil map panics in Go: `none` is that panic.
pub mod Pages
pub mod Design
use ho.Prelude.{
  ℕ, Bool, true, false, not, ◌&&◌, List, [], ◌∷◌, ◌++◌, map, select, Option, none, some,
  if◌then◌else◌,
}
use ho.Prelude.Bytes.{Bytes, codes, same, contains, join}
use ho.Brain.Plan.{
  Dict, DesignSystem, TypographySpec, LayoutSpec, PageSpec, EndpointSpec, TableSpec, Plan,
  PlanPatch,
}

abbrev pub is_nil : {A : Type 0} → List A → Bool
is_nil [] = true
is_nil (x ∷ xs) = false

-- An endpoint that the plan's exclusions rule out.
abbrev pub is_excluded : List Bytes → EndpointSpec → Bool
is_excluded exclusions ep =
    same ep.action (codes "create_auth") && contains (join (codes " ") exclusions) (codes "no auth")

unfoldable pub filter_endpoints : List Bytes → List EndpointSpec → List EndpointSpec
filter_endpoints exclusions eps =
    if is_nil exclusions then eps else select (λ ep. not (is_excluded exclusions ep)) eps

-- The first page of the path is removed.
unfoldable pub remove_page : Bytes → List PageSpec → List PageSpec
remove_page path [] = []
remove_page path (pg ∷ pages) =
    let rest = remove_page path pages in if same pg.path path then pages else pg ∷ rest

unfoldable pub remove_pages : List Bytes → List PageSpec → List PageSpec
remove_pages [] pages = pages
remove_pages (path ∷ paths) pages = remove_pages paths (remove_page path pages)

-- The first page of the path is replaced.
unfoldable pub modify_page : PageSpec → List PageSpec → List PageSpec
modify_page mod_ [] = []
modify_page mod_ (pg ∷ pages) =
    let rest = modify_page mod_ pages in if same pg.path mod_.path then mod_ ∷ pages else pg ∷ rest

unfoldable pub modify_pages : List PageSpec → List PageSpec → List PageSpec
modify_pages [] pages = pages
modify_pages (m ∷ mods) pages = modify_pages mods (modify_page m pages)

-- The first endpoint of the path and action is replaced; where there is none, the new one is appended.
unfoldable pub modify_endpoint : EndpointSpec → List EndpointSpec → List EndpointSpec
modify_endpoint m [] = m ∷ []
modify_endpoint m (ep ∷ eps) =
    let rest = modify_endpoint m eps in
    if same ep.path m.path && same ep.action m.action then m ∷ eps else ep ∷ rest

unfoldable pub modify_endpoints : List EndpointSpec → List EndpointSpec → List EndpointSpec
modify_endpoints [] eps = eps
modify_endpoints (m ∷ mods) eps = modify_endpoints mods (modify_endpoint m eps)

-- `m[k] = v`
unfoldable pub put : Bytes → Bytes → Dict → Dict
put k v [] = (k, v) ∷ []
put k v ((j, w) ∷ d) = let rest = put k v d in if same j k then (k, v) ∷ d else (j, w) ∷ rest

unfoldable pub put_all : Dict → Dict → Dict
put_all [] d = d
put_all ((k, v) ∷ new) d = put_all new (put k v d)

-- A loop that writes into a map that may be nil: with nothing to write it writes nothing.
unfoldable pub merge_colors : Option Dict → Option Dict → Option (Option Dict)
merge_colors none old = some old
merge_colors (some []) old = some old
merge_colors (some (kv ∷ new)) none = none
merge_colors (some (kv ∷ new)) (some d) = some (some (put_all (kv ∷ new) d))

-- The same, where a nil map is made first.
unfoldable pub merge_made : Option Dict → Option Dict → Option Dict
merge_made none old = old
merge_made (some new) none = some (put_all new [])
merge_made (some new) (some d) = some (put_all new d)

abbrev pub or_old : {A : Type 0} → Option A → Option A → Option A
or_old none old = old
or_old (some new) old = some new

abbrev pub or_text : Bytes → Bytes → Bytes
or_text [] old = old
or_text (c ∷ s) old = c ∷ s

abbrev pub with_colors : DesignSystem → DesignSystem → Option (Option Dict) → Option DesignSystem
with_colors u d none = none
with_colors u d (some colors) = some (record {
  colors = colors;
  extended_colors = merge_made u.extended_colors d.extended_colors;
  typography = or_old u.typography d.typography;
  design_intent = or_text u.design_intent d.design_intent;
  dark_mode = u.dark_mode;
  components = merge_made u.components d.components;
})

unfoldable pub merge_design : DesignSystem → DesignSystem → Option DesignSystem
merge_design u d = with_colors u d (merge_colors u.colors d.colors)

abbrev pub as_design : Option DesignSystem → Option (Option DesignSystem)
as_design none = none
as_design (some d) = some (some d)

unfoldable pub patch_design :
    Option DesignSystem → Option DesignSystem → Option (Option DesignSystem)
patch_design none old = some old
patch_design (some u) none = some (some u)
patch_design (some u) (some d) = as_design (merge_design u d)

module _ {J : Type 0} where
  unfoldable pub modify_table : TableSpec J → List (TableSpec J) → List (TableSpec J)
  modify_table m [] = m ∷ []
  modify_table m (t ∷ ts) =
      let rest = modify_table m ts in if same t.name m.name then m ∷ ts else t ∷ rest

  unfoldable pub modify_tables : List (TableSpec J) → List (TableSpec J) → List (TableSpec J)
  modify_tables [] ts = ts
  modify_tables (m ∷ mods) ts = modify_tables mods (modify_table m ts)

  unfoldable pub patch_pages : PlanPatch J → List PageSpec → List PageSpec
  patch_pages patch pages =
      modify_pages patch.modify_pages (remove_pages patch.remove_pages pages) ++ patch.add_pages

  unfoldable pub patch_endpoints : PlanPatch J → Plan J → List EndpointSpec
  patch_endpoints patch p =
      modify_endpoints patch.modify_endpoints p.endpoints
      ++ filter_endpoints p.exclusions patch.add_endpoints

  abbrev pub with_design : PlanPatch J → Plan J → Option (Option DesignSystem) → Option (Plan J)
  with_design patch p none = none
  with_design patch p (some design) = some (record p {
    pages = patch_pages patch p.pages;
    endpoints = patch_endpoints patch p;
    tables = modify_tables patch.modify_tables p.tables ++ patch.add_tables;
    webhooks = p.webhooks ++ patch.add_webhooks;
    components = p.components ++ patch.add_components;
    scheduled_tasks = p.scheduled_tasks ++ patch.add_tasks;
    auth_strategy = or_text patch.update_auth_strategy p.auth_strategy;
    layout = or_old patch.update_layout p.layout;
    design_system = design;
  })

  -- ApplyPatch
  unfoldable pub apply_patch : PlanPatch J → Plan J → Option (Plan J)
  apply_patch patch p =
      with_design patch p (patch_design patch.update_design_system p.design_system)
