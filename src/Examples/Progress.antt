-- ===== src/Examples/Progress.antt =====
-- brain/progress.go, on a plan of two pages and a run of costs.
use ho.Prelude.{ℕ, ◌≡◌, refl, true, false, List, [], ◌∷◌, if◌then◌else◌}
use ho.Prelude.Bytes.{Bytes, codes, same}
use ho.Brain.Plan.{Plan, PageSpec}
use ho.Brain.Progress.{new_tracker, remaining_items, all_complete, track_tool_result}
use ho.Brain.Progress.Complete.{track_all, track_all-all_complete}
use mathlib.Core.Option.{none}

abbrev page : Bytes → PageSpec
page path = record {
  path = path;
  title = [];
  purpose = [];
  sections = [];
  endpoints = [];
  auth = false;
  notes = [];
}

abbrev plan : Plan ℕ
plan = record {
  app_type = codes "site";
  architecture = [];
  auth_strategy = [];
  design_system = none;
  layout = none;
  tables = [];
  endpoints = [];
  pages = page (codes "/") ∷ page (codes "/about") ∷ [];
  external_libraries = [];
  exclusions = [];
  webhooks = [];
  actions = [];
  components = [];
  scheduled_tasks = [];
  questions = [];
}

abbrev save_args : Bytes → Bytes → Bytes
save_args path key =
    if same key (codes "action") then codes "save" else if same key (codes "path") then path else []

abbrev calls : List (Bytes × (Bytes → Bytes))
calls =
    (codes "manage_pages", save_args (codes "/"))
    ∷ (codes "manage_pages", save_args (codes "/about"))
    ∷ []

calls-remaining : remaining_items (track_all calls (new_tracker plan)) ≡ []
unfolding track_all track_tool_result new_tracker remaining_items
calls-remaining = refl

track_all-all_complete_example : all_complete (track_all calls (new_tracker plan)) ≡ true
track_all-all_complete_example =
    track_all-all_complete plan calls tt tt (refl, (refl, tt)) calls-remaining

abbrev costs : List ℕ
costs = 400000 ∷ 700000 ∷ 10 ∷ []
