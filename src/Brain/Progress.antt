-- ===== src/Brain/Progress.antt =====
-- brain/progress.go: what a build has made of its plan, and what it has cost. A map to Bool that only
-- gets true is the list of its keys. An argument of a tool is its text, empty where it is missing or no
-- text. The flags that the tool loop keeps in the tracker are left out: no operation here reads them.
pub mod Keys
pub mod Complete
pub mod Alerts
use ho.Prelude.{
  ℕ, ◌+◌, Bool, true, false, not, ◌&&◌, ◌||◌, List, [], ◌∷◌, ◌++◌, map, select, Option, none, some,
  length, any, ltb, leb, ◌==◌, if◌then◌else◌,
}
use ho.Prelude.Bytes.{Bytes, codes, same, has_prefix}
use ho.Brain.Plan.{Plan, PageSpec, EndpointSpec, TableSpec}

abbrev pub is_done : Bytes → List Bytes → Bool
is_done key = any (λ k. same k key)

abbrev pub mark : Bytes → List Bytes → List Bytes
mark key done = if is_done key done then done else key ∷ done

abbrev pub is_empty : Bytes → Bool
is_empty [] = true
is_empty (c ∷ s) = false

abbrev pub endpoint_key : Bytes → Bytes → Bytes
endpoint_key action path = action ++ (b':' ∷ path)

pub record Tracker (J : Type 0) : Type 0 where
  pub plan : Plan J
  pub tables_total : ℕ
  pub pages_total : ℕ
  pub endpoints_total : ℕ
  pub tables_done : List Bytes
  pub pages_done : List Bytes
  pub endpoints_done : List Bytes
  pub tool_calls_seen : ℕ

abbrev pub missing : List Bytes → List Bytes → List Bytes
missing done = select (λ key. not (is_done key done))

module _ {J : Type 0} where
  -- newBuildProgressTracker
  unfoldable pub new_tracker : Plan J → Tracker J
  new_tracker plan = record {
    plan = plan;
    tables_total = length plan.tables;
    pages_total = length plan.pages;
    endpoints_total = length plan.endpoints;
    tables_done = [];
    pages_done = [];
    endpoints_done = [];
    tool_calls_seen = 0;
  }

  abbrev pub table_keys : Plan J → List Bytes
  table_keys plan = map (λ (t : TableSpec J). t.name) plan.tables

  abbrev pub endpoint_keys : Plan J → List Bytes
  endpoint_keys plan = map (λ (ep : EndpointSpec). endpoint_key ep.action ep.path) plan.endpoints

  abbrev pub page_keys : Plan J → List Bytes
  page_keys plan = map (λ (pg : PageSpec). pg.path) plan.pages

  -- remainingItems, by the keys of the items instead of the text about them
  unfoldable pub remaining_items : Tracker J → List Bytes
  remaining_items bp =
      missing bp.tables_done (table_keys bp.plan)
      ++ (missing bp.endpoints_done (endpoint_keys bp.plan)
          ++ missing bp.pages_done (page_keys bp.plan))

  -- allComplete
  unfoldable pub all_complete : Tracker J → Bool
  all_complete bp =
      leb bp.tables_total (length bp.tables_done)
      && leb bp.endpoints_total (length bp.endpoints_done)
      && leb bp.pages_total (length bp.pages_done)

  -- infrastructureComplete
  unfoldable pub infrastructure_complete : Tracker J → Bool
  infrastructure_complete bp =
      (bp.tables_total == 0 || leb bp.tables_total (length bp.tables_done))
      && (bp.endpoints_total == 0 || leb bp.endpoints_total (length bp.endpoints_done))
      && ltb (length bp.pages_done) bp.pages_total

  abbrev pub track_schema : (Bytes → Bytes) → Tracker J → Tracker J
  track_schema args bp =
      let name = args (codes "table_name") in
      if same (args (codes "action")) (codes "create") && not (is_empty name)
      then record bp { tables_done = mark name bp.tables_done }
      else bp

  abbrev pub track_page : (Bytes → Bytes) → Tracker J → Tracker J
  track_page args bp =
      let action = args (codes "action") in
      let path = args (codes "path") in
      if (same action (codes "save") || is_empty action) && not (is_empty path)
      then record bp { pages_done = mark path bp.pages_done }
      else bp

  abbrev pub track_endpoint : (Bytes → Bytes) → Tracker J → Tracker J
  track_endpoint args bp =
      let action = args (codes "action") in
      let path = args (codes "path") in
      if has_prefix action (codes "create_") && not (is_empty path)
      then record bp { endpoints_done = mark (endpoint_key action path) bp.endpoints_done }
      else bp

  -- trackToolResult
  unfoldable pub track_tool_result : Bytes → (Bytes → Bytes) → Tracker J → Tracker J
  track_tool_result tool args bp =
      let seen = record bp { tool_calls_seen = bp.tool_calls_seen + 1 } in
      if same tool (codes "manage_schema")
      then track_schema args seen
      else if same tool (codes "manage_pages")
      then track_page args seen
      else if same tool (codes "manage_endpoints")
      then track_endpoint args seen
      else seen

abbrev pub thresholds : List ℕ
thresholds = 500000 ∷ 1000000 ∷ 2000000 ∷ []

-- The tokens used, and the thresholds of which the owner was told. The flag of the tool loop is left out.
pub record CostTracker : Type 0 where
  pub total_tokens : ℕ
  pub alerted_at : List ℕ
  pub token_budget : ℕ

-- newBuildCostTracker
abbrev pub new_cost_tracker : CostTracker
new_cost_tracker = record { total_tokens = 0; alerted_at = []; token_budget = 3000000 }

-- The first threshold that is reached and was not alerted.
abbrev pub crossed : ℕ → List ℕ → List ℕ → Option ℕ
crossed total alerted [] = none
crossed total alerted (t ∷ ts) =
    let later = crossed total alerted ts in
    if leb t total && not (any (λ a. a == t) alerted) then some t else later

abbrev pub alert : Option ℕ → CostTracker → CostTracker
alert none ct = ct
alert (some t) ct = record ct { alerted_at = t ∷ ct.alerted_at }

-- addTokens, with the threshold that its message is about
unfoldable pub add_tokens : ℕ → CostTracker → CostTracker × Option ℕ
add_tokens tokens ct =
    let total = ct.total_tokens + tokens in
    let t = crossed total ct.alerted_at thresholds in
    (alert t (record ct { total_tokens = total }), t)
