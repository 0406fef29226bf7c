-- ===== src/Brain/Progress/Complete.antt =====
-- brain/progress.go: the counts of allComplete against the items of the plan.
use ho.Prelude.{
  ℕ, ◌+◌, ◌≡◌, refl, Bool, true, false, not, ◌&&◌, ◌||◌, List, [], ◌∷◌, ◌++◌, length, if◌then◌else◌,
  subst, sym, arith,
}
use ho.Prelude.Bytes.{Bytes, codes, has_prefix, same}
use ho.Brain.Plan.{Plan}
use ho.Brain.Plan.Check.Names.{Distinct}
use ho.Brain.Progress.{
  Tracker, mark, is_empty, endpoint_key, track_schema, track_page, track_endpoint, new_tracker,
  track_tool_result, missing, table_keys, endpoint_keys, page_keys, remaining_items, all_complete,
}
use ho.Brain.Progress.Keys.{length-done, append_nil, length-map}

module _ {J : Type 0} where
  -- The tracker is of the plan, with its totals.
  pub record IsOf (plan : Plan J) (bp : Tracker J) : Type 0 where
    pub same_plan : bp.plan ≡ plan
    pub tables : bp.tables_total ≡ length (table_keys plan)
    pub endpoints : bp.endpoints_total ≡ length (endpoint_keys plan)
    pub pages : bp.pages_total ≡ length (page_keys plan)

  unfoldable pub track_all : List (Bytes × (Bytes → Bytes)) → Tracker J → Tracker J
  track_all [] bp = bp
  track_all ((tool, args) ∷ calls) bp = track_all calls (track_tool_result tool args bp)

  moved :
      (plan : Plan J) (bp : Tracker J) (ts ps es : List Bytes) (n : ℕ)
      → IsOf plan bp
      → IsOf plan (record bp {
        tables_done = ts;
        pages_done = ps;
        endpoints_done = es;
        tool_calls_seen = n;
      })
  moved plan bp ts ps es n h = record {
    same_plan = h.same_plan;
    tables = h.tables;
    endpoints = h.endpoints;
    pages = h.pages;
  }

  new_tracker-IsOf : (plan : Plan J) → IsOf plan (new_tracker plan)
  unfolding new_tracker
  new_tracker-IsOf plan = record {
    same_plan = refl;
    tables = sym (length-map _ plan.tables);
    endpoints = sym (length-map _ plan.endpoints);
    pages = sym (length-map _ plan.pages);
  }

  if_IsOf :
      (plan : Plan J) (b : Bool) (x y : Tracker J)
      → IsOf plan x
      → IsOf plan y
      → IsOf plan (if b then x else y)
  if_IsOf plan true x y h k = h
  if_IsOf plan false x y h k = k

  track_schema-IsOf :
      (plan : Plan J) (args : Bytes → Bytes) (bp : Tracker J)
      → IsOf plan bp
      → IsOf plan (track_schema args bp)
  track_schema-IsOf plan args bp h =
      if_IsOf plan
        (same (args (codes "action")) (codes "create")
          && not (is_empty (args (codes "table_name"))))
        _ _
        (moved plan bp (mark (args (codes "table_name")) bp.tables_done) bp.pages_done
          bp.endpoints_done bp.tool_calls_seen h)
        h

  track_page-IsOf :
      (plan : Plan J) (args : Bytes → Bytes) (bp : Tracker J)
      → IsOf plan bp
      → IsOf plan (track_page args bp)
  track_page-IsOf plan args bp h =
      if_IsOf plan
        ((same (args (codes "action")) (codes "save") || is_empty (args (codes "action")))
          && not (is_empty (args (codes "path"))))
        _ _
        (moved plan bp bp.tables_done (mark (args (codes "path")) bp.pages_done) bp.endpoints_done
          bp.tool_calls_seen h)
        h

  track_endpoint-IsOf :
      (plan : Plan J) (args : Bytes → Bytes) (bp : Tracker J)
      → IsOf plan bp
      → IsOf plan (track_endpoint args bp)
  track_endpoint-IsOf plan args bp h =
      if_IsOf plan
        (has_prefix (args (codes "action")) (codes "create_")
          && not (is_empty (args (codes "path"))))
        _ _
        (moved plan bp bp.tables_done bp.pages_done
          (mark (endpoint_key (args (codes "action")) (args (codes "path"))) bp.endpoints_done)
          bp.tool_calls_seen h)
        h

  track_tool_result-IsOf :
      (plan : Plan J) (tool : Bytes) (args : Bytes → Bytes) (bp : Tracker J)
      → IsOf plan bp
      → IsOf plan (track_tool_result tool args bp)
  unfolding track_tool_result
  track_tool_result-IsOf plan tool args bp h =
      let seen : Tracker J = record bp { tool_calls_seen = bp.tool_calls_seen + 1 } in
      let counted : IsOf plan seen =
        moved plan bp bp.tables_done bp.pages_done bp.endpoints_done (bp.tool_calls_seen + 1) h in
      if_IsOf plan (same tool (codes "manage_schema")) _ _
        (track_schema-IsOf plan args seen counted)
        (if_IsOf plan (same tool (codes "manage_pages")) _ _
          (track_page-IsOf plan args seen counted)
          (if_IsOf plan (same tool (codes "manage_endpoints")) _ _
            (track_endpoint-IsOf plan args seen counted) counted))

  track_all-IsOf :
      (plan : Plan J) (calls : List (Bytes × (Bytes → Bytes))) (bp : Tracker J)
      → IsOf plan bp
      → IsOf plan (track_all calls bp)
  unfolding track_all
  track_all-IsOf plan [] bp h = h
  track_all-IsOf plan ((tool, args) ∷ calls) bp h =
      track_all-IsOf plan calls _ (track_tool_result-IsOf plan tool args bp h)

  complete_of :
      (plan : Plan J) (bp : Tracker J)
      → IsOf plan bp
      → Distinct (table_keys plan)
      → Distinct (endpoint_keys plan)
      → Distinct (page_keys plan)
      → remaining_items bp ≡ []
      → all_complete bp ≡ true
  unfolding remaining_items all_complete
  complete_of plan bp k dt de dp h =
      let here : (missing bp.tables_done (table_keys plan)
            ++ (missing bp.endpoints_done (endpoint_keys plan)
                ++ missing bp.pages_done (page_keys plan)))
          ≡ [] =
        subst
          (λ p.
            (missing bp.tables_done (table_keys p)
              ++ (missing bp.endpoints_done (endpoint_keys p)
                  ++ missing bp.pages_done (page_keys p)))
            ≡ [])
          k.same_plan h in
      let (ts, rest) = append_nil (missing bp.tables_done (table_keys plan)) _ here in
      let (es, ps) = append_nil (missing bp.endpoints_done (endpoint_keys plan)) _ rest in
      ground (
        arith,
        k.tables,
        k.endpoints,
        k.pages,
        length-done (table_keys plan) bp.tables_done dt ts,
        length-done (endpoint_keys plan) bp.endpoints_done de es,
        length-done (page_keys plan) bp.pages_done dp ps,
      )

  -- Whatever tools a build calls: when no item of a plan with distinct tables, endpoints and pages remains, allComplete holds.
  pub track_all-all_complete :
      (plan : Plan J) (calls : List (Bytes × (Bytes → Bytes)))
      → Distinct (table_keys plan)
      → Distinct (endpoint_keys plan)
      → Distinct (page_keys plan)
      → remaining_items (track_all calls (new_tracker plan)) ≡ []
      → all_complete (track_all calls (new_tracker plan)) ≡ true
  track_all-all_complete plan calls =
      complete_of plan (track_all calls (new_tracker plan))
        (track_all-IsOf plan calls (new_tracker plan) (new_tracker-IsOf plan))
