-- ===== src/Examples/Registry.antt =====
-- Two tools, a call, a request for approval and a filter: tools/registry.go, tools/executor.go,
-- tools/approval.go and tools/tables.go.
use ho.Tools.Registry.{Tool, Registry}
use ho.Tools.Executor.{ToolResult, Outcome, timed_out, execute}
use ho.Tools.Executor.Published.{Publishes, execute-Publishes}
use ho.Tools.Approval.{
  State, Env, action_denied, request_approval, is_approval_denied, latest_answer,
}
use ho.Tools.Approval.Pending.{Denied, Means, request_approval-Means}
use ho.Tools.Tables.{Filter, object, build_where_clause, is_system_table, sanitized_table_name}
use ho.Tools.Tables.Where.{Fits, build_where_clause-Fits}
use ho.Brain.Pipeline.{Row, plan}
use ho.Prelude.{ℕ, ◌≡◌, ◌↔◌, refl}
use ho.Prelude.{true, false, Option, none, some}
use ho.Prelude.{List, [], ◌∷◌}
use ho.Prelude.Bytes.{Bytes, codes}
use ho.Prelude.Dict.{bytes_eq}
use ho.Prelude.Result.{ok}

abbrev tool_named : Bytes → Tool
tool_named name = record { name = name; description = []; parameters = []; guide = none }

abbrev a : Bytes
a = codes "a"

abbrev b : Bytes
b = codes "b"

abbrev in_order : Registry
in_order = (a, tool_named a) ∷ (b, tool_named b) ∷ []

abbrev late : Tool → Outcome
late t = timed_out (codes "late")

abbrev any_result : ToolResult → Option Bytes
any_result r = none

execute-Publishes_example :
    Publishes any_result true a
      (some (timed_out (codes "late")))
      (execute any_result late in_order true a)
execute-Publishes_example = execute-Publishes any_result late in_order true a

abbrev row : Row
row = record {
  stage = plan;
  plan_json = none;
  tool_calls_completed = 0;
  error_count = 0;
  last_error = none;
  paused = false;
  pause_reason = none;
  update_description = [];
}

abbrev pending_once : State
pending_once = record {
  questions =
      record { id = 1; text = codes "Drop it?"; context = codes "approval:drop"; pending = true }
      ∷ [];
  answers = [];
  next_id = 2;
  row = row;
  log = [];
}

abbrev env : Env
env = record { reads = true; looks_up = true; inserts = true; pauses = true; has_bus = true }

request_approval-Means_example :
    (((request_approval env (codes "drop") (codes "Drop it?") pending_once).verdict ≡ action_denied)
      ↔ Denied env (codes "drop") pending_once)
    × Means env
        (codes "drop")
        pending_once
        (request_approval env (codes "drop") (codes "Drop it?") pending_once).verdict
        (request_approval env (codes "drop") (codes "Drop it?") pending_once).state
request_approval-Means_example =
    request_approval-Means env (codes "drop") (codes "Drop it?") pending_once

-- The owner says no.
abbrev refusing : State
refusing = record pending_once {
  answers = record { question = 1; text = codes " No"; created_at = 5 } ∷ [];
}

refused : (request_approval env (codes "drop") (codes "Drop it?") refusing).verdict ≡ action_denied
unfolding request_approval is_approval_denied latest_answer
refused = refl

abbrev filters : List (Filter ℕ)
filters =
    object (codes "age") (codes ">=") (some 18) ∷ object (codes "name") (codes "is null") none ∷ []

build_where_clause-Fits_example : Fits (build_where_clause filters)
build_where_clause-Fits_example = build_where_clause-Fits filters

-- A reserved table is refused by its name, and not by the same name in other letters.
reserved_name : is_system_table (codes "ho_pages") ≡ true
unfolding is_system_table
reserved_name = refl

other_letters : sanitized_table_name (codes "HO_PAGES") ≡ ok (codes "HO_PAGES")
unfolding sanitized_table_name is_system_table
other_letters = refl
