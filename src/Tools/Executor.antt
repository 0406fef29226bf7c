-- ===== src/Tools/Executor.antt =====
-- The executor of tool calls: tools/executor.go. What the run of a tool comes to, by its own code or by
-- the deadline of the call, is an argument, and so is the error of
-- marshalling a result, if there is one.
pub mod Published
use ho.Prelude.{ℕ, zero, suc, ◌+◌, ◌-◌, ◌*◌, ◌/◌, ◌%◌, ◌≤◌, ◌<◌, ◌≡◌, refl, sym, ap, ◌∙◌, subst}
use ho.Prelude.{◌≢◌, ◌↔◌, ◌⊎◌, inl, inr, Bool, true, false, not, ◌&&◌, ◌||◌, Option, none, some}
use ho.Prelude.{
  List, [], ◌∷◌, ◌++◌, map, arith, if◌then◌else◌, ltb, leb, ◌==◌, Bool-cases, Option-cases,
}
use ho.Prelude.{length, All, any, all, select, take, drop, length-append, any-append, All-append}
use ho.Prelude.{All-map, take-drop, length-drop, ==_iff, ==_refl, String, min, max}
use ho.Prelude.Bytes.{Bytes, codes}
use ho.Tools.Registry.{Tool, Registry, get}

-- Result; `detail` is its field Error.
pub record ToolResult : Type 0 where
  pub success : Bool
  pub content : Option Bytes
  pub detail : Bytes

-- What the select receives: the tool's return (a result that may be nil, or an error), the error that
-- stands for a panic, or the end of the context.
pub data Outcome : Type 0 where
  returned : Option ToolResult → Outcome
  failed_with panicked timed_out : Bytes → Outcome

-- tool.executed with the result's success, and tool.failed with the error
pub data ToolEvent : Type 0 where
  executed : Bytes → Bool → ToolEvent
  tool_failed : Bytes → Bytes → ToolEvent

-- The text given to the LLM (before marshalling), the error returned, and the events published.
pub record Execution : Type 0 where
  pub answer : ToolResult
  pub error : Option Bytes
  pub published : List ToolEvent

abbrev pub failure : Bytes → ToolResult
failure msg = record { success = false; content = none; detail = msg }

abbrev pub publish : Bool → ToolEvent → List ToolEvent
publish has_bus e = if has_bus then e ∷ [] else []

abbrev pub fail_call : Bool → Bytes → Bytes → Execution
fail_call has_bus name e = record {
  answer = failure e;
  error = some e;
  published = publish has_bus (tool_failed name e);
}

abbrev pub or_success : Option ToolResult → ToolResult
or_success none = record { success = true; content = none; detail = [] }
or_success (some r) = r

abbrev pub or_marshal_error : Option Bytes → ToolResult → ToolResult
or_marshal_error none r = r
or_marshal_error (some e) r = failure (codes "failed to marshal result: " ++ e)

abbrev pub complete_call : (ToolResult → Option Bytes) → Bool → Bytes → ToolResult → Execution
complete_call marshals has_bus name r = record {
  answer = or_marshal_error (marshals r) r;
  error = none;
  published = publish has_bus (executed name r.success);
}

unfoldable pub finish : (ToolResult → Option Bytes) → Bool → Bytes → Outcome → Execution
finish marshals has_bus name (returned r) = complete_call marshals has_bus name (or_success r)
finish marshals has_bus name (failed_with e) = fail_call has_bus name e
finish marshals has_bus name (panicked e) = fail_call has_bus name e
finish marshals has_bus name (timed_out e) = fail_call has_bus name e

abbrev unknown_tool : Bytes → Execution
unknown_tool name = record {
  answer = failure (codes "unknown tool: " ++ name);
  error = none;
  published = [];
}

abbrev pub execute_found :
    (ToolResult → Option Bytes) → (Tool → Outcome) → Bool → Bytes → Option Tool → Execution
execute_found marshals outcome has_bus name none = unknown_tool name
execute_found marshals outcome has_bus name (some t) = finish marshals has_bus name (outcome t)

unfoldable pub execute :
    (ToolResult → Option Bytes) → (Tool → Outcome) → Registry → Bool → Bytes → Execution
execute marshals outcome r has_bus name = execute_found marshals outcome has_bus name (get name r)
