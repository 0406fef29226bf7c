-- ===== src/Brain/Loop/Execute.antt =====
-- The calls of one reply and their results: executeToolCalls of brain/tool_loop.go.
use ho.Brain.Messages.{Message, tool, ToolCall}
use ho.Prelude.{Bool, false, not, Option, none, some, List, [], ◌∷◌, ◌++◌, if◌then◌else◌}
use ho.Prelude.Bytes.{Bytes, codes}

-- The em dash of the notices
abbrev pub dash : Bytes
dash = 226 ∷ 128 ∷ 148 ∷ []

-- toolResultSucceeded is part of what a run gives: the result, and whether it tells of a success.
pub record Outcome : Type 0 where
  pub result : Bytes
  pub succeeds : Bool

-- The tools of the stage, the registry's, the error of arguments that do not parse (a list of one is
-- unwrapped), the run of a call, and the anchors that it appends to the messages.
pub record Tools : Type 0 where
  pub allowed : Bytes → Bool
  pub known : Bytes → Bool
  pub parse_error : ToolCall → Option Bytes
  pub run_call : ToolCall → Outcome
  pub anchors_of : ToolCall → List Message → List Message

abbrev refused : Bytes → Outcome
refused text = record { result = text; succeeds = false }

abbrev run_parsed : Tools → ToolCall → Option Bytes → Outcome
run_parsed ts c none = ts.run_call c
run_parsed ts c (some e) = refused (
    codes "{\"error\": \"invalid JSON arguments for tool "
    ++ (c.name ++ (codes ": " ++ (e ++ codes "\"}"))))

-- A call is refused, or it runs.
unfoldable pub outcome_of : Tools → ToolCall → Outcome
outcome_of ts c =
    if not (ts.allowed c.name)
    then refused (
        codes "{\"error\": \"tool '"
        ++ (c.name ++ codes "' is not available in the current stage\"}"))
    else if not (ts.known c.name)
    then refused (
        codes "{\"error\": \"unknown tool '"
        ++ (c.name ++ (codes "' " ++ (dash ++ codes " check available tool names\"}"))))
    else run_parsed ts c (ts.parse_error c)

abbrev pub result_message : Outcome → Message
result_message o = record { role = tool; content = o.result; calls = [] }

abbrev pub anchors_after : Tools → ToolCall → List Message → List Message
anchors_after ts c ms = if (outcome_of ts c).succeeds then ts.anchors_of c ms else []

-- The messages with the result of a call, and the anchors that it injects.
abbrev pub add_result : Tools → ToolCall → List Message → List Message
add_result ts c ms =
    let next = ms ++ (result_message (outcome_of ts c) ∷ []) in next ++ anchors_after ts c next

-- The results in the order of the calls.
unfoldable pub execute_tool_calls : Tools → List ToolCall → List Message → List Message
execute_tool_calls ts [] ms = ms
execute_tool_calls ts (c ∷ cs) ms = execute_tool_calls ts cs (add_result ts c ms)
