-- ===== src/Tools/Executor/Published.antt =====
-- What a call of a tool returns and publishes (tools/executor.go).
use ho.Tools.Executor.{
  ToolResult, Outcome, ToolEvent, executed, tool_failed, returned, failed_with, panicked, timed_out,
  Execution, failure, or_success, or_marshal_error,
}
use ho.Tools.Executor.{execute, finish}
use ho.Tools.Registry.{Tool, Registry, get}
use ho.Prelude.{◌≡◌, ◌⊎◌, ◌++◌, refl}
use ho.Prelude.{inl, inr, Bool, true, false, ◌&&◌, Option, none, some}
use ho.Prelude.{arith, if◌then◌else◌, Option-cases}
use ho.Prelude.{length, All}
use ho.Prelude.Bytes.{Bytes, codes}
use ho.Prelude.Dict.{bytes_eq}

abbrev pub is_some : Option Outcome → Bool
is_some none = false
is_some (some o) = true

abbrev pub map_outcome : (Tool → Outcome) → Option Tool → Option Outcome
map_outcome outcome none = none
map_outcome outcome (some t) = some (outcome t)

-- What the answer is of a result that was marshalled, or was not.
abbrev pub IsAnswer : (ToolResult → Option Bytes) → ToolResult → ToolResult → Type 0
IsAnswer marshals result answer =
    ((marshals result ≡ none) × (answer ≡ result))
    ⊎ ((e : Bytes) × (marshals result ≡ some e)
        × (answer ≡ failure (codes "failed to marshal result: " ++ e)))

-- The tool, if there is one, ended with the error.
abbrev pub EndsWith : Bytes → Option Outcome → Type 0
EndsWith e o = (o ≡ some (failed_with e)) ⊎ ((o ≡ some (panicked e)) ⊎ (o ≡ some (timed_out e)))

-- How an event agrees with how the tool ended and with what is returned.
abbrev pub Tells :
    (ToolResult → Option Bytes) → Option Outcome → Bytes → Execution → ToolEvent → Type 0
Tells marshals o name x (executed n success) =
    (r : Option ToolResult) × (o ≡ some (returned r))
    × (n ≡ name)
    × (success ≡ (or_success r).success)
    × (x.error ≡ none)
    × IsAnswer marshals (or_success r) x.answer
Tells marshals o name x (tool_failed n e) =
    EndsWith e o × (n ≡ name) × (x.error ≡ some e) × (x.answer ≡ failure e)

or_marshal_error-IsAnswer :
    (marshals : ToolResult → Option Bytes) (r : ToolResult)
    → IsAnswer marshals r (or_marshal_error (marshals r) r)
or_marshal_error-IsAnswer marshals r = elim (Option-cases (marshals r)) [
  | inl e ↦ rw e (inl (refl, refl))
  | inr (m, e) ↦ rw e (inr (m, refl, refl))
]

-- The events of a tool's end: one that tells of it where there is a bus.
abbrev pub Publishes :
    (ToolResult → Option Bytes) → Bool → Bytes → Option Outcome → Execution → Type 0
Publishes marshals has_bus name o x =
    All (Tells marshals o name x) x.published
    × (length x.published ≡ (if has_bus && is_some o then 1 else 0))

finish-Publishes :
    (marshals : ToolResult → Option Bytes) (has_bus : Bool) (name : Bytes) (o : Outcome)
    → Publishes marshals has_bus name (some o) (finish marshals has_bus name o)
unfolding finish
finish-Publishes marshals true name (returned r) =
    (((r, refl, refl, refl, refl, or_marshal_error-IsAnswer marshals (or_success r)), tt), refl)
finish-Publishes marshals true name (failed_with e) = (((inl refl, refl, refl, refl), tt), refl)
finish-Publishes marshals true name (panicked e) = (((inr (inl refl), refl, refl, refl), tt), refl)
finish-Publishes marshals true name (timed_out e) = (((inr (inr refl), refl, refl, refl), tt), refl)
finish-Publishes marshals false name (returned r) = (tt, refl)
finish-Publishes marshals false name (failed_with e) = (tt, refl)
finish-Publishes marshals false name (panicked e) = (tt, refl)
finish-Publishes marshals false name (timed_out e) = (tt, refl)

-- How the tool of a name ends, if it is registered.
abbrev pub ended : (Tool → Outcome) → Registry → Bytes → Option Outcome
ended outcome r name = map_outcome outcome (get name r)

-- Where there is a bus, a call publishes one event if its tool is registered, however the tool ends, and
-- none if it is not. tool.executed carries the success of the result that the tool returned, or true for
-- none, with no error returned; that result is the answer, but where it cannot be marshalled, and then
-- the answer is a failure. tool.failed carries the error with which the tool failed, panicked or was out of
-- time, which is returned, with a failure as the answer.
pub execute-Publishes :
    (marshals : ToolResult → Option Bytes) (outcome : Tool → Outcome) (r : Registry)
    (has_bus : Bool) (name : Bytes)
    → Publishes marshals has_bus name
        (ended outcome r name)
        (execute marshals outcome r has_bus name)
unfolding execute
execute-Publishes marshals outcome r has_bus name = elim (Option-cases (get name r)) [
  | inl e ↦ rw e (tt, ground arith)
  | inr (t, e) ↦ rw e (finish-Publishes marshals has_bus name (outcome t))
]
