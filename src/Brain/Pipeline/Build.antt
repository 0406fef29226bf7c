-- ===== src/Brain/Pipeline/Build.antt =====
-- brain/pipeline.go, runBuildPipeline: the loop over the stages. What the environment decides in a
-- round stands in a `StageRun`: what the stage's handler returned and left in the row, whether the
-- database took each write, and whether the context was cancelled.
pub mod Failures
pub mod Retries
pub mod Recovery
use ho.Prelude.{
  ℕ, ◌+◌, ◌*◌, Bool, true, false, ◌&&◌, Option, none, some, List, [], ◌∷◌, ◌++◌, ltb, leb, min,
  if◌then◌else◌,
}
use ho.Prelude.Bytes.{Bytes, codes, contains, decimal}
use ho.Brain.Pipeline.{
  BrainState, building, monitoring_state, paused_state, Stage, expand, plan, build, validate,
  complete, monitoring, update_plan, other, Row, advance_stage, pause, increment_error_count,
  max_stage_retries, is_permanent,
}

-- A panic in a handler is caught and is a failure too.
pub data Outcome : Type 0 where
  advanced : Stage → Outcome
  failed : Bytes → Outcome

pub record StageRun : Type 0 where
  pub cancelled : Bool  -- before the round
  pub outcome : Outcome
  pub row : Row  -- as the handler left it
  pub loaded : Bool  -- LoadPipelineState after a failure
  pub advance_written : Bool
  pub count_written : Bool
  pub pause_written : Bool
  pub cancelled_waiting : Bool  -- during the backoff

pub record Loop : Type 0 where
  pub stage : Stage
  pub retries : ℕ
  pub row : Row

pub data Exit : Type 0 where
  cancelled to_monitoring unknown_stage to_paused : Exit

pub data Round : Type 0 where
  again : Loop → Round
  done : Exit → Row → Round

abbrev pub written : Bool → Row → Row → Row
written true new old = new
written false new old = old

abbrev pub stage_name : Stage → Bytes
stage_name expand = codes "EXPAND"
stage_name plan = codes "PLAN"
stage_name build = codes "BUILD"
stage_name validate = codes "VALIDATE"
stage_name complete = codes "COMPLETE"
stage_name monitoring = codes "MONITORING"
stage_name update_plan = codes "UPDATE_PLAN"
stage_name (other name) = name

abbrev pub wait : Bool → Loop → Row → Round
wait true l row = done Exit.cancelled row
wait false l row = again l

-- The backoff before a retry, in seconds.
abbrev pub backoff : ℕ → ℕ
backoff retries = if ltb 30 (retries * 5) then 30 else retries * 5

unfoldable pub validate_failed : StageRun → Bytes → Loop → Round
validate_failed r msg l =
    if ltb l.retries 1 && contains msg (codes "critical validation")
    then wait r.cancelled_waiting (record l { retries = l.retries + 1; row = r.row }) r.row
    else again (record {
      stage = complete;
      retries = 0;
      row = written r.advance_written (advance_stage complete r.row) r.row;
    })

abbrev pub failed_times : Stage → ℕ → Bytes
failed_times stage n =
    codes "stage " ++ (stage_name stage ++ (codes " failed " ++ (decimal n ++ codes " times")))

abbrev pub permanent_in : Stage → Bytes → Bytes
permanent_in stage msg = codes "permanent error in " ++ (stage_name stage ++ (codes ": " ++ msg))

unfoldable pub count_failure : StageRun → Bytes → Loop → Round
count_failure r msg l =
    let row = written r.count_written (increment_error_count msg r.row) r.row in
    let retries = l.retries + 1 in
    if leb max_stage_retries retries
    then done to_paused (written r.pause_written (pause (failed_times l.stage retries) row) row)
    else wait r.cancelled_waiting (record l { retries = retries; row = row }) row

unfoldable pub stage_failed : StageRun → Bytes → Loop → Round
stage_failed r msg l =
    if is_permanent msg
    then done to_paused (written r.pause_written (pause (permanent_in l.stage msg) r.row) r.row)
    else count_failure r msg l

abbrev pub is_validate : Stage → Bool
is_validate validate = true
is_validate _ = false

unfoldable pub after_handler : StageRun → Outcome → Loop → Round
after_handler r (advanced next) l =
    if r.advance_written
    then again (record { stage = next; retries = 0; row = advance_stage next r.row })
    else again (record l { row = r.row })
after_handler r (failed msg) l =
    if r.loaded && r.row.paused
    then done to_paused r.row
    else if is_validate l.stage
    then validate_failed r msg l
    else stage_failed r msg l

unfoldable pub dispatch : Stage → StageRun → Loop → Round
dispatch monitoring r l = done to_monitoring l.row
dispatch (other name) r l = done unknown_stage l.row
dispatch _ r l = after_handler r r.outcome l

-- One round of the loop.
unfoldable pub round : StageRun → Loop → Round
round r l = if r.cancelled then done Exit.cancelled l.row else dispatch l.stage r l

unfoldable pub rounds : List StageRun → Loop → Round
rounds [] l = again l
rounds (r ∷ rs) l = elim (round r l) [ again l' ↦ rounds rs l' | done exit row ↦ done exit row ]

-- The start of runBuildPipeline: a paused pipeline goes to the paused loop.
unfoldable pub start : Row → Round
start row =
    if row.paused
    then done to_paused row
    else again (record { stage = row.stage; retries = 0; row = row })
