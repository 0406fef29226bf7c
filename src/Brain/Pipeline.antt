-- ===== src/Brain/Pipeline.antt =====
-- brain/pipeline.go, brain/types.go and the pipeline row of brain/plan.go: the stages of a build, their
-- retries, and the singleton row of ho_pipeline_state. The row's timestamps are left out: no decision
-- reads them.
pub mod Build
pub mod Worker
use ho.Prelude.{
  ℕ, ◌+◌, ◌*◌, Bool, true, false, not, ◌&&◌, ◌||◌, Option, none, some, List, [], ◌∷◌, ◌++◌, ltb,
  leb, ◌==◌, if◌then◌else◌,
}
use ho.Prelude.Bytes.{Bytes, codes, same, contains, to_lower}

-- BrainState
pub data BrainState : Type 0 where
  idle building monitoring_state paused_state error_state : BrainState

-- PipelineStage, a string in the source: `other` is any string that names no stage.
pub data Stage : Type 0 where
  expand plan build validate complete monitoring update_plan : Stage
  other : Bytes → Stage

-- PipelineState
pub record Row : Type 0 where
  pub stage : Stage
  pub plan_json : Option Bytes
  pub tool_calls_completed : ℕ
  pub error_count : ℕ
  pub last_error : Option Bytes
  pub paused : Bool
  pub pause_reason : Option Bytes
  pub update_description : Bytes

-- SavePipelineState: every field but the description of an update.
unfoldable pub save : Row → Row → Row
save s row = record s { update_description = row.update_description }

-- AdvanceStage
unfoldable pub advance_stage : Stage → Row → Row
advance_stage stage row = record row { stage = stage; error_count = 0 }

-- ResetPipeline
unfoldable pub reset : Row → Row
reset row = record row {
  stage = expand;
  plan_json = none;
  tool_calls_completed = 0;
  error_count = 0;
  last_error = none;
  paused = false;
  pause_reason = none;
}

-- PausePipeline
unfoldable pub pause : Bytes → Row → Row
pause reason row = record row { paused = true; pause_reason = some reason }

-- ResumePipeline
unfoldable pub resume : Row → Row
resume row = record row { paused = false; pause_reason = none }

-- IncrementErrorCount
unfoldable pub increment_error_count : Bytes → Row → Row
increment_error_count msg row = record row {
  error_count = row.error_count + 1;
  last_error = some msg;
}

abbrev pub max_stage_retries : ℕ
max_stage_retries = 3

abbrev pub owner_answers : Bytes
owner_answers = codes "awaiting_owner_answers"

abbrev pub approval : Bytes
approval = codes "awaiting_approval"

-- isPermanentError, of brain/helpers.go
unfoldable pub is_permanent : Bytes → Bool
is_permanent err =
    let msg = to_lower err in
    contains msg (codes "no api key")
    || contains msg (codes "no model configured")
    || contains msg (codes "provider not available")
    || contains msg (codes "failed to decrypt")
    || contains msg (codes "has no api key")
    || contains msg (codes "has no base_url")
    || (contains msg (codes "send request:")
        && not (contains msg (codes "api error"))
        && not (contains msg (codes "timeout"))
        && not (contains msg (codes "context deadline exceeded")))

-- SQL's `reason NOT IN (...)`, which does not hold of NULL
abbrev pub is_other_reason : Option Bytes → Bool
is_other_reason none = false
is_other_reason (some r) = not (same r owner_answers) && not (same r approval)

abbrev pub awaits_answers : Option Bytes → Bool
awaits_answers none = false
awaits_answers (some r) = same r owner_answers

unfoldable pub clear_other_pause : Row → Row
clear_other_pause row = if row.paused && is_other_reason row.pause_reason then resume row else row

unfoldable pub resume_answered : ℕ → Row → Row
resume_answered pending row =
    if row.paused && awaits_answers row.pause_reason && pending == 0 then resume row else row

-- autoRecover, when the database answers: the row, and whether the pipeline can go on
unfoldable pub auto_recover : ℕ → Row → Row × Bool
auto_recover pending row =
    if leb max_stage_retries row.error_count
    then (row, false)
    else (resume_answered pending (clear_other_pause (record row { error_count = 0 })), true)
