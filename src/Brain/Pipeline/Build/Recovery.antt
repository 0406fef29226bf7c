-- ===== src/Brain/Pipeline/Build/Recovery.antt =====
-- brain/pipeline.go: what the database holds of a running build, and what a restart makes of it.
use ho.Prelude.{
  ℕ, ◌≤◌, ◌<◌, ◌≡◌, refl, Bool, true, false, not, ◌&&◌, ◌||◌, ◌⊎◌, Option, none, some, ◌==◌, arith,
}
use ho.Prelude.Bytes.{Bytes, same, same_eq}
use ho.Brain.Pipeline.{
  Stage, monitoring, other, Row, advance_stage, increment_error_count, resume, max_stage_retries,
  auto_recover, clear_other_pause, resume_answered, owner_answers, approval, is_other_reason,
  awaits_answers,
}
use ho.Brain.Pipeline.Build.{
  Outcome, advanced, failed, StageRun, Loop, is_validate, round, dispatch, after_handler,
  validate_failed, stage_failed, count_failure,
}
use ho.Brain.Pipeline.Build.Retries.{InRound}

-- The stage in the database is the stage in memory.
abbrev pub Synced : Loop → Type 0
Synced l = l.row.stage ≡ l.stage

module _ (r : StageRun) (l : Loop) (kept : r.row.stage ≡ l.stage) where
  count_failure-Synced : (msg : Bytes) → InRound Synced (count_failure r msg l)
  unfolding count_failure increment_error_count
  count_failure-Synced msg = ground arith

  validate_failed-Synced :
      (msg : Bytes) → r.advance_written ≡ true → InRound Synced (validate_failed r msg l)
  unfolding validate_failed advance_stage
  validate_failed-Synced msg w = ground arith

  after_handler-Synced :
      (o : Outcome)
      → (r.advance_written ≡ true) ⊎ (is_validate l.stage ≡ false)
      → InRound Synced (after_handler r o l)
  unfolding after_handler stage_failed advance_stage
  after_handler-Synced (advanced next) w = ground arith
  after_handler-Synced (failed msg) w =
      ground (arith, count_failure-Synced msg, validate_failed-Synced msg)

  dispatch-Synced :
      (s : Stage)
      → (r.advance_written ≡ true) ⊎ (is_validate l.stage ≡ false)
      → InRound Synced (dispatch s r l)
  unfolding dispatch
  dispatch-Synced monitoring w = tt
  dispatch-Synced (other name) w = tt
  dispatch-Synced _ w = after_handler-Synced r.outcome w

  -- A round whose handler leaves the stage alone keeps the database at the stage in memory, also where the advance is not written: a crash then resumes at the stage that ran. For a failed validation the advance must be written.
  pub round-Synced :
      (r.advance_written ≡ true) ⊎ (is_validate l.stage ≡ false) → InRound Synced (round r l)
  unfolding round
  round-Synced w = ground (arith, dispatch-Synced l.stage w)

-- What keeps a pipeline paused across a restart: an approval, open questions, or no reason at all.
abbrev pub still_waits : ℕ → Option Bytes → Bool
still_waits pending none = true
still_waits pending (some reason) =
    same reason approval || (same reason owner_answers && not (pending == 0))

approval_is_other : (r : Bytes) → same r approval ≡ true → same r owner_answers ≡ false
approval_is_other r h = rw (same_eq r approval h)

still_waits-eq :
    (pending : ℕ) (o : Option Bytes)
    → still_waits pending o ≡ (not (is_other_reason o) && not (awaits_answers o && pending == 0))
still_waits-eq pending none = refl
still_waits-eq pending (some r) = ground (arith, approval_is_other r)

other_not_answers : (o : Option Bytes) → is_other_reason o ≡ true → awaits_answers o ≡ false
other_not_answers none h = refl
other_not_answers (some r) h = ground arith

module _ (pending : ℕ) (row : Row) where
  cleared : Row
  cleared = resume_answered pending (clear_other_pause row)

  cleared-fields : (cleared.error_count ≡ row.error_count) × (cleared.stage ≡ row.stage)
  unfolding cleared resume_answered clear_other_pause resume
  cleared-fields = ground arith

  cleared-paused : cleared.paused ≡ (row.paused && still_waits pending row.pause_reason)
  unfolding cleared resume_answered clear_other_pause resume
  cleared-paused =
      rw (still_waits-eq pending row.pause_reason)
        (ground (arith, other_not_answers row.pause_reason))

-- A restart after fewer than three counted failures clears the count and lets the pipeline go on, and it stays paused exactly if it was paused for an approval, for answers of which some are open, or for no stated reason; after three failures the row is left as it was and the pipeline does not go on.
pub auto_recover-pause :
    (pending : ℕ) (row : Row)
    → (max_stage_retries ≤ row.error_count → auto_recover pending row ≡ (row, false))
      × (row.error_count < max_stage_retries
          → ((auto_recover pending row).1 ≡ true)
            × ((auto_recover pending row).0.error_count ≡ 0)
            × ((auto_recover pending row).0.stage ≡ row.stage)
            × ((auto_recover pending row).0.paused
                ≡ (row.paused && still_waits pending row.pause_reason)))
unfolding auto_recover cleared
auto_recover-pause pending row =
    let row' : Row = record row { error_count = 0 } in
    (
      (λ many. ground arith),
      λ few. ground (arith, cleared-fields pending row', cleared-paused pending row'),
    )
