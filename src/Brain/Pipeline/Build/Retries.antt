-- ===== src/Brain/Pipeline/Build/Retries.antt =====
-- brain/pipeline.go, runBuildPipeline: how often a stage is tried, and what a failure leads to.
use ho.Prelude.{
  ℕ, ◌+◌, ◌≤◌, ◌<◌, ◌≡◌, refl, ap, sym, subst, ◌∙◌, Bool, true, false, inl, inr, List, [], ◌∷◌,
  length, All, leb, if◌then◌else◌, Bool-cases, arith,
}
use ho.Prelude.Bytes.{Bytes}
use ho.Brain.Pipeline.{
  Stage, expand, plan, build, validate, complete, monitoring, update_plan, other, Row, pause,
  increment_error_count, max_stage_retries, is_permanent, auto_recover,
}
use ho.Brain.Pipeline.Build.{
  failed, StageRun, Loop, to_paused, Round, again, done, is_validate, round, rounds, dispatch,
  after_handler, stage_failed, count_failure, failed_times,
}

abbrev pub InRound : (Loop → Type 0) → Round → Type 0
InRound P (again l) = P l
InRound P (done exit row) = Unit

-- The stages that the retry counter guards: a failing validation goes on instead.
abbrev pub is_retried : Stage → Bool
is_retried expand = true
is_retried plan = true
is_retried build = true
is_retried complete = true
is_retried update_plan = true
is_retried _ = false

-- The run fails for a reason that may pass, on its own, and nothing cancels it.
pub record Fails (r : StageRun) : Type 0 where
  pub goes_on : r.cancelled ≡ false
  pub waits : r.cancelled_waiting ≡ false
  pub msg : Bytes
  pub fails : r.outcome ≡ failed msg
  pub transient : is_permanent msg ≡ false
  pub not_paused : r.row.paused ≡ false
  pub counted : r.count_written ≡ true
  pub pauses : r.pause_written ≡ true

dispatch_retried :
    (s : Stage) (r : StageRun) (l : Loop)
    → is_retried s ≡ true
    → dispatch s r l ≡ after_handler r r.outcome l
unfolding dispatch
dispatch_retried expand r l h = refl
dispatch_retried plan r l h = refl
dispatch_retried build r l h = refl
dispatch_retried complete r l h = refl
dispatch_retried update_plan r l h = refl
dispatch_retried validate r l h = cc
dispatch_retried monitoring r l h = cc
dispatch_retried (other name) r l h = cc

not_validate : (s : Stage) → is_retried s ≡ true → is_validate s ≡ false
not_validate validate h = cc
not_validate _ h = refl

-- What such a failure does to the loop.
abbrev pub next_try : StageRun → Bytes → Loop → Round
next_try r msg l =
    let row = increment_error_count msg r.row in
    if leb max_stage_retries (l.retries + 1)
    then done to_paused (pause (failed_times l.stage (l.retries + 1)) row)
    else again (record l { retries = l.retries + 1; row = row })

handler_fails :
    (r : StageRun) (msg : Bytes) (l : Loop)
    → is_validate l.stage ≡ false
    → is_permanent msg ≡ false
    → r.cancelled_waiting ≡ false
    → r.row.paused ≡ false
    → r.count_written ≡ true
    → r.pause_written ≡ true
    → after_handler r (failed msg) l ≡ next_try r msg l
unfolding after_handler stage_failed count_failure
handler_fails r msg l v p w q c u = ground arith

pub round-Fails :
    (r : StageRun) (l : Loop) (f : Fails r)
    → is_retried l.stage ≡ true
    → round r l ≡ next_try r f.msg l
unfolding round
round-Fails r l f h =
    let same : after_handler r r.outcome l ≡ next_try r f.msg l =
      ap (λ o. after_handler r o l) f.fails
      ∙ handler_fails r f.msg l (not_validate l.stage h) f.transient f.waits f.not_paused f.counted
          f.pauses in
    ground (arith, f.goes_on, dispatch_retried l.stage r l h, same)

-- The handlers of consecutive runs leave the error count alone.
abbrev pub Counts : ℕ → List StageRun → Type 0
Counts n [] = Unit
Counts n (r ∷ rs) = (r.row.error_count ≡ n) × Counts (n + 1) rs

-- The pipeline was paused, and a restart leaves it so.
pub record Exhausted (n : Round) : Type 0 where
  pub row : Row
  pub is_done : n ≡ done to_paused row
  pub is_paused : row.paused ≡ true
  pub no_recovery : (pending : ℕ) → auto_recover pending row ≡ (row, false)

no_recovery_of :
    (pending : ℕ) (row : Row)
    → max_stage_retries ≤ row.error_count
    → auto_recover pending row ≡ (row, false)
unfolding auto_recover
no_recovery_of pending row h = ground arith

-- When a stage keeps failing for reasons that may pass, the build ends paused after its third failure, and the restart of the server does not resume it. The stage is not validation, the database takes the writes, the handlers leave the error count alone, and nothing cancels the build.
pub failures_exhaust :
    (rs : List StageRun) (l : Loop)
    → All Fails rs
    → is_retried l.stage ≡ true
    → l.retries ≤ l.row.error_count
    → Counts l.row.error_count rs
    → l.retries < max_stage_retries
    → max_stage_retries ≤ l.retries + length rs
    → Exhausted (rounds rs l)
unfolding rounds pause increment_error_count
failures_exhaust [] l fs h c e b n = absurd (omega arith)
failures_exhaust (r ∷ rs) l (f, fs) h c (e, es) b n =
    rw (round-Fails r l f h, rounds)
      (elim (Bool-cases (leb max_stage_retries (l.retries + 1))) [
        | inl last ↦ rw last (record {
          row = pause (failed_times l.stage (l.retries + 1)) (increment_error_count f.msg r.row);
          is_done = refl;
          is_paused = refl;
          no_recovery = λ pending. no_recovery_of pending _ (ground arith);
        })
        | inr more ↦ rw more (
            failures_exhaust rs
              (record l { retries = l.retries + 1; row = increment_error_count f.msg r.row }) fs h
              (omega arith) (subst (λ k. Counts (k + 1) rs) (sym e) es) (ground arith)
              (omega arith))
      ])
