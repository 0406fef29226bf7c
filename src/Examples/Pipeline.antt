-- ===== src/Examples/Pipeline.antt =====
-- brain/pipeline.go, on a build that fails, a restart and a worker.
use ho.Prelude.{ℕ, ◌+◌, ◌*◌, ◌≤◌, ◌≡◌, refl, true, false, List, [], ◌∷◌, Option, none, some, arith}
use ho.Prelude.Bytes.{Bytes, codes}
use ho.Brain.Pipeline.{
  Row, building, monitoring_state, paused_state, build, update_plan, is_permanent,
  increment_error_count,
}
use ho.Brain.Pipeline.Build.{
  StageRun, Loop, failed, again, rounds, round, dispatch, after_handler, stage_failed,
  count_failure,
}
use ho.Brain.Pipeline.Build.Failures.{tolerated, rounds-failures}
use ho.Brain.Pipeline.Build.Retries.{Fails, Exhausted, failures_exhaust}
use ho.Brain.Pipeline.Worker.{Worker, command, tick, healthy, update, turn, turns, monitoring_loop}
use ho.Brain.Pipeline.Worker.Modes.{update_while_monitoring}

abbrev row_after : ℕ → Row
row_after n = record {
  stage = build;
  plan_json = none;
  tool_calls_completed = 0;
  error_count = n;
  last_error = none;
  paused = false;
  pause_reason = none;
  update_description = [];
}

abbrev failure : ℕ → StageRun
failure n = record {
  cancelled = false;
  outcome = failed (codes "timeout");
  row = row_after n;
  loaded = true;
  advance_written = true;
  count_written = true;
  pause_written = true;
  cancelled_waiting = false;
}

abbrev at_build : Loop
at_build = record { stage = build; retries = 0; row = row_after 0 }

abbrev failures : List StageRun
failures = failure 0 ∷ failure 1 ∷ failure 2 ∷ []

timeout-transient : is_permanent (codes "timeout") ≡ false
unfolding is_permanent
timeout-transient = refl

failure-Fails : (n : ℕ) → Fails (failure n)
failure-Fails n = record {
  goes_on = refl;
  waits = refl;
  msg = codes "timeout";
  fails = refl;
  transient = timeout-transient;
  not_paused = refl;
  counted = refl;
  pauses = refl;
}

failures_exhaust_example : Exhausted (rounds failures at_build)
failures_exhaust_example =
    failures_exhaust failures at_build (failure-Fails 0, (failure-Fails 1, (failure-Fails 2, tt)))
      refl (omega arith) (refl, (refl, (refl, tt))) (omega arith) (omega arith)

abbrev after_two : Loop
after_two = record {
  stage = build;
  retries = 2;
  row = increment_error_count (codes "timeout") (row_after 1);
}

twice_failed : rounds (failure 0 ∷ failure 1 ∷ []) at_build ≡ again after_two
unfolding rounds round dispatch after_handler stage_failed count_failure is_permanent
twice_failed = refl

rounds-failures_example : 2 + tolerated after_two ≤ tolerated at_build + 4 * 0
rounds-failures_example =
    rounds-failures (failure 0 ∷ failure 1 ∷ []) at_build after_two twice_failed

abbrev broken : Row
broken = record (row_after 1) {
  paused = true;
  pause_reason = some (codes "awaiting_owner_answers");
}

abbrev paused_worker : Worker
paused_worker = record {
  state = paused_state;
  idle_checks = 0;
  wake_context = none;
  row = row_after 0;
}

abbrev monitoring_worker : Worker
monitoring_worker = record {
  state = monitoring_state;
  idle_checks = 0;
  wake_context = none;
  row = row_after 0;
}

abbrev blog : Option Bytes
blog = some (codes "add a blog")

update_while_monitoring_example :
    ((turns (command (update blog) ∷ tick healthy ∷ []) monitoring_loop monitoring_worker).0
      ≡ monitoring_loop)
    × ((turn monitoring_loop (command (update blog)) monitoring_worker).1.state ≡ building)
    × ((turn monitoring_loop (command (update blog)) monitoring_worker).1.row.stage ≡ update_plan)
update_while_monitoring_example =
    update_while_monitoring blog (tick healthy ∷ []) monitoring_worker (refl, tt)
