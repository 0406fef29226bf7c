-- ===== src/Examples/Tasks.antt =====
-- brain/jobs.go, brain/scheduler.go and internal/sqliteretry/retry.go, on a few rows.
use ho.Prelude.{
  List, ℕ, ◌≤◌, ◌≡◌, refl, Bool, true, false, [], ◌∷◌, Option, none, some, All, arith, select,
  length, ltb, if◌then◌else◌,
}
use ho.Prelude.Int.{pos}
use ho.Prelude.Bytes.{Bytes, codes}
use ho.Retry.{Tried, with_retry}
use ho.Retry.Calls.{Ended, with_retry-Ended}
use ho.Brain.Jobs.{Status, running, pending, Job, JobError, reported, enqueue, cancel, finish}
use ho.Brain.Jobs.Attempts.{IsValid, row_of, finish-cancel}
use ho.Brain.Jobs.Tries.{Op, tick, cancel_job, runs_of, apply_all, apply_all-runs_of}
use ho.Brain.Scheduler.{Task, Tables, Dispatch, is_due, check_due_tasks, next_of}
use ho.Brain.Scheduler.Due.{Computes, Passed, check_due_tasks-Passed}

-- Busy twice, then free.
abbrev busy_twice : ℕ → ℕ × Option Bytes
busy_twice k = if ltb k 2 then (0, some (codes "database is locked")) else (k, none)

with_retry-Ended_example :
    (t : Tried ℕ) × (with_retry busy_twice (λ k. 0) 6 ≡ some t) × Ended busy_twice 0 t
with_retry-Ended_example = with_retry-Ended busy_twice (λ k. 0) (λ k. omega arith) 6 (omega arith)

abbrev job : Status → ℕ → Job
job status attempts = record {
  id = 1;
  type = codes "http_request";
  payload = codes "{}";
  status = status;
  attempts = attempts;
  max_attempts = 3;
  scheduled_at = 0;
  error = none;
}

job-IsValid : (st : Status) → IsValid (job st 1)
job-IsValid st = record { max_pos = omega arith; within = omega arith; one_left = λ h. omega arith }

abbrev always_fails : Bytes → Bytes → Option JobError
always_fails type payload = some (reported (codes "HTTP 500: "))

abbrev ops : List Op
ops = tick 9 always_fails ∷ cancel_job 7 ∷ tick 400 always_fails ∷ tick 800 always_fails ∷ []

apply_all-runs_of_example :
    (runs_of 1 ops (job pending 1 ∷ []) ≤ 2) × All IsValid (apply_all ops (job pending 1 ∷ []))
apply_all-runs_of_example = apply_all-runs_of 1 ops (job pending 1 ∷ []) (job-IsValid pending, tt)

abbrev second : Job
second = record (job pending 1) { id = 2 }

abbrev tracked : Job
tracked = record {
  id = 2;
  type = codes "custom";
  payload = codes "{}";
  status = pending;
  attempts = 0;
  max_attempts = 10;
  scheduled_at = 0;
  error = none;
}

tracked-enqueue :
    enqueue 2 0 (codes "custom") (codes "{}") 50 (job running 1 ∷ [])
    ≡ some (job running 1 ∷ tracked ∷ [])
unfolding enqueue
tracked-enqueue = refl

finish-cancel_example :
    (finish 9 1 none (cancel 1 (job running 1 ∷ [])).0 ≡ finish 9 1 none (job running 1 ∷ []))
    × (after : Job) × (row_of 1
          (finish 9 1 (some (reported (codes "HTTP 500: "))) (cancel 1 (job running 1 ∷ [])).0)
        ≡ some after)
    × (after.status ≡ pending)
finish-cancel_example =
    finish-cancel 9 1 none (reported (codes "HTTP 500: ")) (job running 1 ∷ []) (job running 1) refl

abbrev task : ℕ → Option ℕ → Task
task id next_run = record {
  id = id;
  prompt = codes "post";
  cron_expr = none;
  interval_sec = some (pos 60);
  native_action = [];
  is_enabled = true;
  last_run = none;
  next_run = next_run;
}

abbrev site : Tables
site = record { tasks = task 1 (some 5) ∷ task 2 (some 50) ∷ []; runs = [] }

abbrev send : Dispatch → Bool
send d = false

task-Computes : (id : ℕ) (next_run : Option ℕ) → Computes 61 9 (task id next_run)
unfolding next_of
task-Computes id next_run = (_, refl, refl)

check_due_tasks-Passed_example :
    Passed 9 0 (length (select (is_due 9) site.tasks)) (check_due_tasks send 61 9 site)
check_due_tasks-Passed_example =
    check_due_tasks-Passed send 61 9 site
      (task-Computes 1 (some 5), (task-Computes 2 (some 50), tt))
