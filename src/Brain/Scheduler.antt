-- ===== src/Brain/Scheduler.antt =====
-- brain/scheduler.go: the scheduled tasks of a site. The tables ho_scheduled_tasks and ho_task_runs are
-- lists of rows; every write succeeds. The dispatch to the worker is a parameter, and a pass is `none`
-- when the fuel of cron.NextTime's parser runs out.
pub mod Due
use ho.Prelude.{
  ℕ, suc, ◌+◌, ◌-◌, ◌%◌, ltb, ◌*◌, Bool, true, false, ◌&&◌, List, [], ◌∷◌, ◌++◌, map, select,
  Option, none, some, leb, ◌==◌, if◌then◌else◌, length,
}
use ho.Prelude.Int.{ℤ, pos, negsuc}
use ho.Prelude.Bytes.{Bytes}
use ho.Cron.Next.{next_time}

pub record Task : Type 0 where
  pub id : ℕ
  pub prompt : Bytes
  pub cron_expr : Option Bytes
  pub interval_sec : Option ℤ
  pub native_action : Bytes
  pub is_enabled : Bool
  pub last_run : Option ℕ
  pub next_run : Option ℕ

pub data RunStatus : Type 0 where
  running : RunStatus
  dispatch_failed : RunStatus

pub record TaskRun : Type 0 where
  pub id : ℕ
  pub task_id : ℕ
  pub status : RunStatus

-- The id of the next run is one more than the number of runs.
pub record Tables : Type 0 where
  pub tasks : List Task
  pub runs : List TaskRun

-- The payload of CommandScheduledTask.
pub record Dispatch : Type 0 where
  pub prompt : Bytes
  pub task_id : ℕ
  pub run_id : ℕ
  pub native_action : Bytes

abbrev pub second_ns : ℕ
second_ns = 1000000000

-- The addition of a time.Duration that may have wrapped around; no time before 1970 is told apart.
abbrev pub add_duration : ℕ → ℕ → ℕ
add_duration now d =
    let w = d % 18446744073709551616 in
    if ltb w 9223372036854775808 then now + w else now - (18446744073709551616 - w)

abbrev pub after_interval : ℕ → Option ℤ → Option ℕ
after_interval now (some (pos (suc n))) = some (add_duration now (suc n * second_ns))
after_interval now other = none

-- What comes next of a task: a time, or nothing for a task that runs once; `none` without fuel.
unfoldable pub next_of : ℕ → ℕ → Option Bytes → Option ℤ → Option (Option ℕ)
next_of fuel now (some (c ∷ expr)) interval = elim (next_time fuel (c ∷ expr) now) [
  | none ↦ none
  | some t ↦ some (some t)
]
next_of fuel now other interval = some (after_interval now interval)

abbrev pub with_next : ℕ → Option ℕ → Task → Task
with_next now (some t) task = record task { last_run = some now; next_run = some t }
with_next now none task = record task { is_enabled = false; last_run = some now }

-- UPDATE ho_scheduled_tasks SET ... WHERE id = ?
abbrev pub update : ℕ → (Task → Task) → List Task → List Task
update id f = map (λ t. if t.id == id then f t else t)

abbrev pub is_due_at : ℕ → Option ℕ → Bool
is_due_at now none = false
is_due_at now (some t) = leb t now

unfoldable pub is_due : ℕ → Task → Bool
is_due now t = t.is_enabled && is_due_at now t.next_run

abbrev pub needs_init : Task → Bool
needs_init t = t.is_enabled && elim t.next_run [ none ↦ true | some n ↦ false ]

abbrev pub init_row : Option ℕ → Task → Task
init_row (some n) t = record t { next_run = some n }
init_row none t = t

-- The loop of initializeNextRunForSite.
unfoldable pub init_tasks : ℕ → ℕ → List Task → List Task → Option (List Task)
init_tasks fuel now [] tasks = some tasks
init_tasks fuel now (t ∷ ts) tasks = elim (next_of fuel now t.cron_expr t.interval_sec) [
  | none ↦ none
  | some next ↦ init_tasks fuel now ts (update t.id (init_row next) tasks)
]

-- initializeNextRunForSite
unfoldable pub initialize_next_run : ℕ → ℕ → List Task → Option (List Task)
initialize_next_run fuel now tasks = init_tasks fuel now (select needs_init tasks) tasks

module _ (send : Dispatch → Bool) where
  -- The run is recorded, the command sent, and the run marked if that fails.
  unfoldable pub dispatch : Task → List TaskRun → List TaskRun
  dispatch t runs =
      let run_id = length runs + 1 in
      let sent = send (record {
        prompt = t.prompt;
        task_id = t.id;
        run_id = run_id;
        native_action = t.native_action;
      }) in
      runs
      ++ (record { id = run_id; task_id = t.id; status = if sent then running else dispatch_failed }
          ∷ [])

  -- The loop of checkDueTasksForSite.
  unfoldable pub check_tasks : ℕ → ℕ → List Task → Tables → Option Tables
  check_tasks fuel now [] db = some db
  check_tasks fuel now (t ∷ ts) db = elim (next_of fuel now t.cron_expr t.interval_sec) [
    | none ↦ none
    | some next ↦
        check_tasks fuel now ts
          (record { tasks = update t.id (with_next now next) db.tasks; runs = dispatch t db.runs })
  ]

  -- checkDueTasksForSite
  unfoldable pub check_due_tasks : ℕ → ℕ → Tables → Option Tables
  check_due_tasks fuel now db = check_tasks fuel now (select (is_due now) db.tasks) db
