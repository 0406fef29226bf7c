-- ===== src/Brain/Tasks.antt =====
-- Scheduled tasks that run without a language model, and the record of a run: brain/scheduled.go.
--
-- The parse of the action, the database's answer to a statement and the run of a stage are arguments. An
-- id that is not positive is 0, and the writes that end a run succeed.
mod Names
pub mod Runs
pub mod Safe
pub use Names.*
use ho.Prelude.{ℕ, zero, suc, ◌+◌, ◌-◌, ◌*◌, ◌/◌, ◌%◌, ◌≤◌, ◌<◌, ◌≡◌, refl, sym, ap, ◌∙◌, subst}
use ho.Prelude.{◌≢◌, ◌↔◌, ◌⊎◌, inl, inr, Bool, true, false, not, ◌&&◌, ◌||◌, Option, none, some}
use ho.Prelude.{
  List, [], ◌∷◌, ◌++◌, map, arith, if◌then◌else◌, ltb, leb, ◌==◌, Bool-cases, Option-cases,
}
use ho.Prelude.{length, All, any, all, select, take, drop, length-append, any-append, All-append}
use ho.Prelude.{All-map, take-drop, length-drop, ==_iff, ==_refl, String, min, max}
use ho.Prelude.Bytes.{Bytes, to_upper, codes, same, has_prefix, trim_space}
use ho.Prelude.Result.{Result, err, ok}
use ho.Prelude.Dict.{nat_eq, find, put}

-- The fields of a native action that its types use.
pub record Action : Type 0 where
  pub kind : Bytes
  pub table : Bytes
  pub column : Bytes
  pub age : Bytes
  pub query : Bytes
  pub params : List Bytes
  pub event_type : Option Bytes  -- none where the event's fields do not parse

-- What the action does with the database or the bus.
pub data Effect : Type 0 where
  write : Bytes → List Bytes → Effect
  read : Bytes → List Bytes → Effect
  announce : Bytes → Effect

pub data TaskError : Type 0 where
  invalid_json invalid_config missing_field invalid_name unsupported_sql unknown_type : TaskError
  database : Bytes → TaskError
  llm : Bytes → TaskError

abbrev pub is_nil : Bytes → Bool
is_nil [] = true
is_nil (c ∷ s) = false

abbrev column_of : Action → Bytes
column_of a = if is_nil a.column then codes "created_at" else a.column

-- The cases of the switch up to the call of the database.
abbrev pub delete_stale : Action → Result TaskError Effect
delete_stale a =
    if is_nil a.table || is_nil a.age
    then err missing_field
    else if not (is_safe_name a.table) || not (is_safe_name (column_of a))
    then err invalid_name
    else ok (
        write
          (codes "DELETE FROM "
            ++ (a.table ++ (codes " WHERE " ++ (column_of a ++ codes " < datetime('now', ?)"))))
          ((45 ∷ a.age) ∷ []))

abbrev pub count_rows : Action → Result TaskError Effect
count_rows a =
    if is_nil a.table
    then err missing_field
    else if not (is_safe_name a.table)
    then err invalid_name
    else ok (read (codes "SELECT COUNT(*) FROM " ++ a.table) [])

abbrev pub truncate : Action → Result TaskError Effect
truncate a =
    if is_nil a.table
    then err missing_field
    else if not (is_safe_name a.table)
    then err invalid_name
    else ok (write (codes "DELETE FROM " ++ a.table) [])

abbrev starts : Bytes → Bytes → Bool
starts q word = has_prefix (to_upper q) word

abbrev pub run_sql : Action → Result TaskError Effect
run_sql a =
    let q = trim_space a.query in
    if is_nil a.query
    then err missing_field
    else if starts q (codes "SELECT")
    then ok (read q a.params)
    else if starts q (codes "DELETE") || (starts q (codes "UPDATE") || starts q (codes "INSERT"))
    then ok (write q a.params)
    else err unsupported_sql

abbrev pub announce_kind : Option Bytes → Result TaskError Effect
announce_kind none = err invalid_config
announce_kind (some kind) = if is_nil kind then err missing_field else ok (announce kind)

abbrev pub trigger_event : Action → Result TaskError Effect
trigger_event a = announce_kind a.event_type

unfoldable pub effect_of : Action → Result TaskError Effect
effect_of a =
    if same a.kind (codes "delete_stale")
    then delete_stale a
    else if same a.kind (codes "count_rows")
    then count_rows a
    else if same a.kind (codes "truncate")
    then truncate a
    else if same a.kind (codes "sql")
    then run_sql a
    else if same a.kind (codes "trigger_event")
    then trigger_event a
    else err unknown_type

pub data Status : Type 0 where
  running completed : Status
  failed : TaskError → Status

pub record Counts : Type 0 where
  pub runs : ℕ
  pub errors : ℕ

-- ho_task_runs and ho_scheduled_tasks by id, and the events published.
pub record State : Type 0 where
  pub statuses : List (ℕ × Status)
  pub counts : List (ℕ × Counts)
  pub published : List (ℕ × Bool)
  pub effects : List Effect

-- UPDATE … WHERE id = ?
abbrev pub update : {A : Type 0} → (A → A) → ℕ → List (ℕ × A) → List (ℕ × A)
update f id [] = []
update f id ((k, a) ∷ rows) =
    if k == id then (k, f a) ∷ update f id rows else (k, a) ∷ update f id rows

abbrev pub add_run : Counts → Counts
add_run c = record c { runs = suc c.runs }

abbrev pub add_error : Counts → Counts
add_error c = record c { errors = suc c.errors }

abbrev pub count : (Counts → Counts) → ℕ → List (ℕ × Counts) → List (ℕ × Counts)
count f task counts = if ltb 0 task then update f task counts else counts

abbrev pub status_of : Option TaskError → Status
status_of none = completed
status_of (some e) = failed e

abbrev pub counter_of : Option TaskError → Counts → Counts
counter_of none = add_run
counter_of (some e) = add_error

abbrev pub succeeds : Option TaskError → Bool
succeeds none = true
succeeds (some e) = false

-- finalizeTaskRun, with the error of a run that did not succeed
unfoldable pub finalize_task_run : Bool → ℕ → ℕ → Option TaskError → State → State
finalize_task_run has_bus run task outcome s = if run == 0 then s else record s {
  statuses = update (λ old. status_of outcome) run s.statuses;
  counts = count (counter_of outcome) task s.counts;
  published = if has_bus then s.published ++ ((run, succeeds outcome) ∷ []) else s.published;
}

abbrev pub record_effect : Effect → State → State
record_effect e s = record s { effects = s.effects ++ (e ∷ []) }

-- Without a bus an event is not published.
abbrev pub add_effect : Bool → Effect → State → State
add_effect has_bus (announce kind) s = if has_bus then record_effect (announce kind) s else s
add_effect has_bus (write q ps) s = record_effect (write q ps) s
add_effect has_bus (read q ps) s = record_effect (read q ps) s

abbrev pub database_error : Option Bytes → Option TaskError
database_error none = none
database_error (some msg) = some (database msg)

-- The database's error for an effect, if there is one; an event cannot fail.
abbrev pub failure_of : (Effect → Option Bytes) → Effect → Option TaskError
failure_of db (announce kind) = none
failure_of db (write q ps) = database_error (db (write q ps))
failure_of db (read q ps) = database_error (db (read q ps))

abbrev pub perform :
    (Effect → Option Bytes) → Bool → ℕ → ℕ → Result TaskError Effect → State → State
perform db has_bus run task (err e) s = finalize_task_run has_bus run task (some e) s
perform db has_bus run task (ok e) s =
    finalize_task_run has_bus run task (failure_of db e) (add_effect has_bus e s)

abbrev pub parsed_effect : Option Action → Result TaskError Effect
parsed_effect none = err invalid_json
parsed_effect (some a) = effect_of a

-- executeNativeAction, with what json.Unmarshal makes of the action
unfoldable pub execute_native_action :
    (Effect → Option Bytes) → Bool → Option Action → ℕ → ℕ → State → State
execute_native_action db has_bus action run task s =
    perform db has_bus run task (parsed_effect action) s

-- executeScheduledTask, with the error of the stage that the model runs
unfoldable pub execute_scheduled_task : Option Bytes → Bool → ℕ → ℕ → State → State
execute_scheduled_task none has_bus run task s = finalize_task_run has_bus run task none s
execute_scheduled_task (some msg) has_bus run task s =
    finalize_task_run has_bus run task (some (llm msg)) s
