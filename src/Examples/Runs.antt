-- ===== src/Examples/Runs.antt =====
-- A run of a scheduled task: brain/scheduled.go.
use ho.Brain.Tasks.{
  Action, Effect, write, State, running, effect_of, parsed_effect, execute_native_action,
}
use ho.Brain.Tasks.Runs.{IsFinal, error_of, execute_native_action-IsFinal}
use ho.Brain.Tasks.Safe.{Performs, effect_of-Performs}
use ho.Prelude.Result.{ok}
use ho.Prelude.{◌≡◌, ◌↔◌, refl}
use ho.Prelude.{true, Option, none, some}
use ho.Prelude.{[], ◌∷◌, arith}
use ho.Prelude.Bytes.{Bytes, codes}

abbrev clean_up : Action
clean_up = record {
  kind = codes "delete_stale";
  table = codes "sessions";
  column = [];
  age = codes "30 days";
  query = [];
  params = [];
  event_type = none;
}

abbrev before : State
before = record {
  statuses = (4, running) ∷ (5, running) ∷ [];
  counts = (2, record { runs = 0; errors = 0 }) ∷ [];
  published = [];
  effects = [];
}

abbrev busy : Effect → Option Bytes
busy e = some (codes "database is locked")

execute_native_action-IsFinal_example :
    IsFinal 5 2
      (error_of busy (parsed_effect (some clean_up)))
      5
      before
      (execute_native_action busy true (some clean_up) 5 2 before)
execute_native_action-IsFinal_example =
    execute_native_action-IsFinal busy true (some clean_up) 5 2 5 before (omega arith)

abbrev statement : Effect
statement =
    write (codes "DELETE FROM sessions WHERE created_at < datetime('now', ?)")
      (codes "-30 days" ∷ [])

effect_of-Performs_example : (effect_of clean_up ≡ ok statement) ↔ Performs clean_up statement
effect_of-Performs_example = effect_of-Performs clean_up statement

sent : effect_of clean_up ≡ ok statement
unfolding effect_of
sent = refl
