-- ===== src/Brain/Tasks/Runs.antt =====
-- How a task's run ends (brain/scheduled.go).
use ho.Brain.Tasks.{
  Action, Effect, TaskError, State, update, count, status_of, counter_of, failure_of, perform,
  parsed_effect,
}
use ho.Brain.Tasks.{finalize_task_run, add_effect, write, read, announce, execute_native_action}
use ho.Prelude.{ℕ, ◌<◌, ◌≡◌, refl, ap, ◌∙◌}
use ho.Prelude.{inl, inr, Bool, true, false, ◌&&◌, Option, none, some}
use ho.Prelude.{List, [], ◌∷◌, arith, if◌then◌else◌, ltb, ◌==◌, Bool-cases}
use ho.Prelude.Bytes.{Bytes}
use ho.Prelude.Result.{Result, err, ok}
use ho.Prelude.Dict.{nat_eq, find}

-- The error that an action comes to, of its fields or of the database.
abbrev pub error_of : (Effect → Option Bytes) → Result TaskError Effect → Option TaskError
error_of db (err e) = some e
error_of db (ok e) = failure_of db e

abbrev pub on_found : {A : Type 0} → (A → A) → Option A → Option A
on_found f none = none
on_found f (some a) = some (f a)

find-update :
    {A : Type 0} (f : A → A) (id j : ℕ) (rows : List (ℕ × A))
    → find j (update f id rows) ≡ (if id == j then on_found f (find j rows) else find j rows)
find-update f id j [] = ground arith
find-update f id j ((k, a) ∷ rows) = elim (Bool-cases (k == id)) [
  | inl p ↦ elim (Bool-cases (k == j)) [
    | inl q ↦ let r : (id == j) ≡ true = ground arith in rw (p, q, r) refl
    | inr q ↦ rw (p, q) (find-update f id j rows)
  ]
  | inr p ↦ elim (Bool-cases (k == j)) [
    | inl q ↦ let r : (id == j) ≡ false = ground arith in rw (p, q, r) refl
    | inr q ↦ rw (p, q) (find-update f id j rows)
  ]
]

abbrev pub updated : {A : Type 0} → Bool → (A → A) → Option A → Option A
updated here f o = if here then on_found f o else o

-- What finalizing a run leaves of each run and each task.
abbrev pub IsFinal : ℕ → ℕ → Option TaskError → ℕ → State → State → Type 0
IsFinal run task outcome j before after =
    (find j after.statuses ≡ updated (run == j) (λ old. status_of outcome) (find j before.statuses))
    × (find j after.counts
        ≡ updated (ltb 0 task && (task == j)) (counter_of outcome) (find j before.counts))

finalize_task_run-IsFinal :
    (has_bus : Bool) (run task : ℕ) (outcome : Option TaskError) (j : ℕ) (s : State)
    → 0 < run
    → IsFinal run task outcome j s (finalize_task_run has_bus run task outcome s)
unfolding finalize_task_run
finalize_task_run-IsFinal has_bus run task outcome j s h =
    let there : (run == 0) ≡ false = ground arith in
    let counted : find j (count (counter_of outcome) task s.counts)
        ≡ updated (ltb 0 task && (task == j)) (counter_of outcome) (find j s.counts) =
      elim (Bool-cases (ltb 0 task)) [
        | inl e ↦ rw e (find-update (counter_of outcome) task j s.counts)
        | inr e ↦ rw e refl
      ] in
    rw there ((find-update (λ old. status_of outcome) run j s.statuses, counted))

-- An effect leaves the runs and the tasks alone.
add_effect-rows :
    (has_bus : Bool) (e : Effect) (s : State)
    → ((add_effect has_bus e s).statuses ≡ s.statuses)
      × ((add_effect has_bus e s).counts ≡ s.counts)
add_effect-rows true (announce kind) s = (refl, refl)
add_effect-rows false (announce kind) s = (refl, refl)
add_effect-rows has_bus (write q ps) s = (refl, refl)
add_effect-rows has_bus (read q ps) s = (refl, refl)

perform-IsFinal :
    (db : Effect → Option Bytes) (has_bus : Bool) (run task j : ℕ) (r : Result TaskError Effect)
    (s : State)
    → 0 < run
    → IsFinal run task (error_of db r) j s (perform db has_bus run task r s)
perform-IsFinal db has_bus run task j (err e) s h =
    finalize_task_run-IsFinal has_bus run task (some e) j s h
perform-IsFinal db has_bus run task j (ok e) s h =
    let same_rows = add_effect-rows has_bus e s in
    let final =
      finalize_task_run-IsFinal has_bus run task (failure_of db e) j (add_effect has_bus e s) h in
    (
      final.0
          ∙ ap (λ d. updated (run == j) (λ old. status_of (failure_of db e)) (find j d))
              same_rows.0,
      final.1
          ∙ ap (λ d. updated (ltb 0 task && (task == j)) (counter_of (failure_of db e)) (find j d))
              same_rows.1,
    )

-- A native action ends its run: whatever the action asks and the database answers, the run is completed,
-- or failed with the error, its task counts one run or one error, and no other run or task changes.
pub execute_native_action-IsFinal :
    (db : Effect → Option Bytes) (has_bus : Bool) (action : Option Action) (run task j : ℕ)
    (s : State)
    → 0 < run
    → IsFinal run task
        (error_of db (parsed_effect action))
        j
        s
        (execute_native_action db has_bus action run task s)
unfolding execute_native_action
execute_native_action-IsFinal db has_bus action run task j s h =
    perform-IsFinal db has_bus run task j (parsed_effect action) s h
