-- ===== src/Brain/Scheduler/Due.antt =====
-- brain/scheduler.go: what a pass of the scheduler leaves due.
use mathlib.Core.Option.{some-injective}
use ho.Prelude.{
  ltb, ◌*◌, ℕ, zero, suc, ◌+◌, ◌<◌, ◌≡◌, refl, inl, inr, Bool, true, false, List, [], ◌∷◌, select,
  Option, none, some, All, All-map, any, subst, sym, ◌==◌, length, length-append, Bool-cases, arith,
}
use ho.Prelude.Int.{ℤ, pos, negsuc}
use ho.Prelude.Bytes.{Bytes, fields}
use ho.Cron.Next.{Schedule, next_fire, next_time, next_time_fields}
use ho.Cron.Field.{bind}
use ho.Cron.Next.Correct.{NextFire, next_fire-NextFire}
use ho.Brain.Scheduler.{
  second_ns, Task, TaskRun, Tables, Dispatch, after_interval, next_of, with_next, update, is_due,
  dispatch, check_tasks, check_due_tasks,
}

NextFire-later : (s : Schedule) (after t : ℕ) → NextFire s after t → after < t
NextFire-later s after t (NextFire.nothing _ e) = omega (arith, e)
NextFire-later s after t (NextFire.minute m e later _ _ _) = omega (arith, e, later)

bound-later :
    (after t : ℕ) (r : Option Schedule)
    → bind r (λ s. some (next_fire s after)) ≡ some t
    → after < t
bound-later after t none h = ground (arith, h)
bound-later after t (some s) h =
    ground (arith, h, NextFire-later s after _ (next_fire-NextFire s after))

fields-later :
    (fuel after t : ℕ) (w : List Bytes) → next_time_fields fuel w after ≡ some t → after < t
unfolding next_time_fields
fields-later fuel after t [] h = ground (arith, h)
fields-later fuel after t (a ∷ []) h = ground (arith, h)
fields-later fuel after t (a ∷ b ∷ []) h = ground (arith, h)
fields-later fuel after t (a ∷ b ∷ c ∷ []) h = ground (arith, h)
fields-later fuel after t (a ∷ b ∷ c ∷ d ∷ []) h = ground (arith, h)
fields-later fuel after t (a ∷ b ∷ c ∷ d ∷ e ∷ []) h = bound-later after t _ h
fields-later fuel after t (a ∷ b ∷ c ∷ d ∷ e ∷ f ∷ w) h = ground (arith, h)

-- Whatever the expression, valid or not, NextTime answers with a later time.
pub next_time-later :
    (fuel : ℕ) (expr : Bytes) (after t : ℕ) → next_time fuel expr after ≡ some t → after < t
unfolding next_time
next_time-later fuel expr after t h = fields-later fuel after t (fields expr) h

abbrev Later : ℕ → Option ℕ → Type 0
Later now none = Unit
Later now (some t) = now < t

-- The interval's nanoseconds fit an int64.
abbrev pub is_short : Option ℤ → Bool
is_short (some (pos n)) = ltb (n * second_ns) 9223372036854775808
is_short other = true

interval-Later :
    (now : ℕ) (interval : Option ℤ)
    → is_short interval ≡ true
    → Later now (after_interval now interval)
interval-Later now none h = tt
interval-Later now (some (negsuc n)) h = tt
interval-Later now (some (pos zero)) h = tt
interval-Later now (some (pos (suc n))) h = ground (arith, h)

timed-Later :
    (now : ℕ) (r : Option ℕ) (next : Option ℕ)
    → ((t : ℕ) → r ≡ some t → now < t)
    → elim r [ none ↦ none | some t ↦ some (some t) ] ≡ some next
    → Later now next
timed-Later now none next h e = ground (arith, e)
timed-Later now (some t) next h e = subst (Later now) (some-injective _ _ e) (h t refl)

next_of-Later :
    (fuel now : ℕ) (cron_expr : Option Bytes) (interval : Option ℤ) (next : Option ℕ)
    → is_short interval ≡ true
    → next_of fuel now cron_expr interval ≡ some next
    → Later now next
unfolding next_of
next_of-Later fuel now none interval next short h =
    subst (Later now) (some-injective _ _ h) (interval-Later now interval short)
next_of-Later fuel now (some []) interval next short h =
    subst (Later now) (some-injective _ _ h) (interval-Later now interval short)
next_of-Later fuel now (some (c ∷ expr)) interval next short h =
    timed-Later now (next_time fuel (c ∷ expr) now) next (next_time-later fuel (c ∷ expr) now) h

-- A task is not due, or its id is one of those to come.
abbrev Pending : ℕ → List Task → Task → Type 0
Pending now ts x = is_due now x ≡ true → any (λ t. x.id == t.id) ts ≡ true

with_next-Settled :
    (now : ℕ) (next : Option ℕ) (x : Task)
    → Later now next
    → is_due now (with_next now next x) ≡ false
unfolding is_due
with_next-Settled now none x later = refl
with_next-Settled now (some t) x later = ground (arith, later)

update-Pending :
    (now : ℕ) (next : Option ℕ) (t : Task) (ts xs : List Task)
    → Later now next
    → All (Pending now (t ∷ ts)) xs
    → All (Pending now ts) (update t.id (with_next now next) xs)
update-Pending now next t ts [] later all = tt
update-Pending now next t ts (x ∷ xs) later (h, all) = (
  elim (Bool-cases (x.id == t.id)) [
    | inl e ↦ rw e (λ due. ground (arith, due, with_next-Settled now next x later))
    | inr e ↦ rw e (λ due. ground (arith, h due, e))
  ],
  update-Pending now next t ts xs later all,
)

All-select : (P : Task → Type 0) (p : Task → Bool) (xs : List Task) → All P xs → All P (select p xs)
All-select P p [] h = tt
All-select P p (x ∷ xs) h = elim (Bool-cases (p x)) [
  | inl e ↦ rw e (h.0, All-select P p xs h.1)
  | inr e ↦ rw e (All-select P p xs h.1)
]

select-Pending : (now : ℕ) (xs : List Task) → All (Pending now (select (is_due now) xs)) xs
select-Pending now [] = tt
select-Pending now (x ∷ xs) = (
  (λ due. ground (arith, due)),
  All-map (λ y h due. ground (arith, h due)) xs (select-Pending now xs),
)

-- NextTime answers within the fuel, where the task has an expression, and an interval fits.
abbrev pub Computes : ℕ → ℕ → Task → Type 0
Computes fuel now t =
    (next : Option ℕ) × (next_of fuel now t.cron_expr t.interval_sec ≡ some next)
    × (is_short t.interval_sec ≡ true)

-- The pass leaves no task of the site due, and one run for each task that was.
abbrev pub Passed : ℕ → ℕ → ℕ → Option Tables → Type 0
Passed now before dispatched after =
    (db : Tables) × (after ≡ some db)
    × All (λ x. is_due now x ≡ false) db.tasks
    × (length db.runs ≡ before + dispatched)

module _ (send : Dispatch → Bool) where
  length-dispatch :
      (t : Task) (runs : List TaskRun) → length (dispatch send t runs) ≡ length runs + 1
  unfolding dispatch
  length-dispatch t runs = length-append runs _

  check_tasks-Passed :
      (fuel now : ℕ) (ts : List Task) (db : Tables)
      → All (Computes fuel now) ts
      → All (Pending now ts) db.tasks
      → Passed now (length db.runs) (length ts) (check_tasks send fuel now ts db)
  unfolding check_tasks
  check_tasks-Passed fuel now [] db computes pending =
      (db, refl, All-map (λ x h. ground (arith, h)) db.tasks pending, omega arith)
  check_tasks-Passed fuel now (t ∷ ts) db ((next, e, short), computes) pending =
      let (db', eq, settled, count) =
        check_tasks-Passed fuel now ts
          (record {
            tasks = update t.id (with_next now next) db.tasks;
            runs = dispatch send t db.runs;
          })
          computes
          (update-Pending now next t ts db.tasks (next_of-Later fuel now _ _ next short e)
            pending) in
      (
        db',
        subst
            (λ r.
              elim r [
                | none ↦ none
                | some n ↦ check_tasks send fuel now ts (record {
                  tasks = update t.id (with_next now n) db.tasks;
                  runs = dispatch send t db.runs;
                })
              ]
              ≡ some db')
            (sym e) eq,
        settled,
        omega (arith, count, length-dispatch t db.runs),
      )

  -- A pass in which NextTime answers for every task, and whose intervals are below 2^63 nanoseconds, leaves none of the tasks due and adds one run for each that was, whether or not its dispatch succeeds.
  pub check_due_tasks-Passed :
      (fuel now : ℕ) (db : Tables)
      → All (Computes fuel now) db.tasks
      → Passed now
          (length db.runs)
          (length (select (is_due now) db.tasks))
          (check_due_tasks send fuel now db)
  unfolding check_due_tasks
  check_due_tasks-Passed fuel now db computes =
      check_tasks-Passed fuel now (select (is_due now) db.tasks) db
        (All-select (Computes fuel now) (is_due now) db.tasks computes)
        (select-Pending now db.tasks)
