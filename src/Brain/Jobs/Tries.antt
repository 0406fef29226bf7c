-- ===== src/Brain/Jobs/Tries.antt =====
-- brain/jobs.go and tools/jobs.go: how often a job is run.
use ho.Brain.Jobs.{
  Job, JobError, completed, cancelled, is_pending, is_open, update, cancel, find_ready, has_id,
  with_status, claim, fail, handle_failure, finish, process_pending,
}
use ho.Brain.Jobs.Attempts.{IsValid, process_pending-IsValid, cancel-IsValid}
use mathlib.Core.Option.{some-injective}
use ho.Prelude.{
  subst, ℕ, ◌+◌, ◌-◌, ◌≤◌, ◌≡◌, refl, inl, inr, Bool, true, ◌&&◌, List, [], ◌∷◌, Option, none, some,
  All, leb, ==_refl, if◌then◌else◌, Bool-cases, Option-cases, arith,
}
use ho.Prelude.Bytes.{Bytes}

-- What happens to the table: a tick at some time, with what the jobs answer, or a cancel.
pub data Op : Type 0 where
  tick : ℕ → (Bytes → Bytes → Option JobError) → Op
  cancel_job : ℕ → Op

unfoldable pub apply : Op → List Job → List Job
apply (tick now run) jobs = process_pending run now jobs
apply (cancel_job id) jobs = (cancel id jobs).0

unfoldable pub apply_all : List Op → List Job → List Job
apply_all [] jobs = jobs
apply_all (op ∷ ops) jobs = apply_all ops (apply op jobs)

-- Whether the job that is found to run is that of the id.
abbrev pub is_found : ℕ → Option Job → ℕ
is_found id none = 0
is_found id (some j) = if has_id id j then 1 else 0

abbrev pub runs_in : ℕ → Op → List Job → ℕ
runs_in id (tick now run) jobs = is_found id (find_ready now jobs)
runs_in id (cancel_job other) jobs = 0

-- How often the job of the id is run.
unfoldable pub runs_of : ℕ → List Op → List Job → ℕ
runs_of id [] jobs = 0
runs_of id (op ∷ ops) jobs = runs_in id op jobs + runs_of id ops (apply op jobs)

-- The attempts that the row of the id has left.
abbrev pub attempts_left : ℕ → List Job → ℕ
attempts_left id [] = 0
attempts_left id (j ∷ jobs) =
    (if has_id id j then j.max_attempts - j.attempts else 0) + attempts_left id jobs

-- A write of other columns leaves the attempts.
update-left :
    (id : ℕ) (p : Job → Bool) (f : Job → Job)
    → ((j : Job) → has_id id (f j) ≡ has_id id j)
    → ((j : Job) → (f j).attempts ≡ j.attempts)
    → ((j : Job) → (f j).max_attempts ≡ j.max_attempts)
    → (jobs : List Job) → attempts_left id (update p f jobs) ≡ attempts_left id jobs
update-left id p f a b c [] = refl
update-left id p f a b c (j ∷ jobs) = elim (Bool-cases (p j)) [
  | inl e ↦ rw (e, a j, b j, c j, update-left id p f a b c jobs) refl
  | inr e ↦ rw (e, update-left id p f a b c jobs) refl
]

fail_id : (now id : ℕ) (e : JobError) (j : Job) → has_id id (fail now e j) ≡ has_id id j
unfolding fail
fail_id now id e j = ground arith

fail-attempts : (now : ℕ) (e : JobError) (j : Job) → (fail now e j).attempts ≡ j.attempts
unfolding fail
fail-attempts now e j = ground arith

fail-max_attempts :
    (now : ℕ) (e : JobError) (j : Job) → (fail now e j).max_attempts ≡ j.max_attempts
unfolding fail
fail-max_attempts now e j = ground arith

finish-left :
    (id now other : ℕ) (r : Option JobError) (jobs : List Job)
    → attempts_left id (finish now other r jobs) ≡ attempts_left id jobs
unfolding finish handle_failure
finish-left id now other none jobs =
    update-left id (has_id other) (with_status completed) (λ j. refl) (λ j. refl) (λ j. refl) jobs
finish-left id now other (some e) jobs =
    update-left id (has_id other) (fail now e) (fail_id now id e) (fail-attempts now e)
      (fail-max_attempts now e) jobs

cancel-left :
    (id other : ℕ) (jobs : List Job)
    → attempts_left id (cancel other jobs).0 ≡ attempts_left id jobs
unfolding cancel
cancel-left id other jobs =
    update-left id (λ j. has_id other j && is_open j.status) (with_status cancelled) (λ j. refl)
      (λ j. refl) (λ j. refl) jobs

-- A claim never adds to the attempts left.
claim-left_le :
    (id other : ℕ) (jobs : List Job) → attempts_left id (claim other jobs) ≤ attempts_left id jobs
unfolding claim
claim-left_le id other [] = omega arith
claim-left_le id other (j ∷ jobs) = elim (Bool-cases (has_id other j && is_pending j.status)) [
  | inl e ↦ elim (Bool-cases (has_id id j)) [
    | inl f ↦ rw (e, f) (omega (arith, claim-left_le id other jobs))
    | inr f ↦ rw (e, f) (omega (arith, claim-left_le id other jobs))
  ]
  | inr e ↦ rw e (omega (arith, claim-left_le id other jobs))
]

-- What is run has one attempt less.
claim_first :
    (id : ℕ) (j : Job) (jobs : List Job)
    → IsValid j
    → is_pending j.status ≡ true
    → is_found id (some j) + attempts_left id (claim j.id (j ∷ jobs)) ≤ attempts_left id (j ∷ jobs)
unfolding claim
claim_first id j jobs v p =
    let one_left = v.one_left p in
    let rest = claim-left_le id j.id jobs in
    elim (Bool-cases (has_id id j)) [
      | inl f ↦ rw (==_refl j.id, p, f) (omega (arith, one_left, rest))
      | inr f ↦ rw (==_refl j.id, p, f) (omega (arith, rest))
    ]

claim_later :
    (id other n : ℕ) (x : Job) (jobs : List Job)
    → n + attempts_left id (claim other jobs) ≤ attempts_left id jobs
    → n + attempts_left id (claim other (x ∷ jobs)) ≤ attempts_left id (x ∷ jobs)
unfolding claim
claim_later id other n x jobs h = elim (Bool-cases (has_id other x && is_pending x.status)) [
  | inr e ↦ rw e (omega (arith, h))
  | inl e ↦ elim (Bool-cases (has_id id x)) [
    | inl f ↦ rw (e, f) (omega (arith, h))
    | inr f ↦ rw (e, f) (omega (arith, h))
  ]
]

claim-found :
    (id now : ℕ) (jobs : List Job) (j : Job)
    → All IsValid jobs
    → find_ready now jobs ≡ some j
    → is_found id (some j) + attempts_left id (claim j.id jobs) ≤ attempts_left id jobs
unfolding find_ready
claim-found id now [] j v h = cc
claim-found id now (x ∷ jobs) j v h =
    elim (Bool-cases (is_pending x.status && leb x.scheduled_at now)) [
      | inl e ↦
          let h' = rw e at h in
          let p : is_pending x.status ≡ true = ground (arith, e) in
          subst
            (λ y.
              is_found id (some y) + attempts_left id (claim y.id (x ∷ jobs))
              ≤ attempts_left id (x ∷ jobs))
            (some-injective _ _ h') (claim_first id x jobs v.0 p)
      | inr e ↦
          let h' = rw e at h in
          claim_later id j.id (is_found id (some j)) x jobs (claim-found id now jobs j v.1 h')
    ]

tick-left :
    (id now : ℕ) (run : Bytes → Bytes → Option JobError) (jobs : List Job)
    → All IsValid jobs
    → is_found id (find_ready now jobs) + attempts_left id (process_pending run now jobs)
      ≤ attempts_left id jobs
unfolding process_pending
tick-left id now run jobs v = elim (Option-cases (find_ready now jobs)) [
  | inl e ↦ rw e (omega arith)
  | inr (j, e) ↦ rw e (
      omega (
        arith,
        claim-found id now jobs j v e,
        finish-left id now j.id (run j.type j.payload) (claim j.id jobs),
      ))
]

apply-left :
    (id : ℕ) (op : Op) (jobs : List Job)
    → All IsValid jobs
    → runs_in id op jobs + attempts_left id (apply op jobs) ≤ attempts_left id jobs
unfolding apply
apply-left id (tick now run) jobs v = tick-left id now run jobs v
apply-left id (cancel_job other) jobs v = omega (arith, cancel-left id other jobs)

apply-IsValid : (op : Op) (jobs : List Job) → All IsValid jobs → All IsValid (apply op jobs)
unfolding apply
apply-IsValid (tick now run) jobs v = process_pending-IsValid run now jobs v
apply-IsValid (cancel_job id) jobs v = cancel-IsValid id jobs v

-- Over any ticks and cancels, whatever the jobs answer, a job is run at most as often as it has attempts
-- left at the start, its attempts stay within its maximum, and a pending job has one left.
pub apply_all-runs_of :
    (id : ℕ) (ops : List Op) (jobs : List Job)
    → All IsValid jobs
    → (runs_of id ops jobs ≤ attempts_left id jobs) × All IsValid (apply_all ops jobs)
unfolding apply_all runs_of
apply_all-runs_of id [] jobs v = (omega arith, v)
apply_all-runs_of id (op ∷ ops) jobs v =
    let (few, valid) = apply_all-runs_of id ops (apply op jobs) (apply-IsValid op jobs v) in
    (omega (arith, few, apply-left id op jobs v), valid)
