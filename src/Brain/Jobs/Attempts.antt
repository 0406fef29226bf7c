-- ===== src/Brain/Jobs/Attempts.antt =====
-- brain/jobs.go and tools/jobs.go: the attempts of a job, and what a tick and a cancel leave.
use mathlib.Core.Option.{some-injective}
use ho.Prelude.{
  subst, ap, ◌∙◌, if◌then◌else◌, ℕ, ◌≤◌, ◌<◌, ◌≡◌, refl, inl, inr, Bool, true, false, ◌&&◌, List,
  [], ◌∷◌, Option, none, some, All, All-append, ltb, Bool-cases, arith,
}
use ho.Prelude.Bytes.{Bytes}
use ho.Brain.Jobs.{
  is_job_type, Status, pending, failed, completed, cancelled, JobError, Job, is_pending, is_open,
  update, enqueue, cancel, find_ready, has_id, with_status, start, claim, fail, handle_failure,
  finish, process_found, process_pending,
}

-- The attempts never exceed the maximum, and a pending job has one left; the maximum is 1 at least.
pub record IsValid (j : Job) : Type 0 where
  pub max_pos : 1 ≤ j.max_attempts
  pub within : j.attempts ≤ j.max_attempts
  pub one_left : is_pending j.status ≡ true → j.attempts < j.max_attempts

update-All :
    (P : Job → Type 0) (p : Job → Bool) (f : Job → Job)
    → ((j : Job) → p j ≡ true → P j → P (f j))
    → (jobs : List Job) → All P jobs
    → All P (update p f jobs)
update-All P p f keep [] all = all
update-All P p f keep (j ∷ jobs) (h, all) = (
  elim (Bool-cases (p j)) [ inl e ↦ rw e (keep j e h) | inr e ↦ rw e h ],
  update-All P p f keep jobs all,
)

claim-IsValid : (id : ℕ) (jobs : List Job) → All IsValid jobs → All IsValid (claim id jobs)
unfolding claim
claim-IsValid id =
    update-All IsValid (λ j. has_id id j && is_pending j.status) start
      λ j hit v. record {
        max_pos = v.max_pos;
        within = ground (arith, hit, v.one_left);
        one_left = λ e. ground arith;
      }

closed-IsValid :
    (st : Status) (j : Job) → is_pending st ≡ false → IsValid j → IsValid (with_status st j)
closed-IsValid st j e v = record {
  max_pos = v.max_pos;
  within = v.within;
  one_left = λ h. ground arith;
}

fail-IsValid : (now : ℕ) (e : JobError) (j : Job) → IsValid j → IsValid (fail now e j)
unfolding fail
fail-IsValid now e j v = elim (Bool-cases (ltb j.attempts j.max_attempts)) [
  | inl t ↦
      rw t (record { max_pos = v.max_pos; within = v.within; one_left = λ _. ground (arith, t) })
  | inr t ↦ rw t (record { max_pos = v.max_pos; within = v.within; one_left = λ h. ground arith })
]

finish-IsValid :
    (now id : ℕ) (r : Option JobError) (jobs : List Job)
    → All IsValid jobs
    → All IsValid (finish now id r jobs)
unfolding finish handle_failure
finish-IsValid now id none =
    update-All IsValid (has_id id) (with_status completed)
      λ j hit v. closed-IsValid completed j refl v
finish-IsValid now id (some e) =
    update-All IsValid (has_id id) (fail now e) λ j hit v. fail-IsValid now e j v

-- A tick keeps it that the attempts of a job are within its maximum and that each pending job has one
-- left, whatever the jobs answer.
pub process_pending-IsValid :
    (run : Bytes → Bytes → Option JobError) (now : ℕ) (jobs : List Job)
    → All IsValid jobs
    → All IsValid (process_pending run now jobs)
unfolding process_pending
process_pending-IsValid run now jobs v =
    elim (find_ready now jobs) as (λ r. All IsValid (process_found run now r jobs)) [
      | none ↦ v
      | some j ↦
          finish-IsValid now j.id (run j.type j.payload) (claim j.id jobs)
            (claim-IsValid j.id jobs v)
    ]

pub cancel-IsValid : (id : ℕ) (jobs : List Job) → All IsValid jobs → All IsValid (cancel id jobs).0
unfolding cancel
cancel-IsValid id jobs v =
    update-All IsValid (λ j. has_id id j && is_open j.status) (with_status cancelled)
      (λ j hit w. closed-IsValid cancelled j refl w) jobs v

-- Adding a job, with any maximum, and cancelling one keep the same invariant.
pub enqueue-cancel-IsValid :
    (id at max_attempts : ℕ) (type payload : Bytes) (jobs jobs' : List Job)
    → All IsValid jobs
    → enqueue id at type payload max_attempts jobs ≡ some jobs'
    → All IsValid jobs' × All IsValid (cancel id jobs).0
unfolding enqueue cancel
enqueue-cancel-IsValid id at max_attempts type payload jobs jobs' v h = (
  elim (Bool-cases (is_job_type type)) [
    | inl e ↦ subst (All IsValid) (some-injective _ _ (rw e at h)) (
        All-append IsValid jobs _ v (
          record { max_pos = ground arith; within = omega arith; one_left = λ h. ground arith },
          tt,
        ))
    | inr e ↦ ground (arith, h, e)
  ],
  cancel-IsValid id jobs v,
)

-- A write that a later write of the same rows covers leaves no trace.
update-update :
    (p q : Job → Bool) (f g : Job → Job)
    → ((j : Job) → p (g j) ≡ p j)
    → ((j : Job) → p j ≡ true → f (g j) ≡ f j)
    → ((j : Job) → q j ≡ true → p j ≡ true)
    → (jobs : List Job) → update p f (update q g jobs) ≡ update p f jobs
update-update p q f g same covers within [] = refl
update-update p q f g same covers within (j ∷ jobs) = elim (Bool-cases (q j)) [
  | inl e ↦
      rw (
        e,
        same j,
        within j e,
        covers j (within j e),
        update-update p q f g same covers within jobs,
      )
  | inr e ↦ rw (e, update-update p q f g same covers within jobs)
]

finish_cancelled :
    (now id : ℕ) (r : Option JobError) (jobs : List Job)
    → finish now id r (cancel id jobs).0 ≡ finish now id r jobs
unfolding finish handle_failure cancel fail
finish_cancelled now id none =
    update-update (has_id id) (λ j. has_id id j && is_open j.status) (with_status completed)
      (with_status cancelled) (λ j. refl) (λ j _. refl) (λ j h. ground (arith, h))
finish_cancelled now id (some e) =
    update-update (has_id id) (λ j. has_id id j && is_open j.status) (fail now e)
      (with_status cancelled) (λ j. refl) (λ j _. refl) (λ j h. ground (arith, h))

fail-status :
    (now : ℕ) (e : JobError) (j : Job)
    → (fail now e j).status ≡ (if ltb j.attempts j.max_attempts then pending else failed)
unfolding fail
fail-status now e j = elim (Bool-cases (ltb j.attempts j.max_attempts)) [
  | inl t ↦ rw t refl
  | inr t ↦ rw t refl
]

-- The row of an id.
abbrev pub row_of : ℕ → List Job → Option Job
row_of id [] = none
row_of id (j ∷ jobs) = if has_id id j then some j else row_of id jobs

fail_same : (now id : ℕ) (e : JobError) (j : Job) → has_id id (fail now e j) ≡ has_id id j
unfolding fail
fail_same now id e j = ground arith

fail_row :
    (now id : ℕ) (e : JobError) (jobs : List Job) (j : Job)
    → row_of id jobs ≡ some j
    → row_of id (update (has_id id) (fail now e) jobs) ≡ some (fail now e j)
fail_row now id e [] j h = cc
fail_row now id e (x ∷ jobs) j h = elim (Bool-cases (has_id id x)) [
  | inl t ↦
      let h' = rw t at h in
      rw (t, fail_same now id e x, t) (ap (λ y. some (fail now e y)) (some-injective _ _ h'))
  | inr t ↦ let h' = rw t at h in rw (t, t) (fail_row now id e jobs j h')
]

-- A cancel that comes while a job runs is lost: however the run ends, the rows are those of a run that
-- nobody cancelled. If the run fails, the job is pending again where it has attempts left, and else failed.
pub finish-cancel :
    (now id : ℕ) (r : Option JobError) (e : JobError) (jobs : List Job) (j : Job)
    → row_of id jobs ≡ some j
    → (finish now id r (cancel id jobs).0 ≡ finish now id r jobs)
      × (after : Job) × (row_of id (finish now id (some e) (cancel id jobs).0) ≡ some after)
      × (after.status ≡ (if ltb j.attempts j.max_attempts then pending else failed))
unfolding finish handle_failure
finish-cancel now id r e jobs j h = (
  finish_cancelled now id r jobs,
  fail now e j,
  ap (row_of id) (finish_cancelled now id (some e) jobs) ∙ fail_row now id e jobs j h,
  fail-status now e j,
)
