-- ===== src/Brain/Jobs.antt =====
-- brain/jobs.go: the background jobs of a site, with the rows that tools/jobs.go adds and cancels. The
-- table ho_jobs is a list in the order of its primary key, the id; every write succeeds. The parser of
-- the payload, the senders and the database that runs a query are parameters.
pub mod Attempts
pub mod Tick
pub mod Tries
use ho.Prelude.{
  ℕ, zero, suc, ◌+◌, ◌-◌, ◌*◌, ◌^◌, Bool, true, false, not, ◌&&◌, ◌||◌, List, [], ◌∷◌, ◌++◌, map,
  Option, none, some, any, ltb, leb, ◌==◌, if◌then◌else◌,
}
use ho.Prelude.Bytes.{to_upper, Bytes, codes, same, has_prefix, trim_space}

pub data Status : Type 0 where
  pending running completed failed cancelled : Status

pub data JobError : Type 0 where
  invalid_payload query_required select_only : JobError
  unknown_type : Bytes → JobError
  reported : Bytes → JobError

-- The column result and the three other times are left out: no code reads them to decide.
pub record Job : Type 0 where
  pub id : ℕ
  pub type : Bytes
  pub payload : Bytes
  pub status : Status
  pub attempts : ℕ
  pub max_attempts : ℕ
  pub scheduled_at : ℕ  -- seconds
  pub error : Option JobError

abbrev pub is_pending : Status → Bool
is_pending pending = true
is_pending _ = false

abbrev pub is_open : Status → Bool
is_open pending = true
is_open running = true
is_open _ = false

abbrev pub has_id : ℕ → Job → Bool
has_id id j = j.id == id

abbrev pub with_status : Status → Job → Job
with_status st j = record j { status = st }

-- UPDATE ho_jobs SET ... WHERE id = ? AND ...
abbrev pub update : (Job → Bool) → (Job → Job) → List Job → List Job
update p f = map (λ j. if p j then f j else j)

-- Between 1 and 10.
abbrev pub clamp_attempts : ℕ → ℕ
clamp_attempts n = if ltb n 1 then 1 else if ltb 10 n then 10 else n

abbrev pub is_job_type : Bytes → Bool
is_job_type type =
    same type (codes "send_email")
    || same type (codes "http_request")
    || same type (codes "run_sql")
    || same type (codes "custom")

-- JobsTool.enqueue, with the defaults of the table; a negative maximum counts as 0.
unfoldable pub enqueue : ℕ → ℕ → Bytes → Bytes → ℕ → List Job → Option (List Job)
enqueue id scheduled_at type payload max_attempts jobs =
    if is_job_type type
    then some (
        jobs
        ++ (record {
          id = id;
          type = type;
          payload = payload;
          status = pending;
          attempts = 0;
          max_attempts = clamp_attempts max_attempts;
          scheduled_at = scheduled_at;
          error = none;
        }
            ∷ []))
    else none

-- JobsTool.cancel: the rows that it leaves, and whether one was affected.
unfoldable pub cancel : ℕ → List Job → List Job × Bool
cancel id jobs =
    let hit = λ (j : Job). has_id id j && is_open j.status in
    (update hit (with_status cancelled) jobs, any hit jobs)

-- The first pending job whose time has come.
unfoldable pub find_ready : ℕ → List Job → Option Job
find_ready now [] = none
find_ready now (j ∷ jobs) =
    let rest = find_ready now jobs in
    if is_pending j.status && leb j.scheduled_at now then some j else rest

abbrev pub start : Job → Job
start j = record j { status = running; attempts = j.attempts + 1 }

unfoldable pub claim : ℕ → List Job → List Job
claim id = update (λ j. has_id id j && is_pending j.status) start

-- int(math.Pow(2, attempts-1) * 5), at most 300; the float is exact for fewer than 1000 attempts.
unfoldable pub backoff_secs : ℕ → ℕ
backoff_secs zero = 2
backoff_secs (suc n) = let secs = 2 ^ n * 5 in if ltb 300 secs then 300 else secs

-- handleFailure of one row: the row that it reads is the row that it writes.
unfoldable pub fail : ℕ → JobError → Job → Job
fail now e j =
    if ltb j.attempts j.max_attempts
    then record j { status = pending; error = some e; scheduled_at = now + backoff_secs j.attempts }
    else record j { status = failed; error = some e }

unfoldable pub handle_failure : ℕ → ℕ → JobError → List Job → List Job
handle_failure now id e = update (has_id id) (fail now e)

-- The end of processPending, after the job has run.
unfoldable pub finish : ℕ → ℕ → Option JobError → List Job → List Job
finish now id none = update (has_id id) (with_status completed)
finish now id (some e) = handle_failure now id e

module _ {P : Type 0} (unmarshal : Bytes → Option P) (send_email http_request : P → Option Bytes)
    (query_of : P → Bytes) (run_query : Bytes → Option Bytes) where
  abbrev pub report : Option Bytes → Option JobError
  report none = none
  report (some msg) = some (reported msg)

  abbrev pub is_empty : Bytes → Bool
  is_empty [] = true
  is_empty (c ∷ s) = false

  -- executeRunSQL
  unfoldable pub execute_run_sql : P → Option JobError
  execute_run_sql params =
      let query = query_of params in
      if is_empty query
      then some query_required
      else if not (has_prefix (trim_space (to_upper query)) (codes "SELECT"))
      then some select_only
      else report (run_query query)

  abbrev pub dispatch_type : Bytes → P → Option JobError
  dispatch_type type params =
      if same type (codes "send_email")
      then report (send_email params)
      else if same type (codes "http_request")
      then report (http_request params)
      else if same type (codes "run_sql")
      then execute_run_sql params
      else if same type (codes "custom")
      then none
      else some (unknown_type type)

  unfoldable pub execute_job : Bytes → Bytes → Option JobError
  execute_job type payload = elim (unmarshal payload) [
    | none ↦ some invalid_payload
    | some params ↦ dispatch_type type params
  ]

-- processPending with the execution as a parameter.
abbrev pub process_found : (Bytes → Bytes → Option JobError) → ℕ → Option Job → List Job → List Job
process_found run now none jobs = jobs
process_found run now (some j) jobs = finish now j.id (run j.type j.payload) (claim j.id jobs)

unfoldable pub process_pending : (Bytes → Bytes → Option JobError) → ℕ → List Job → List Job
process_pending run now jobs = process_found run now (find_ready now jobs) jobs
