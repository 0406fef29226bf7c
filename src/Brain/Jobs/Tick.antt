-- ===== src/Brain/Jobs/Tick.antt =====
-- brain/jobs.go: what a tick does to each row.
use ho.Prelude.{
  ℕ, ◌≡◌, refl, ap, ◌∙◌, Bool, true, false, ◌&&◌, List, [], ◌∷◌, ◌++◌, Option, none, some, All,
  All-map, leb, arith,
}
use ho.Prelude.Bytes.{Bytes}
use ho.Brain.Jobs.{
  completed, JobError, Job, is_pending, update, find_ready, has_id, with_status, start, claim, fail,
  handle_failure, finish, process_found, process_pending,
}

abbrev pub is_ready : ℕ → Job → Bool
is_ready now j = is_pending j.status && leb j.scheduled_at now

-- The row of a job after its run.
abbrev pub settle : ℕ → Option JobError → Job → Job
settle now none j = with_status completed j
settle now (some e) j = fail now e j

abbrev Untouched : ℕ → List Job → Type 0
Untouched id = All (λ x. has_id id x ≡ false)

find_ready-first :
    (now : ℕ) (front : List Job) (j : Job) (back : List Job)
    → All (λ x. is_ready now x ≡ false) front
    → is_ready now j ≡ true
    → find_ready now (front ++ (j ∷ back)) ≡ some j
unfolding find_ready
find_ready-first now [] j back none_ready h = rw h refl
find_ready-first now (x ∷ front) j back (e, none_ready) h =
    rw e (find_ready-first now front j back none_ready h)

update-absent :
    (p : Job → Bool) (f : Job → Job) (jobs : List Job)
    → All (λ x. p x ≡ false) jobs
    → update p f jobs ≡ jobs
update-absent p f [] h = refl
update-absent p f (x ∷ jobs) (e, h) = rw (e, update-absent p f jobs h)

update-one :
    (p : Job → Bool) (f : Job → Job) (front : List Job) (j : Job) (back : List Job)
    → All (λ x. p x ≡ false) front
    → p j ≡ true
    → All (λ x. p x ≡ false) back
    → update p f (front ++ (j ∷ back)) ≡ front ++ (f j ∷ back)
update-one p f [] j back a h b = rw (h, update-absent p f back b)
update-one p f (x ∷ front) j back (e, a) h b = rw (e, update-one p f front j back a h b)

finish-one :
    (now : ℕ) (r : Option JobError) (front : List Job) (j : Job) (back : List Job)
    → Untouched j.id front
    → Untouched j.id back
    → finish now j.id r (front ++ (start j ∷ back)) ≡ front ++ (settle now r (start j) ∷ back)
unfolding finish handle_failure
finish-one now none front j back a b =
    update-one (has_id j.id) (with_status completed) front (start j) back a (ground arith) b
finish-one now (some e) front j back a b =
    update-one (has_id j.id) (fail now e) front (start j) back a (ground arith) b

-- A tick runs the first job that is pending and due: its attempts go up by one and its row is settled by what the run answers, and no other row changes. The ids of the rows are distinct.
pub process_pending-first :
    (run : Bytes → Bytes → Option JobError) (now : ℕ) (front : List Job) (j : Job) (back : List Job)
    → All (λ x. is_ready now x ≡ false) front
    → is_ready now j ≡ true
    → All (λ x. has_id j.id x ≡ false) front
    → All (λ x. has_id j.id x ≡ false) back
    → process_pending run now (front ++ (j ∷ back))
      ≡ front ++ (settle now (run j.type j.payload) (start j) ∷ back)
unfolding process_pending claim
process_pending-first run now front j back idle ready a b =
    let found = find_ready-first now front j back idle ready in
    let claimed =
      update-one (λ x. has_id j.id x && is_pending x.status) start front j back
        (All-map (λ x e. ground (arith, e)) front a) (ground (arith, ready))
        (All-map (λ x e. ground (arith, e)) back b) in
    ap (λ r. process_found run now r (front ++ (j ∷ back))) found
    ∙ (ap (finish now j.id (run j.type j.payload)) claimed
        ∙ finish-one now (run j.type j.payload) front j back a b)
