-- ===== src/Brain/Pipeline/Build/Failures.antt =====
-- brain/pipeline.go, runBuildPipeline: how many failures of its stages a build goes on after.
use ho.Prelude.{
  ℕ, ◌+◌, ◌-◌, ◌*◌, ◌≤◌, ◌≡◌, ap, Bool, true, false, List, [], ◌∷◌, min, if◌then◌else◌, arith,
}
use ho.Prelude.Bytes.{Bytes}
use ho.Brain.Pipeline.{Stage, monitoring, other}
use ho.Brain.Pipeline.Build.{
  Outcome, advanced, failed, StageRun, Loop, Round, again, done, is_validate, round, rounds,
  dispatch, after_handler, validate_failed, stage_failed, count_failure,
}

-- The failures in a row that the loop goes on after: two of a stage; of the validation, up to two and then
-- those of the last stage.
abbrev pub tolerated : Loop → ℕ
tolerated l = if is_validate l.stage then 4 - min l.retries 1 else 2 - l.retries

-- A run whose handler fails, and one that moves the build to another stage.
abbrev pub fails : Outcome → ℕ
fails (advanced next) = 0
fails (failed msg) = 1

abbrev pub moves : Bool → Outcome → ℕ
moves written (advanced next) = if written then 1 else 0
moves written (failed msg) = 0

abbrev pub failures : List StageRun → ℕ
failures [] = 0
failures (r ∷ rs) = fails r.outcome + failures rs

abbrev pub advances : List StageRun → ℕ
advances [] = 0
advances (r ∷ rs) = moves r.advance_written r.outcome + advances rs

-- A round that goes on uses up what is tolerated, or moves the build on.
abbrev Spends : ℕ → ℕ → Loop → Round → Type 0
Spends failed_now moved l (again l') = failed_now + tolerated l' ≤ tolerated l + 4 * moved
Spends failed_now moved l (done exit row) = Unit

validate_failed-Spends :
    (r : StageRun) (msg : Bytes) (l : Loop)
    → is_validate l.stage ≡ true
    → Spends 1 0 l (validate_failed r msg l)
unfolding validate_failed
validate_failed-Spends r msg l v = ground arith

count_failure-Spends :
    (r : StageRun) (msg : Bytes) (l : Loop)
    → is_validate l.stage ≡ false
    → Spends 1 0 l (count_failure r msg l)
unfolding count_failure
count_failure-Spends r msg l v = ground arith

after_handler-Spends :
    (r : StageRun) (o : Outcome) (l : Loop)
    → Spends (fails o) (moves r.advance_written o) l (after_handler r o l)
unfolding after_handler stage_failed
after_handler-Spends r (advanced next) l = ground arith
after_handler-Spends r (failed msg) l =
    ground (arith, validate_failed-Spends r msg l, count_failure-Spends r msg l)

dispatch-Spends :
    (s : Stage) (r : StageRun) (l : Loop)
    → Spends (fails r.outcome) (moves r.advance_written r.outcome) l (dispatch s r l)
unfolding dispatch
dispatch-Spends monitoring r l = tt
dispatch-Spends (other name) r l = tt
dispatch-Spends _ r l = after_handler-Spends r r.outcome l

round-Spends :
    (r : StageRun) (l : Loop)
    → Spends (fails r.outcome) (moves r.advance_written r.outcome) l (round r l)
unfolding round
round-Spends r l = ground (arith, dispatch-Spends l.stage r l)

abbrev tolerated_in : Round → ℕ
tolerated_in (again l) = tolerated l
tolerated_in (done exit row) = 0

-- While the build goes on, its stages have failed at most as often as the loop's state tolerates, and four
-- times more for each move to another stage: twice for the stages but validation, which may fail twice
-- itself and then lets the last stage fail twice. Cancels, pauses and failed writes may fall anywhere.
pub rounds-failures :
    (rs : List StageRun) (l l' : Loop)
    → rounds rs l ≡ again l'
    → failures rs + tolerated l' ≤ tolerated l + 4 * advances rs
unfolding rounds
rounds-failures [] l l' h = omega (arith, ap tolerated_in h)
rounds-failures (r ∷ rs) l l' h =
    go (fails r.outcome) (moves r.advance_written r.outcome) (rounds-failures rs) (round r l)
      (round-Spends r l) h
  where
    go :
        (failed_now moved : ℕ)
        → ((k k' : Loop)
            → rounds rs k ≡ again k'
            → failures rs + tolerated k' ≤ tolerated k + 4 * advances rs)
        → (n : Round) → Spends failed_now moved l n
        → elim n [ again k ↦ rounds rs k | done exit row ↦ done exit row ] ≡ again l'
        → (failed_now + failures rs) + tolerated l' ≤ tolerated l + 4 * (moved + advances rs)
    go failed_now moved later (again k) w e = omega (arith, w, later k l' e)
    go failed_now moved later (done exit row) w e = cc
