-- ===== src/Tools/Approval.antt =====
-- The owner's approval of an action: tools/approval.go, on the tables of questions and answers, the
-- pipeline's row and the log.
--
-- Of two answers with one creation time the database may give either as the latest; here it is the first.
pub mod Pending
use ho.Prelude.{ℕ, zero, suc, ◌+◌, ◌-◌, ◌*◌, ◌/◌, ◌%◌, ◌≤◌, ◌<◌, ◌≡◌, refl, sym, ap, ◌∙◌, subst}
use ho.Prelude.{◌≢◌, ◌↔◌, ◌⊎◌, inl, inr, Bool, true, false, not, ◌&&◌, ◌||◌, Option, none, some}
use ho.Prelude.{
  List, [], ◌∷◌, ◌++◌, map, arith, if◌then◌else◌, ltb, leb, ◌==◌, Bool-cases, Option-cases,
}
use ho.Prelude.{length, All, any, all, select, take, drop, length-append, any-append, All-append}
use ho.Prelude.{All-map, take-drop, length-drop, ==_iff, ==_refl, String, min, max}
use ho.Prelude.Bytes.{Bytes, codes, same, has_prefix, trim_space, to_lower}
use ho.Brain.Pipeline.{Row, approval, pause}

pub record Question : Type 0 where
  pub id : ℕ
  pub text : Bytes
  pub context : Bytes
  pub pending : Bool

pub record Answer : Type 0 where
  pub question : ℕ
  pub text : Bytes
  pub created_at : ℕ

-- The parts of the summary of a destructive action.
pub record Destructive : Type 0 where
  pub tool : Bytes
  pub action : Bytes
  pub target : Bytes

pub record State : Type 0 where
  pub questions : List Question
  pub answers : List Answer
  pub next_id : ℕ
  pub row : Row
  pub log : List Destructive

-- Which of the database's calls succeed, and whether there is a bus.
pub record Env : Type 0 where
  pub reads : Bool
  pub looks_up : Bool
  pub inserts : Bool
  pub pauses : Bool
  pub has_bus : Bool

-- approvalKeyPrefix + actionKey
abbrev pub key_of : Bytes → Bytes
key_of action = codes "approval:" ++ action

abbrev is_about : Bytes → List Question → Answer → Bool
is_about key qs a = any (λ q. q.id == a.question && same q.context key) qs

-- ORDER BY created_at DESC LIMIT 1, after the answers that are tried already
abbrev newest : Option Answer → List Answer → Option Answer
newest best [] = best
newest none (a ∷ rest) = newest (some a) rest
newest (some b) (a ∷ rest) = newest (if ltb b.created_at a.created_at then some a else some b) rest

abbrev answer_text : Option Answer → Option Bytes
answer_text none = none
answer_text (some a) = some (a.text)

-- The answer that was given last to a question on the key.
unfoldable pub latest_answer : Bytes → State → Option Bytes
latest_answer key s = answer_text (newest none (select (is_about key s.questions) s.answers))

abbrev pub normalized : Bytes → Bytes
normalized answer = to_lower (trim_space answer)

abbrev pub one_of : List Bytes → Bytes → Bool
one_of words lower = any (λ w. same lower w) words

abbrev pub approves : Bytes → Bool
approves lower =
    one_of (codes "approve" ∷ codes "yes" ∷ codes "approved" ∷ []) lower
    || (has_prefix lower (codes "yes") || has_prefix lower (codes "approve"))

abbrev pub denials : List Bytes
denials =
    codes "deny"
    ∷ codes "no"
    ∷ codes "denied"
    ∷ codes "reject"
    ∷ codes "rejected"
    ∷ codes "cancel"
    ∷ []

abbrev pub denies : Bytes → Bool
denies lower = one_of denials lower

abbrev pub answered : (Bytes → Bool) → Option Bytes → Bool
answered test none = false
answered test (some answer) = test (normalized answer)

unfoldable pub check_approval : Env → Bytes → State → Bool
check_approval env action s = env.reads && answered approves (latest_answer (key_of action) s)

unfoldable pub is_approval_denied : Env → Bytes → State → Bool
is_approval_denied env action s = env.reads && answered denies (latest_answer (key_of action) s)

abbrev pub is_pending : Bytes → Question → Bool
is_pending key q = q.pending && same q.context key

-- What RequestApproval returns.
pub data Verdict : Type 0 where
  action_denied pause_failed approval_required : Verdict

pub record Request : Type 0 where
  pub verdict : Verdict
  pub state : State
  pub asked : List ℕ  -- the ids of the question.asked events

abbrev pub insert_question : Bytes → Bytes → State → State
insert_question question key s = record s {
  questions =
      s.questions
      ++ (record { id = s.next_id; text = question; context = key; pending = true } ∷ []);
  next_id = suc s.next_id;
}

-- Whether the code comes to insert a question, and does.
abbrev pub asks : Env → Bytes → State → Bool
asks env key s = env.looks_up && (not (any (is_pending key) s.questions) && env.inserts)

abbrev pub ask : Env → Bytes → Bytes → State → State
ask env question key s = if asks env key s then insert_question question key s else s

abbrev pub pause_state : State → State
pause_state s = record s { row = pause approval s.row }

abbrev pub after_question : Env → List ℕ → State → Request
after_question env published s =
    if env.pauses
    then record { verdict = approval_required; state = pause_state s; asked = published }
    else record { verdict = pause_failed; state = s; asked = published }

unfoldable pub request_approval : Env → Bytes → Bytes → State → Request
request_approval env action question s =
    if is_approval_denied env action s
    then record { verdict = action_denied; state = s; asked = [] }
    else after_question env
        (if env.has_bus && asks env (key_of action) s then s.next_id ∷ [] else [])
        (ask env question (key_of action) s)

-- The audit trail of an action that needs no approval.
unfoldable pub log_destructive_action : Bytes → Bytes → Bytes → State → State
log_destructive_action tool action target s = record s {
  log = s.log ++ (record { tool = tool; action = action; target = target } ∷ []);
}
