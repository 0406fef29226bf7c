-- ===== src/Brain/Loop.antt =====
-- The loop of the model and its tools: runToolLoop and executeToolCalls of brain/tool_loop.go.
--
-- A round is what the environment does in one iteration: the reply of the model (none where the call
-- failed on every provider), and, after the tools have run, whether one asked for a pause, whether all
-- items of the plan are built, and the text on those that remain. The results of the tools and the
-- anchors that they inject are functions of the call and the messages; a result is taken as
-- truncateToolResult leaves it. What is saved and published for the owner is left out.
pub mod Budget
pub mod Calls
pub mod Execute
pub mod Paired
pub mod Sequenced
use ho.Brain.Loop.Execute.{dash, Tools, execute_tool_calls}
use ho.Prelude.{ℕ, zero, suc, ◌+◌, ◌-◌, ◌*◌, ◌/◌, ◌%◌, ◌≤◌, ◌<◌, ◌≡◌, refl, sym, ap, ◌∙◌, subst}
use ho.Prelude.{◌≢◌, ◌↔◌, ◌⊎◌, inl, inr, Bool, true, false, not, ◌&&◌, ◌||◌, Option, none, some}
use ho.Prelude.{
  List, [], ◌∷◌, ◌++◌, map, arith, if◌then◌else◌, ltb, leb, ◌==◌, Bool-cases, Option-cases,
}
use ho.Prelude.{length, All, any, all, select, take, drop, length-append, any-append, All-append}
use ho.Prelude.{All-map, take-drop, length-drop, ==_iff, ==_refl, String, min, max}
use ho.Prelude.Bytes.{Bytes, codes, same}
use ho.Prelude.Dict.{bytes_eq, find}
use ho.Brain.Messages.{Message, Role, user, assistant, tool, ToolCall, prune_messages, is_nil}

pub record Reply : Type 0 where
  pub content : Bytes
  pub calls : List ToolCall
  pub cut_off : Bool  -- the stop reason is max_tokens
  pub tokens : ℕ  -- of the input and the output

pub record Round : Type 0 where
  pub reply : Option Reply
  pub pauses : Bool
  pub complete : Bool
  pub remaining : Bytes

-- The budget of the build, 0 for none, and the tokens of the stages before; without a tracker the budget
-- is none. The pages and endpoints of the plan, where the build is tracked.
pub record Setting : Type 0 where
  pub budget : ℕ
  pub prior : ℕ
  pub complexity : Option ℕ
  pub max_iterations : ℕ

pub record LoopState : Type 0 where
  pub messages : List Message
  pub tokens : ℕ
  pub tool_calls : ℕ
  pub continuations : ℕ
  pub wrap_up_sent : Bool
  pub nudge_sent : Bool
  pub post_completion : ℕ
  pub read_only : ℕ
  pub content : Bytes

-- Why the loop ends.
pub data Stop : Type 0 where
  call_failed budget_reached answered cut_off_too_often paused only_reading grace_over used_up :
      Stop

pub data Step : Type 0 where
  stop : Stop → LoopState → Step
  go : LoopState → Step

abbrev pub max_continuations : ℕ
max_continuations = 5

abbrev pub from_user : Bytes → Message
from_user text = record { role = user; content = text; calls = [] }

abbrev pub say : Message → LoopState → LoopState
say m st = record st { messages = st.messages ++ (m ∷ []) }

abbrev wrap_up : Message
wrap_up = from_user (
    codes
      "IMPORTANT: You are approaching the token budget limit. Focus on completing the most critical remaining items. Skip optional polish and move to the next unbuilt item immediately.")

abbrev continue_text : Bytes
continue_text =
    codes "Your response was cut off. Continue building from where you left off "
    ++ (dash ++ codes " call your next tool.")

abbrev pub is_tracked : Setting → Bool
is_tracked g = elim g.complexity [ none ↦ false | some n ↦ true ]

-- With the items that remain, if the build is tracked and there are any.
abbrev continue_with : Setting → Bytes → Bytes
continue_with g remaining =
    if is_tracked g && not (is_nil remaining)
    then continue_text ++ (10 ∷ 10 ∷ remaining)
    else continue_text

abbrev truncated_text : Bytes → Bytes
truncated_text name =
    codes "Your response was truncated while calling "
    ++ (name
        ++ (codes ". Continue from where you left off "
            ++ (dash ++ codes " call the tool again with complete arguments.")))

abbrev pub assistant_message : Reply → Message
assistant_message r = record { role = assistant; content = r.content; calls = r.calls }

-- The reply is counted in.
unfoldable pub count_reply : Reply → LoopState → LoopState
count_reply r st = record st { tokens = st.tokens + r.tokens; content = r.content }

abbrev pub over_budget : Setting → LoopState → Bool
over_budget g st = ltb 0 g.budget && leb g.budget (g.prior + st.tokens)

abbrev pub near_budget : Setting → LoopState → Bool
near_budget g st =
    ltb 0 g.budget && (not st.wrap_up_sent && leb (g.budget * 9 / 10) (g.prior + st.tokens))

unfoldable pub nudge_budget : Setting → LoopState → LoopState
nudge_budget g st = if near_budget g st then say wrap_up (record st { wrap_up_sent = true }) else st

-- A reply without calls: the answer, or a response that was cut off.
unfoldable pub without_calls : Setting → Round → Reply → LoopState → Step
without_calls g round r st =
    if not r.cut_off
    then stop answered st
    else if leb max_continuations (suc st.continuations)
    then stop cut_off_too_often (record st { continuations = suc st.continuations })
    else go (
        say (from_user (continue_with g round.remaining))
          (say (assistant_message r) (record st { continuations = suc st.continuations })))

abbrev parses : ToolCall → Bool
parses c = elim c.args [ none ↦ false | some args ↦ true ]

-- The calls but for a last one that was cut off.
abbrev pub whole_calls : List ToolCall → List ToolCall
whole_calls [] = []
whole_calls (c ∷ []) = if parses c then c ∷ [] else []
whole_calls (c ∷ d ∷ cs) = c ∷ whole_calls (d ∷ cs)

abbrev last_name : List ToolCall → Bytes
last_name [] = []
last_name (c ∷ []) = c.name
last_name (c ∷ d ∷ cs) = last_name (d ∷ cs)

abbrev pub kept_calls : Reply → List ToolCall
kept_calls r = if r.cut_off then whole_calls r.calls else r.calls

abbrev read_actions : List Bytes
read_actions = map codes ("get" ∷ "list" ∷ "describe" ∷ "search" ∷ "history" ∷ [])

abbrev or_nil : Option Bytes → Bytes
or_nil none = []
or_nil (some s) = s

abbrev writes_with : Option (List (Bytes × Bytes)) → Bool
writes_with none = false
writes_with (some args) =
    not (any (λ word. same (or_nil (find (codes "action") args)) word) read_actions)

abbrev pub has_writes : List ToolCall → Bool
has_writes cs = any (λ c. writes_with c.args) cs

abbrev pub grace_limit : ℕ
grace_limit = 2

-- A round of the window of grace, one of reading alone counted as such.
abbrev pub reviewed : List ToolCall → LoopState → LoopState
reviewed cs st = record st {
  post_completion = suc st.post_completion;
  read_only = if has_writes cs then 0 else suc st.read_only;
}

unfoldable pub end_grace : LoopState → Step
end_grace st =
    if leb 2 st.read_only
    then stop only_reading st
    else if ltb grace_limit st.post_completion
    then stop grace_over st
    else go st

-- Once the plan is built
abbrev pub grace : List ToolCall → LoopState → Step
grace cs st = end_grace (reviewed cs st)

abbrev pub nudges : Setting → ℕ → Round → LoopState → Bool
nudges g i round st =
    is_tracked g
    && (not st.nudge_sent && (leb (g.max_iterations * 3 / 4) i && not (is_nil round.remaining)))

unfoldable pub nudge_remaining : Setting → ℕ → Round → LoopState → LoopState
nudge_remaining g i round st =
    if nudges g i round st
    then say (from_user round.remaining) (record st { nudge_sent = true })
    else st

abbrev pub window_of : Option ℕ → ℕ
window_of none = 18
window_of (some n) = if ltb 10 n then 24 else if ltb 5 n then 21 else 18

unfoldable pub prune : Setting → LoopState → LoopState
prune g st =
    let window = window_of g.complexity in
    if ltb (window + 8) (length st.messages)
    then record st { messages = prune_messages window st.messages }
    else st

-- The end of an iteration that is not the last.
abbrev pub tidy : Setting → ℕ → Round → Step → Step
tidy g i round (stop why st) = stop why st
tidy g i round (go st) = go (prune g (nudge_remaining g i round st))

abbrev pub run_calls : Tools → Reply → List ToolCall → LoopState → LoopState
run_calls ts r cs st = record st {
  messages =
      execute_tool_calls ts cs
        (st.messages ++ (record { role = assistant; content = r.content; calls = cs } ∷ []));
  tool_calls = st.tool_calls + length cs;
}

-- A reply with calls, those that were not cut off.
unfoldable pub with_calls : Setting → Tools → ℕ → Round → Reply → List ToolCall → LoopState → Step
with_calls g ts i round r [] st = go (
    say (from_user (truncated_text (last_name r.calls))) (
      say (record { role = assistant; content = r.content; calls = [] })
        (record st { continuations = suc st.continuations })))
with_calls g ts i round r (c ∷ cs) st =
    let ran = run_calls ts r (c ∷ cs) st in
    if round.pauses
    then stop paused ran
    else tidy g i round (if is_tracked g && round.complete then grace (c ∷ cs) ran else go ran)

abbrev pub has_calls : Reply → Bool
has_calls r = ltb 0 (length r.calls)

abbrev pub answer_reply : Setting → Tools → ℕ → Round → Reply → LoopState → Step
answer_reply g ts i round r st =
    if has_calls r then with_calls g ts i round r (kept_calls r) st else without_calls g round r st

-- One iteration.
unfoldable pub step : Setting → Tools → ℕ → Round → Option Reply → LoopState → Step
step g ts i round none st = stop call_failed (record st { content = [] })
step g ts i round (some r) st =
    let counted = count_reply r st in
    if over_budget g counted
    then stop budget_reached counted
    else answer_reply g ts i round r (nudge_budget g counted)

abbrev pub next_step : (ℕ → LoopState → Stop × LoopState) → ℕ → Step → Stop × LoopState
next_step rest i (stop why st) = (why, st)
next_step rest i (go st) = rest (suc i) st

-- The loop from iteration `i` on, with `left` iterations left of the maximum.
unfoldable pub run_tool_loop : Setting → Tools → (ℕ → Round) → ℕ → ℕ → LoopState → Stop × LoopState
run_tool_loop g ts rounds zero i st = (used_up, st)
run_tool_loop g ts rounds (suc left) i st =
    next_step (run_tool_loop g ts rounds left) i (step g ts i (rounds i) ((rounds i).reply) st)
