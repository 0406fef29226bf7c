-- ===== src/Examples/Loop.antt =====
-- A run of the loop of the model and its tools: brain/tool_loop.go.
use ho.Brain.Loop.{
  from_user, Reply, Round, Setting, LoopState, budget_reached, run_tool_loop, step, count_reply,
  nudge_budget, with_calls, nudge_remaining, prune,
}
use ho.Brain.Loop.Execute.{Tools, outcome_of, execute_tool_calls}
use ho.Brain.Loop.Calls.{
  Attempt, is_connection, is_timeout, is_rate_limit, backoff, attempts, call_with_retry,
}
use ho.Brain.Loop.Calls.First.{IsSteady, first_answer, one_of, call_with_retry-first_answer}
use ho.Prelude.Result.{err, ok}
use ho.Brain.Loop.Sequenced.{Sound, Sequenced}
use ho.Brain.Loop.Paired.{calls_of, run_tool_loop-Sound}
use ho.Brain.Loop.Budget.{Counted, rounds_run, run_tool_loop-tokens}
use ho.Brain.Messages.{ToolCall}
use ho.Prelude.{ℕ, ◌≡◌, refl}
use ho.Prelude.{true, false, some, none, [], ◌∷◌, arith}
use ho.Prelude.Bytes.{codes}

abbrev set_up : ToolCall
set_up = record { name = codes "manage_schema"; args = some [] }

abbrev calling : Reply
calling = record { content = []; calls = set_up ∷ []; cut_off = false; tokens = 40 }

abbrev round_of : Reply → Round
round_of r = record { reply = some r; pauses = false; complete = false; remaining = [] }

abbrev limited : Setting
limited = record { budget = 100; prior = 10; complexity = none; max_iterations = 20 }

abbrev tools : Tools
tools = record {
  allowed = λ name. true;
  known = λ name. true;
  parse_error = λ c. none;
  run_call = λ c. record { result = codes "ok"; succeeds = true };
  anchors_of = λ c ms. from_user (codes "[ANCHOR] schema") ∷ [];
}

abbrev fresh : LoopState
fresh = record {
  messages = [];
  tokens = 0;
  tool_calls = 0;
  continuations = 0;
  wrap_up_sent = false;
  nudge_sent = false;
  post_completion = 0;
  read_only = 0;
  content = [];
}

run_tool_loop-tokens_example :
    Counted limited
      (λ i. round_of calling)
      40
      (rounds_run limited tools (λ i. round_of calling) 20 0 fresh)
      0
      0
      (run_tool_loop limited tools (λ i. round_of calling) 20 0 fresh).1
run_tool_loop-tokens_example =
    run_tool_loop-tokens limited tools (λ i. round_of calling) 40 20 0 fresh (omega arith)
      (λ j. omega arith) (omega arith)

abbrev started : LoopState
started = record fresh { messages = from_user (codes "Build it") ∷ [] }

anchored : (j : ℕ) → Sequenced tools (calls_of (round_of calling).reply)
unfolding outcome_of
anchored j = λ ms. (refl, tt)

run_tool_loop-Sound_example :
    Sound (run_tool_loop limited tools (λ i. round_of calling) 20 0 started).1.messages
run_tool_loop-Sound_example =
    run_tool_loop-Sound limited tools (λ i. round_of calling) 20 0 started anchored
      ((refl, refl, refl), (refl, tt))

-- The third reply reaches the budget; the two calls before it have run.
spent : (run_tool_loop limited tools (λ i. round_of calling) 20 0 fresh).0 ≡ budget_reached
unfolding run_tool_loop step count_reply nudge_budget with_calls outcome_of execute_tool_calls
    nudge_remaining prune
spent = refl

called : (run_tool_loop limited tools (λ i. round_of calling) 20 0 fresh).1.tool_calls ≡ 2
unfolding run_tool_loop step count_reply nudge_budget with_calls outcome_of execute_tool_calls
    nudge_remaining prune
called = refl

-- A provider that fails, and one that answers.
abbrev failing : ℕ → Attempt
failing k = record { answer = err (codes "API error 529"); cancelled = false; interrupted = none }

abbrev answering : ℕ → Attempt
answering k = record { answer = ok calling; cancelled = false; interrupted = none }

failing-IsSteady : IsSteady failing
unfolding is_connection is_timeout
failing-IsSteady k = (refl, refl, refl)

answering-IsSteady : IsSteady answering
answering-IsSteady k = (refl, refl, tt)

call_with_retry-first_answer_example :
    (call_with_retry failing false (some answering)).result
    ≡ one_of (first_answer failing) (first_answer answering)
call_with_retry-first_answer_example =
    call_with_retry-first_answer failing answering failing-IsSteady answering-IsSteady

-- Two providers that are overloaded take the longest.
slowest : (call_with_retry failing false (some failing)).waited ≡ 180
unfolding call_with_retry attempts backoff is_rate_limit is_connection is_timeout
slowest = refl
