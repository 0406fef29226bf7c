-- ===== src/Brain/Loop/Budget.antt =====
-- How many tokens a loop of the model may spend (brain/tool_loop.go).
use ho.Brain.Loop.{
  Reply, Round, Setting, LoopState, Step, stop, go, count_reply, over_budget, nudge_budget,
  without_calls, kept_calls, grace, reviewed, end_grace, grace_limit, nudge_remaining, prune, tidy,
  run_calls, with_calls, answer_reply, has_calls, step, next_step, run_tool_loop, max_continuations,
  near_budget, nudges, window_of, is_tracked,
}
use ho.Brain.Loop.Execute.{Tools}
use ho.Brain.Messages.{ToolCall}
use ho.Prelude.{subst, ℕ, zero, suc, ◌+◌, ◌≤◌, ◌<◌, ◌≡◌, refl, ap, ◌∙◌}
use ho.Prelude.{inl, inr, ◌&&◌, Option, none, some}
use ho.Prelude.{List, [], ◌∷◌, arith, ltb, leb, Bool-cases}
use ho.Prelude.{length}

abbrev pub state_of : Step → LoopState
state_of (stop why st) = st
state_of (go st) = st

nudge_budget-tokens : (g : Setting) (st : LoopState) → (nudge_budget g st).tokens ≡ st.tokens
unfolding nudge_budget
nudge_budget-tokens g st = elim (Bool-cases (near_budget g st)) [
  | inl e ↦ rw e refl
  | inr e ↦ rw e refl
]

without_calls-tokens :
    (g : Setting) (round : Round) (r : Reply) (st : LoopState)
    → (state_of (without_calls g round r st)).tokens ≡ st.tokens
unfolding without_calls
without_calls-tokens g round r st = elim (Bool-cases r.cut_off) [
  | inr e ↦ rw e refl
  | inl e ↦ elim (Bool-cases (leb max_continuations (suc st.continuations))) [
    | inl f ↦ rw (e, f) refl
    | inr f ↦ rw (e, f) refl
  ]
]

pub end_grace-state_of : (st : LoopState) → state_of (end_grace st) ≡ st
unfolding end_grace
end_grace-state_of st = elim (Bool-cases (leb 2 st.read_only)) [
  | inl e ↦ rw e refl
  | inr e ↦ elim (Bool-cases (ltb grace_limit st.post_completion)) [
    | inl f ↦ rw (e, f) refl
    | inr f ↦ rw (e, f) refl
  ]
]

nudge_remaining-tokens :
    (g : Setting) (i : ℕ) (round : Round) (st : LoopState)
    → (nudge_remaining g i round st).tokens ≡ st.tokens
unfolding nudge_remaining
nudge_remaining-tokens g i round st = elim (Bool-cases (nudges g i round st)) [
  | inl e ↦ rw e refl
  | inr e ↦ rw e refl
]

prune-tokens : (g : Setting) (st : LoopState) → (prune g st).tokens ≡ st.tokens
unfolding prune
prune-tokens g st = elim (Bool-cases (ltb (window_of g.complexity + 8) (length st.messages))) [
  | inl e ↦ rw e refl
  | inr e ↦ rw e refl
]

tidy-tokens :
    (g : Setting) (i : ℕ) (round : Round) (s : Step)
    → (state_of (tidy g i round s)).tokens ≡ (state_of s).tokens
tidy-tokens g i round (stop why st) = refl
tidy-tokens g i round (go st) =
    prune-tokens g (nudge_remaining g i round st) ∙ nudge_remaining-tokens g i round st

with_calls-tokens :
    (g : Setting) (ts : Tools) (i : ℕ) (round : Round) (r : Reply) (cs : List ToolCall)
    (st : LoopState)
    → (state_of (with_calls g ts i round r cs st)).tokens ≡ st.tokens
unfolding with_calls nudge_remaining
with_calls-tokens g ts i round r [] st = refl
with_calls-tokens g ts i round r (c ∷ cs) st =
    let ran = run_calls ts r (c ∷ cs) st in
    elim (Bool-cases round.pauses) [
      | inl e ↦ rw e refl
      | inr e ↦ elim (Bool-cases (is_tracked g && round.complete)) [
        | inl f ↦
            rw (e, f)
              (tidy-tokens g i round (grace (c ∷ cs) ran)
                ∙ ap (λ s. s.tokens) (end_grace-state_of (reviewed (c ∷ cs) ran)))
        | inr f ↦ rw (e, f) (tidy-tokens g i round (go ran))
      ]
    ]

answer_reply-tokens :
    (g : Setting) (ts : Tools) (i : ℕ) (round : Round) (r : Reply) (st : LoopState)
    → (state_of (answer_reply g ts i round r st)).tokens ≡ st.tokens
answer_reply-tokens g ts i round r st = elim (Bool-cases (has_calls r)) [
  | inl e ↦ rw e (with_calls-tokens g ts i round r (kept_calls r) st)
  | inr e ↦ rw e (without_calls-tokens g round r st)
]

-- The tokens of a reply, none where the call failed.
abbrev pub reply_tokens : Option Reply → ℕ
reply_tokens none = 0
reply_tokens (some r) = r.tokens

-- A loop that goes on is within the budget; one that ends has spent the last reply's tokens at most
-- beyond it.
abbrev Within : Setting → ℕ → Step → Type 0
Within g more (stop why st) = g.prior + st.tokens < g.budget + more
Within g more (go st) = g.prior + st.tokens < g.budget

from_tokens :
    (g : Setting) (more : ℕ) (s : Step) → g.prior + (state_of s).tokens < g.budget → Within g more s
from_tokens g more (stop why st) h = omega arith
from_tokens g more (go st) h = h

step-Within :
    (g : Setting) (ts : Tools) (i : ℕ) (round : Round) (o : Option Reply) (st : LoopState)
    → 0 < g.budget
    → g.prior + st.tokens < g.budget
    → Within g (reply_tokens o) (step g ts i round o st)
unfolding step count_reply
step-Within g ts i round none st b h = omega arith
step-Within g ts i round (some r) st b h =
    let counted = count_reply r st in
    elim (Bool-cases (over_budget g counted)) [
      | inl e ↦ rw e (omega arith)
      | inr e ↦
          let room : g.prior + (st.tokens + r.tokens) < g.budget = ground arith in
          rw e (
            from_tokens g r.tokens (answer_reply g ts i round r (nudge_budget g counted)) (
              omega (
                arith,
                answer_reply-tokens g ts i round r (nudge_budget g counted),
                nudge_budget-tokens g counted,
                room,
              )))
    ]

-- A step counts the reply's tokens in.
step-tokens :
    (g : Setting) (ts : Tools) (i : ℕ) (round : Round) (o : Option Reply) (st : LoopState)
    → (state_of (step g ts i round o st)).tokens ≡ st.tokens + reply_tokens o
unfolding step count_reply
step-tokens g ts i round none st = omega arith
step-tokens g ts i round (some r) st =
    let counted = count_reply r st in
    elim (Bool-cases (over_budget g counted)) [
      | inl e ↦ rw e refl
      | inr e ↦ rw e (
          answer_reply-tokens g ts i round r (nudge_budget g counted)
          ∙ nudge_budget-tokens g counted)
    ]

-- The tokens of `n` rounds from the `i`-th on.
abbrev pub spent : (ℕ → Round) → ℕ → ℕ → ℕ
spent rounds i zero = 0
spent rounds i (suc n) = reply_tokens (rounds i).reply + spent rounds (suc i) n

-- The tokens of the rounds before the last.
abbrev pub before_last : (ℕ → Round) → ℕ → ℕ → ℕ
before_last rounds i zero = 0
before_last rounds i (suc n) = spent rounds i n

abbrev pub next_count : (ℕ → LoopState → ℕ) → ℕ → Step → ℕ
next_count rest i (stop why st) = 1
next_count rest i (go st) = suc (rest (suc i) st)

-- The number of rounds that the loop begins.
unfoldable pub rounds_run : Setting → Tools → (ℕ → Round) → ℕ → ℕ → LoopState → ℕ
rounds_run g ts rounds zero i st = 0
rounds_run g ts rounds (suc left) i st =
    next_count (rounds_run g ts rounds left) i (step g ts i (rounds i) ((rounds i).reply) st)

-- What a loop that started with `before` tokens at the `i`-th round has counted after `n` rounds: the
-- tokens of all of them, which are below the budget before the last.
abbrev pub Counted : Setting → (ℕ → Round) → ℕ → ℕ → ℕ → ℕ → LoopState → Type 0
Counted g rounds k n i before out =
    (out.tokens ≡ before + spent rounds i n)
    × (g.prior + (before + before_last rounds i n) < g.budget)
    × (g.prior + out.tokens < g.budget + k)

more-Counted :
    (g : Setting) (rounds : ℕ → Round) (k n i before : ℕ) (out : LoopState)
    → g.prior + before < g.budget
    → Counted g rounds k n (suc i) (before + reply_tokens (rounds i).reply) out
    → Counted g rounds k (suc n) i before out
more-Counted g rounds k zero i before out h (e, w, b) = (omega (arith, e), omega (arith, h), b)
more-Counted g rounds k (suc n) i before out h (e, w, b) = (omega (arith, e), omega (arith, w), b)

next_step-Counted :
    (g : Setting) (ts : Tools) (rounds : ℕ → Round) (k left i before : ℕ) (s : Step)
    → g.prior + before < g.budget
    → (state_of s).tokens ≡ before + reply_tokens (rounds i).reply
    → Within g k s
    → ((st : LoopState)
        → g.prior + st.tokens < g.budget
        → Counted g rounds k
            (rounds_run g ts rounds left (suc i) st)
            (suc i)
            st.tokens
            (run_tool_loop g ts rounds left (suc i) st).1)
    → Counted g rounds k
        (next_count (rounds_run g ts rounds left) i s)
        i
        before
        (next_step (run_tool_loop g ts rounds left) i s).1
next_step-Counted g ts rounds k left i before (stop why st) h e w rest =
    (omega (arith, e), omega (arith, h), w)
next_step-Counted g ts rounds k left i before (go st) h e w rest =
    let n = rounds_run g ts rounds left (suc i) st in
    let out = (run_tool_loop g ts rounds left (suc i) st).1 in
    more-Counted g rounds k n i before out h
      (subst (λ t. Counted g rounds k n (suc i) t out) e (rest st w))

weaker : (g : Setting) (m k : ℕ) (s : Step) → m ≤ k → Within g m s → Within g k s
weaker g m k (stop why st) l w = omega arith
weaker g m k (go st) l w = w

-- With a budget, and no reply of more than `k` tokens, a loop that starts within the budget ends with the
-- tokens of the replies of all the rounds that it began counted. Together with those of the stages before,
-- they are below the budget before the last round, and less than the budget and `k` tokens after it.
pub run_tool_loop-tokens :
    (g : Setting) (ts : Tools) (rounds : ℕ → Round) (k left i : ℕ) (st : LoopState)
    → 0 < g.budget
    → ((j : ℕ) → reply_tokens (rounds j).reply ≤ k)
    → g.prior + st.tokens < g.budget
    → Counted g rounds k
        (rounds_run g ts rounds left i st)
        i
        st.tokens
        (run_tool_loop g ts rounds left i st).1
unfolding run_tool_loop rounds_run
run_tool_loop-tokens g ts rounds k zero i st b small h =
    (omega arith, omega (arith, h), omega (arith, h))
run_tool_loop-tokens g ts rounds k (suc left) i st b small h =
    let o = (rounds i).reply in
    next_step-Counted g ts rounds k left i st.tokens (step g ts i (rounds i) o st) h
      (step-tokens g ts i (rounds i) o st)
      (weaker g (reply_tokens o) k (step g ts i (rounds i) o st) (small i)
        (step-Within g ts i (rounds i) o st b h))
      (λ next w. run_tool_loop-tokens g ts rounds k left (suc i) next b small w)
