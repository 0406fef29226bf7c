-- ===== src/Brain/Loop/Paired.antt =====
-- The conversation that the loop of the model keeps (brain/tool_loop.go): calls and their results.
use ho.Brain.Loop.{
  Reply, Round, Setting, LoopState, Stop, Step, stop, go, from_user, count_reply, over_budget,
  nudge_budget, without_calls, kept_calls, grace, reviewed, nudge_remaining, prune, tidy, run_calls,
  with_calls, answer_reply, has_calls, step, next_step, run_tool_loop, max_continuations,
  near_budget, nudges, window_of, is_tracked,
}
use ho.Brain.Loop.Execute.{Tools}
use ho.Brain.Loop.Budget.{state_of, end_grace-state_of}
use ho.Brain.Messages.{
  Message, ToolCall, assistant, clean, compact, prune_messages, has_later_context, is_kept,
  is_page_context,
}
use ho.Brain.Messages.Paired.{Opens, prune_messages-Paired, clear_contexts-cons}
use ho.Prelude.{ℕ, zero, suc, ◌+◌, ◌≡◌, refl, sym, subst}
use ho.Prelude.{inl, inr, true, false, ◌&&◌, Option, none, some}
use ho.Prelude.{List, [], ◌∷◌, ◌++◌, arith, ltb, leb, Bool-cases}
use ho.Prelude.{length, any}
use ho.Prelude.Bytes.{Bytes}
use ho.Brain.Loop.Sequenced.{
  Sound, Sound-append, Awaits-calls, Sequenced, execute_tool_calls-Sound, kept_calls-Sequenced,
}

say-Sound : (text : Bytes) (ms : List Message) → Sound ms → Sound (ms ++ (from_user text ∷ []))
say-Sound text ms s = Sound-append ms (from_user text ∷ []) s (refl, tt)

answer-Sound :
    (ms : List Message) (content : Bytes)
    → Sound ms
    → Sound (ms ++ (record { role = assistant; content = content; calls = [] } ∷ []))
answer-Sound ms content s =
    Sound-append ms (record { role = assistant; content = content; calls = [] } ∷ []) s (refl, tt)

nudge_budget-Sound :
    (g : Setting) (st : LoopState) → Sound st.messages → Sound (nudge_budget g st).messages
unfolding nudge_budget
nudge_budget-Sound g st s = elim (Bool-cases (near_budget g st)) [
  | inl e ↦ rw e (say-Sound _ st.messages s)
  | inr e ↦ rw e s
]

nudge_remaining-Sound :
    (g : Setting) (i : ℕ) (round : Round) (st : LoopState)
    → Sound st.messages
    → Sound (nudge_remaining g i round st).messages
unfolding nudge_remaining
nudge_remaining-Sound g i round st s = elim (Bool-cases (nudges g i round st)) [
  | inl e ↦ rw e (say-Sound round.remaining st.messages s)
  | inr e ↦ rw e s
]

clean-Opens : (ms : List Message) → Opens ms → Opens (clean ms)
unfolding clean
clean-Opens [] o = absurd o
clean-Opens (m ∷ ms) o =
    let kept : is_kept m ≡ true = rw o.2 refl in
    let head = clear_contexts-cons m ms o.1 in
    elim (Bool-cases (any is_page_context ms)) [
      | inl e ↦ rw (head, e, kept) o
      | inr e ↦ rw (head, e) o
    ]

compact-Opens : (max_recent : ℕ) (ms : List Message) → Opens ms → Opens (compact max_recent ms)
unfolding compact
compact-Opens max_recent [] o = absurd o
compact-Opens max_recent (m ∷ ms) o = o

prune_messages-Opens :
    (max_recent : ℕ) (ms : List Message) → Opens ms → Opens (prune_messages max_recent ms)
unfolding prune_messages
prune_messages-Opens max_recent ms o = elim (Bool-cases (leb (length ms) (max_recent + 1))) [
  | inl e ↦ rw e o
  | inr e ↦ elim (Bool-cases (has_later_context ms && leb (length (clean ms)) (max_recent + 1))) [
    | inl f ↦ rw (e, f) (clean-Opens ms o)
    | inr f ↦ rw (e, f) (compact-Opens max_recent (clean ms) (clean-Opens ms o))
  ]
]

prune-Sound : (g : Setting) (st : LoopState) → Sound st.messages → Sound (prune g st).messages
unfolding prune
prune-Sound g st s =
    let window = window_of g.complexity in
    elim (Bool-cases (ltb (window + 8) (length st.messages))) [
      | inl e ↦ rw e (
          (
            prune_messages-Opens window st.messages s.0,
            prune_messages-Paired window st.messages s.0 s.1,
          ))
      | inr e ↦ rw e s
    ]

tidy-Sound :
    (g : Setting) (i : ℕ) (round : Round) (s : Step)
    → Sound (state_of s).messages
    → Sound (state_of (tidy g i round s)).messages
tidy-Sound g i round (stop why st) s = s
tidy-Sound g i round (go st) s =
    prune-Sound g (nudge_remaining g i round st) (nudge_remaining-Sound g i round st s)

without_calls-Sound :
    (g : Setting) (round : Round) (r : Reply) (st : LoopState)
    → r.calls ≡ []
    → Sound st.messages
    → Sound (state_of (without_calls g round r st)).messages
unfolding without_calls
without_calls-Sound g round r st n s = elim (Bool-cases r.cut_off) [
  | inr e ↦ rw e s
  | inl e ↦ elim (Bool-cases (leb max_continuations (suc st.continuations))) [
    | inl f ↦ rw (e, f) s
    | inr f ↦ rw (e, f, n) (say-Sound _ _ (answer-Sound st.messages r.content s))
  ]
]

run_calls-Sound :
    (ts : Tools) (r : Reply) (cs : List ToolCall) (st : LoopState)
    → Sequenced ts cs
    → Sound st.messages
    → Sound (run_calls ts r cs st).messages
run_calls-Sound ts r cs st q s =
    execute_tool_calls-Sound ts cs
      (st.messages ++ (record { role = assistant; content = r.content; calls = cs } ∷ [])) q
      (Awaits-calls st.messages r.content cs s)

with_calls-Sound :
    (g : Setting) (ts : Tools) (i : ℕ) (round : Round) (r : Reply) (cs : List ToolCall)
    (st : LoopState)
    → Sequenced ts cs
    → Sound st.messages
    → Sound (state_of (with_calls g ts i round r cs st)).messages
unfolding with_calls nudge_remaining
with_calls-Sound g ts i round r [] st q s = say-Sound _ _ (answer-Sound st.messages r.content s)
with_calls-Sound g ts i round r (c ∷ cs) st q s =
    let ran = run_calls ts r (c ∷ cs) st in
    let sound : Sound ran.messages = run_calls-Sound ts r (c ∷ cs) st q s in
    elim (Bool-cases round.pauses) [
      | inl e ↦ rw e sound
      | inr e ↦ elim (Bool-cases (is_tracked g && round.complete)) [
        | inl f ↦
            rw (e, f)
              (tidy-Sound g i round (grace (c ∷ cs) ran) (
                subst (λ t. Sound t.messages) (sym (end_grace-state_of (reviewed (c ∷ cs) ran)))
                  sound))
        | inr f ↦ rw (e, f) (tidy-Sound g i round (go ran) sound)
      ]
    ]

none_called : (cs : List ToolCall) → ltb 0 (length cs) ≡ false → cs ≡ []
none_called [] h = refl
none_called (c ∷ cs) h = absurd (ground arith)

answer_reply-Sound :
    (g : Setting) (ts : Tools) (i : ℕ) (round : Round) (r : Reply) (st : LoopState)
    → Sequenced ts r.calls
    → Sound st.messages
    → Sound (state_of (answer_reply g ts i round r st)).messages
answer_reply-Sound g ts i round r st q s = elim (Bool-cases (has_calls r)) [
  | inl e ↦ rw e (with_calls-Sound g ts i round r (kept_calls r) st (kept_calls-Sequenced ts r q) s)
  | inr e ↦ rw e (without_calls-Sound g round r st (none_called r.calls e) s)
]

-- The calls of a reply, none where the call of the model failed.
abbrev pub calls_of : Option Reply → List ToolCall
calls_of none = []
calls_of (some r) = r.calls

step-Sound :
    (g : Setting) (ts : Tools) (i : ℕ) (round : Round) (o : Option Reply) (st : LoopState)
    → Sequenced ts (calls_of o)
    → Sound st.messages
    → Sound (state_of (step g ts i round o st)).messages
unfolding step count_reply
step-Sound g ts i round none st q s = s
step-Sound g ts i round (some r) st q s =
    let counted = count_reply r st in
    elim (Bool-cases (over_budget g counted)) [
      | inl e ↦ rw e s
      | inr e ↦ rw e (
          answer_reply-Sound g ts i round r (nudge_budget g counted) q
            (nudge_budget-Sound g counted s))
    ]

next_step-Sound :
    (rest : ℕ → LoopState → Stop × LoopState) (i : ℕ) (s : Step)
    → Sound (state_of s).messages
    → ((st : LoopState) → Sound st.messages → Sound (rest (suc i) st).1.messages)
    → Sound (next_step rest i s).1.messages
next_step-Sound rest i (stop why st) s h = s
next_step-Sound rest i (go st) s h = h st s

-- Where only the last call of a reply injects anchors, and these are messages of the user, the loop keeps
-- a conversation that opens with instructions, and in which each call is followed by its results, so,
-- over all rounds of calls, refusals, cut off replies, nudges and pruning, and whatever ends it.
pub run_tool_loop-Sound :
    (g : Setting) (ts : Tools) (rounds : ℕ → Round) (left i : ℕ) (st : LoopState)
    → ((j : ℕ) → Sequenced ts (calls_of (rounds j).reply))
    → Sound st.messages
    → Sound (run_tool_loop g ts rounds left i st).1.messages
unfolding run_tool_loop
run_tool_loop-Sound g ts rounds zero i st q s = s
run_tool_loop-Sound g ts rounds (suc left) i st q s =
    next_step-Sound (run_tool_loop g ts rounds left) i
      (step g ts i (rounds i) ((rounds i).reply) st)
      (step-Sound g ts i (rounds i) ((rounds i).reply) st (q i) s)
      (λ next w. run_tool_loop-Sound g ts rounds left (suc i) next q w)
