-- ===== src/Brain/Loop/Sequenced.antt =====
-- The results of the calls of a reply follow it (brain/tool_loop.go).
use ho.Brain.Loop.{Reply, kept_calls, whole_calls, parses}
use ho.Brain.Loop.Execute.{
  Tools, outcome_of, result_message, anchors_after, add_result, execute_tool_calls,
}
use ho.Brain.Messages.{Message, ToolCall, is_user, assistant}
use ho.Brain.Messages.Paired.{Paired, Opens, expected, append-Paired}
use mathlib.Core.List.{append_assoc, append-nil}
use ho.Prelude.{ℕ, zero, suc, ◌≡◌, refl, sym, ap, ◌∙◌, subst}
use ho.Prelude.{inl, inr, true}
use ho.Prelude.{List, [], ◌∷◌, ◌++◌, Bool-cases}
use ho.Prelude.{length, All}
use ho.Prelude.Bytes.{Bytes}

-- A conversation that opens with instructions, and in which results follow their calls.
abbrev pub Sound : List Message → Type 0
Sound ms = Opens ms × Paired 0 ms

-- So many results are to follow.
abbrev pub Awaits : ℕ → List Message → Type 0
Awaits n ms = Opens ms × ((rest : List Message) → Paired n rest → Paired 0 (ms ++ rest))

Opens-append : (ms us : List Message) → Opens ms → Opens (ms ++ us)
Opens-append [] us o = absurd o
Opens-append (m ∷ ms) us o = o

Paired-append : (n : ℕ) (ms us : List Message) → Paired n ms → Paired 0 us → Paired n (ms ++ us)
Paired-append zero [] us p q = q
Paired-append (suc n) [] us p q = absurd p
Paired-append zero (m ∷ ms) us p q = (p.0, Paired-append (expected m) ms us p.1 q)
Paired-append (suc n) (m ∷ ms) us p q = (p.0, Paired-append n ms us p.1 q)

pub Sound-append : (ms us : List Message) → Sound ms → Paired 0 us → Sound (ms ++ us)
Sound-append ms us s q = (Opens-append ms us s.0, Paired-append 0 ms us s.1 q)

Awaits-zero : (ms : List Message) → Awaits 0 ms → Sound ms
Awaits-zero ms a = (a.0, subst (Paired 0) (append-nil ms) (a.1 [] tt))

-- The messages of the calls of a reply, and one more of the results.
pub Awaits-calls :
    (ms : List Message) (content : Bytes) (cs : List ToolCall)
    → Sound ms
    → Awaits (length cs) (ms ++ (record { role = assistant; content = content; calls = cs } ∷ []))
Awaits-calls ms content cs s =
    let m : Message = record { role = assistant; content = content; calls = cs } in
    (
      Opens-append ms (m ∷ []) s.0,
      λ rest p.
          subst (Paired 0) (sym (append_assoc ms (m ∷ []) rest))
            (Paired-append 0 ms (m ∷ rest) s.1 (refl, p)),
    )

Awaits-result :
    (n : ℕ) (ms : List Message) (ts : Tools) (c : ToolCall)
    → Awaits (suc n) ms
    → Awaits n (ms ++ (result_message (outcome_of ts c) ∷ []))
Awaits-result n ms ts c a =
    let m = result_message (outcome_of ts c) in
    (
      Opens-append ms (m ∷ []) a.0,
      λ rest p. subst (Paired 0) (sym (append_assoc ms (m ∷ []) rest)) (a.1 (m ∷ rest) (refl, p)),
    )

-- Anchors are messages of the user, and only the last call of a reply injects them.
abbrev pub Sequenced : Tools → List ToolCall → Type 0
Sequenced ts [] = Unit
Sequenced ts (c ∷ []) = (ms : List Message) → All (λ m. is_user m ≡ true) (anchors_after ts c ms)
Sequenced ts (c ∷ d ∷ cs) =
    ((ms : List Message) → anchors_after ts c ms ≡ []) × Sequenced ts (d ∷ cs)

pub execute_tool_calls-Sound :
    (ts : Tools) (cs : List ToolCall) (ms : List Message)
    → Sequenced ts cs
    → Awaits (length cs) ms
    → Sound (execute_tool_calls ts cs ms)
unfolding execute_tool_calls
execute_tool_calls-Sound ts [] ms q a = Awaits-zero ms a
execute_tool_calls-Sound ts (c ∷ []) ms q a =
    let next = ms ++ (result_message (outcome_of ts c) ∷ []) in
    let us = anchors_after ts c next in
    Sound-append next us (Awaits-zero next (Awaits-result 0 ms ts c a))
      (subst (Paired 0) (append-nil us) (append-Paired us [] (q next) tt))
execute_tool_calls-Sound ts (c ∷ d ∷ cs) ms q a =
    let next = ms ++ (result_message (outcome_of ts c) ∷ []) in
    execute_tool_calls-Sound ts (d ∷ cs) (add_result ts c ms) q.1 (
      subst (Awaits (length (d ∷ cs))) (sym (ap (λ us. next ++ us) (q.0 next) ∙ append-nil next))
        (Awaits-result (length (d ∷ cs)) ms ts c a))

Sequenced-cons :
    (ts : Tools) (c : ToolCall) (cs : List ToolCall)
    → ((ms : List Message) → anchors_after ts c ms ≡ [])
    → Sequenced ts cs
    → Sequenced ts (c ∷ cs)
Sequenced-cons ts c [] q s = λ ms. subst (All (λ m. is_user m ≡ true)) (sym (q ms)) tt
Sequenced-cons ts c (d ∷ cs) q s = (q, s)

whole_calls-Sequenced :
    (ts : Tools) (cs : List ToolCall) → Sequenced ts cs → Sequenced ts (whole_calls cs)
whole_calls-Sequenced ts [] q = tt
whole_calls-Sequenced ts (c ∷ []) q = elim (Bool-cases (parses c)) [
  | inl e ↦ rw e q
  | inr e ↦ rw e tt
]
whole_calls-Sequenced ts (c ∷ d ∷ cs) q =
    Sequenced-cons ts c (whole_calls (d ∷ cs)) q.0 (whole_calls-Sequenced ts (d ∷ cs) q.1)

pub kept_calls-Sequenced :
    (ts : Tools) (r : Reply) → Sequenced ts r.calls → Sequenced ts (kept_calls r)
kept_calls-Sequenced ts r q = elim (Bool-cases r.cut_off) [
  | inl e ↦ rw e (whole_calls-Sequenced ts r.calls q)
  | inr e ↦ rw e q
]
