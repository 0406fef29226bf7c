-- ===== src/Brain/Messages/Recent.antt =====
-- What pruning a conversation keeps (brain/messages.go).
use ho.Brain.Messages.{
  Message, is_anchor, clean, count, max_anchors, flush, zone, starts_with_tool, back_up, compact,
  prune_messages, progress, parts_of, has_later_context,
}
use ho.Prelude.{ℕ, zero, suc, ◌+◌, ◌-◌, ◌*◌, ◌≤◌, ◌<◌, ◌≡◌, refl, sym}
use ho.Prelude.{◌⊎◌, inl, inr, false, ◌&&◌}
use ho.Prelude.{List, [], ◌∷◌, ◌++◌, arith, ltb, leb, Bool-cases}
use ho.Prelude.{length, take, drop, select, All, true, ltb, ap, ◌∙◌}
use ho.Prelude.{take-drop, max}
use ho.Prelude.Bytes.{Bytes}

length-flush : (parts : List Bytes) (ms : List Message) → length (flush parts ms) ≤ suc (length ms)
length-flush [] ms = omega arith
length-flush (p ∷ parts) ms = omega arith

length-zone :
    (budget : ℕ) (parts : List Bytes) (ms : List Message)
    → length (zone budget parts ms) ≤ 2 * budget + 1
unfolding zone
length-zone budget parts [] = omega (arith, length-flush parts [])
length-zone budget parts (m ∷ ms) = elim (Bool-cases (is_anchor m && ltb 0 budget)) [
  | inl e ↦
      let some_left : 0 < budget = ground (arith, e) in
      rw e (
        omega
          (arith, length-flush parts (m ∷ zone (budget - 1) [] ms), length-zone (budget - 1) [] ms))
  | inr e ↦ rw e (length-zone budget (parts ++ parts_of m) ms)
]

max_anchors-bound : (n : ℕ) → max_anchors n ≤ 24
unfolding max_anchors
max_anchors-bound n = omega arith

back_up_le : (k : ℕ) (ms : List Message) → back_up k ms ≤ k
unfolding back_up
back_up_le zero ms = omega arith
back_up_le (suc k) ms = elim (Bool-cases (ltb 0 k && starts_with_tool (drop (suc k) ms))) [
  | inl e ↦ rw e (omega (arith, back_up_le k ms))
  | inr e ↦ rw e (omega arith)
]

-- The recent messages begin with no tool result, but where they go back to the second message.
pub back_up-tool :
    (k : ℕ) (ms : List Message)
    → (starts_with_tool (drop (back_up k ms) ms) ≡ false) ⊎ (back_up k ms ≤ 1)
unfolding back_up
back_up-tool zero ms = inr (omega arith)
back_up-tool (suc k) ms = elim (Bool-cases (ltb 0 k && starts_with_tool (drop (suc k) ms))) [
  | inl e ↦ rw e (back_up-tool k ms)
  | inr e ↦ elim (Bool-cases (ltb 0 k)) [
    | inl f ↦
        let plain : starts_with_tool (drop (suc k) ms) ≡ false = ground (arith, e, f) in
        rw e (inl plain)
    | inr f ↦ rw e (inr (ground arith))
  ]
]

-- Of the zone, the anchors that are within the budget stay, in order, and the other messages are summaries.
abbrev pub IsProgress : Message → Type 0
IsProgress m = (parts : List Bytes) × (m ≡ progress parts)

anchors-flush :
    (parts : List Bytes) (ms : List Message)
    → select is_anchor (flush parts ms) ≡ select is_anchor ms
anchors-flush [] ms = refl
anchors-flush (p ∷ parts) ms = refl

take_none : (n : ℕ) → select is_anchor [] ≡ take n (select is_anchor [])
take_none zero = refl
take_none (suc n) = refl

anchors-zone :
    (budget : ℕ) (parts : List Bytes) (ms : List Message)
    → select is_anchor (zone budget parts ms) ≡ take budget (select is_anchor ms)
unfolding zone
anchors-zone budget parts [] = anchors-flush parts [] ∙ take_none budget
anchors-zone zero parts (m ∷ ms) =
    let none_left : (is_anchor m && ltb 0 0) ≡ false = ground arith in
    rw none_left (anchors-zone 0 (parts ++ parts_of m) ms)
anchors-zone (suc b) parts (m ∷ ms) = elim (Bool-cases (is_anchor m)) [
  | inl e ↦
      let kept : (is_anchor m && ltb 0 (suc b)) ≡ true = ground (arith, e) in
      let one_less : suc b - 1 ≡ b = omega arith in
      let rest = zone (suc b - 1) [] ms in
      rw (kept, anchors-flush parts (m ∷ rest), e)
        (ap (λ t. m ∷ t)
          (anchors-zone (suc b - 1) [] ms ∙ ap (λ n. take n (select is_anchor ms)) one_less))
  | inr e ↦
      let passed : (is_anchor m && ltb 0 (suc b)) ≡ false = ground (arith, e) in
      rw (passed, e) (anchors-zone (suc b) (parts ++ parts_of m) ms)
]

-- Each message of the middle is an anchor or a summary.
abbrev pub IsMiddle : Message → Type 0
IsMiddle m = (is_anchor m ≡ true) ⊎ IsProgress m

flush-IsMiddle :
    (parts : List Bytes) (ms : List Message) → All IsMiddle ms → All IsMiddle (flush parts ms)
flush-IsMiddle [] ms h = h
flush-IsMiddle (p ∷ parts) ms h = (inr (p ∷ parts, refl), h)

zone-IsMiddle :
    (budget : ℕ) (parts : List Bytes) (ms : List Message) → All IsMiddle (zone budget parts ms)
unfolding zone
zone-IsMiddle budget parts [] = flush-IsMiddle parts [] tt
zone-IsMiddle budget parts (m ∷ ms) = elim (Bool-cases (is_anchor m && ltb 0 budget)) [
  | inl e ↦
      let anchor : is_anchor m ≡ true = ground (arith, e) in
      rw e (
        flush-IsMiddle parts (m ∷ zone (budget - 1) [] ms)
          (inl anchor, zone-IsMiddle (budget - 1) [] ms))
  | inr e ↦ rw e (zone-IsMiddle budget (parts ++ parts_of m) ms)
]

-- What is kept of the messages: the first; from between, the first `budget` of the anchors, in order, with
-- summaries, at most 49 messages; and all messages from the place `start` on, which is not later than
-- the recent ones begin, and where no tool's result stands unless it is the second message.
abbrev pub Keeps : ℕ → List Message → List Message → Type 0
Keeps max_recent ms out =
    (middle : List Message) × (start : ℕ) × (budget : ℕ) × (out
      ≡ take 1 ms ++ (middle ++ drop start ms))
    × (start ≤ max 1 (length ms - max_recent))
    × (14 ≤ budget)
    × (select is_anchor middle ≡ take budget (select is_anchor (take (start - 1) (drop 1 ms))))
    × All IsMiddle middle
    × (length middle ≤ 49)
    × ((starts_with_tool (drop start ms) ≡ false) ⊎ (start ≤ 1))

max_anchors-least : (n : ℕ) → 14 ≤ max_anchors n
unfolding max_anchors
max_anchors-least n = omega arith

compact-Keeps : (max_recent : ℕ) (ms : List Message) → Keeps max_recent ms (compact max_recent ms)
unfolding compact
compact-Keeps max_recent ms =
    let start = length ms - max_recent in
    let anchors = count is_anchor (take (start - 1) (drop 1 ms)) in
    let recent = back_up start ms in
    let between = take (recent - 1) (drop 1 ms) in
    let middle = zone (max_anchors anchors) [] between in
    (
      middle,
      recent,
      max_anchors anchors,
      refl,
      omega (arith, back_up_le start ms),
      max_anchors-least anchors,
      anchors-zone (max_anchors anchors) [] between,
      zone-IsMiddle (max_anchors anchors) [] between,
      omega (arith, length-zone (max_anchors anchors) [] between, max_anchors-bound anchors),
      back_up-tool start ms,
    )

whole-Keeps : (max_recent : ℕ) (ms : List Message) → Keeps max_recent ms ms
whole-Keeps max_recent ms = (
  [],
  1,
  14,
  sym (take-drop 1 ms),
  omega arith,
  omega arith,
  refl,
  tt,
  omega arith,
  inr (omega arith),
)

-- A conversation that is longer than its recent messages, cleaned of stale contexts, keeps its first
-- message; its recent ones, which do not begin with a tool's result unless they go back to the second
-- message; and from between, in order, the first anchors, 14 at least if there are so many, with summaries,
-- at most 49 messages together.
pub prune_messages-Keeps :
    (max_recent : ℕ) (ms : List Message)
    → leb (length ms) (max_recent + 1) ≡ false
    → Keeps max_recent (clean ms) (prune_messages max_recent ms)
unfolding prune_messages
prune_messages-Keeps max_recent ms h =
    elim (Bool-cases (has_later_context ms && leb (length (clean ms)) (max_recent + 1))) [
      | inl e ↦ rw (h, e) (whole-Keeps max_recent (clean ms))
      | inr e ↦ rw (h, e) (compact-Keeps max_recent (clean ms))
    ]
