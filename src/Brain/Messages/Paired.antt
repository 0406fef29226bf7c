-- ===== src/Brain/Messages/Paired.antt =====
-- Pruning never parts a call of a tool from its result (brain/messages.go).
use ho.Brain.Messages.{
  Message, ToolCall, Role, user, assistant, tool, system, is_user, is_assistant, is_tool, is_anchor,
  is_kept, is_page_context, clean, clear_contexts, count, max_anchors, flush, zone,
  starts_with_tool, back_up, compact, prune_messages, parts_of, has_later_context, is_nil,
}
use ho.Brain.Messages.Recent.{back_up-tool}
use ho.Prelude.{ℕ, zero, suc, ◌+◌, ◌-◌, ◌≤◌, ◌≡◌, refl, sym, subst}
use ho.Prelude.{◌⊎◌, inl, inr, true, false, ◌&&◌}
use ho.Prelude.{List, [], ◌∷◌, ◌++◌, arith, if◌then◌else◌, ltb, leb, Bool-cases}
use ho.Prelude.{length, All, any, select, take, drop}
use ho.Prelude.Bytes.{Bytes}

-- The results that must follow a message.
abbrev pub expected : Message → ℕ
expected m = if is_assistant m then length m.calls else 0

-- After a message with calls comes one result for each of them, and a result comes nowhere else; so many
-- results of the message before are still to come.
abbrev pub Paired : ℕ → List Message → Type 0
Paired zero [] = Unit
Paired (suc n) [] = ⊥
Paired zero (m ∷ ms) = (is_tool m ≡ false) × Paired (expected m) ms
Paired (suc n) (m ∷ ms) = (is_tool m ≡ true) × Paired n ms

-- What starts with no result has none to come.
drop-Paired :
    (n k : ℕ) (ms : List Message)
    → Paired n ms
    → starts_with_tool (drop k ms) ≡ false
    → Paired 0 (drop k ms)
drop-Paired zero zero ms p h = p
drop-Paired (suc n) zero [] p h = tt
drop-Paired (suc n) zero (m ∷ ms) p h = let yes = p.0 in cc
drop-Paired n (suc k) [] p h = tt
drop-Paired zero (suc k) (m ∷ ms) p h = drop-Paired (expected m) k ms p.1 h
drop-Paired (suc n) (suc k) (m ∷ ms) p h = drop-Paired n k ms p.1 h

role_plain :
    (r : Role) (content : Bytes) (calls : List ToolCall)
    → is_user (record { role = r; content = content; calls = calls }) ≡ true
    → (is_tool (record { role = r; content = content; calls = calls }) ≡ false)
      × (is_assistant (record { role = r; content = content; calls = calls }) ≡ false)
role_plain user content calls h = (refl, refl)
role_plain assistant content calls h = cc
role_plain tool content calls h = cc
role_plain system content calls h = cc

user_plain : (m : Message) → is_user m ≡ true → (is_tool m ≡ false) × (is_assistant m ≡ false)
user_plain m h = role_plain m.role m.content m.calls h

tool_plain : (m : Message) → is_tool m ≡ true → is_user m ≡ false
tool_plain m h = elim (Bool-cases (is_user m)) [
  | inl e ↦ let no = (user_plain m e).0 in cc
  | inr e ↦ e
]

user_none : (m : Message) → is_user m ≡ true → expected m ≡ 0
user_none m h = let plain = user_plain m h in rw plain.1 refl

-- Messages of the user stand in front of what is paired.
pub append-Paired :
    (us ms : List Message) → All (λ m. is_user m ≡ true) us → Paired 0 ms → Paired 0 (us ++ ms)
append-Paired [] ms u p = p
append-Paired (m ∷ us) ms u p = (
  (user_plain m u.0).0,
  subst (λ n. Paired n (us ++ ms)) (sym (user_none m u.0)) (append-Paired us ms u.1 p),
)

flush-All :
    (parts : List Bytes) (ms : List Message)
    → All (λ m. is_user m ≡ true) ms
    → All (λ m. is_user m ≡ true) (flush parts ms)
flush-All [] ms h = h
flush-All (p ∷ parts) ms h = (refl, h)

zone-All :
    (budget : ℕ) (parts : List Bytes) (ms : List Message)
    → All (λ m. is_user m ≡ true) (zone budget parts ms)
unfolding zone
zone-All budget parts [] = flush-All parts [] tt
zone-All budget parts (m ∷ ms) = elim (Bool-cases (is_anchor m && ltb 0 budget)) [
  | inl e ↦
      let by_user : is_user m ≡ true = ground (arith, e) in
      rw e (flush-All parts (m ∷ zone (budget - 1) [] ms) (by_user, zone-All (budget - 1) [] ms))
  | inr e ↦ rw e (zone-All budget (parts ++ parts_of m) ms)
]

clear_contexts-Paired : (n : ℕ) (ms : List Message) → Paired n ms → Paired n (clear_contexts ms)
unfolding clear_contexts
clear_contexts-Paired zero [] p = tt
clear_contexts-Paired (suc n) [] p = absurd p
clear_contexts-Paired zero (m ∷ ms) p =
    elim (Bool-cases (is_page_context m && any is_page_context ms)) [
      | inl e ↦
          let by_user : is_user m ≡ true = ground (arith, e) in
          let rest : Paired 0 ms = subst (λ n. Paired n ms) (user_none m by_user) p.1 in
          rw e ((refl, clear_contexts-Paired 0 ms rest))
      | inr e ↦ rw e ((p.0, clear_contexts-Paired (expected m) ms p.1))
    ]
clear_contexts-Paired (suc n) (m ∷ ms) p =
    let other : is_user m ≡ false = tool_plain m p.0 in
    let no_context : (is_page_context m && any is_page_context ms) ≡ false = rw other refl in
    rw no_context ((p.0, clear_contexts-Paired n ms p.1))

select-Paired : (n : ℕ) (ms : List Message) → Paired n ms → Paired n (select is_kept ms)
select-Paired zero [] p = tt
select-Paired (suc n) [] p = absurd p
select-Paired zero (m ∷ ms) p = elim (Bool-cases (is_kept m)) [
  | inl e ↦ rw e ((p.0, select-Paired (expected m) ms p.1))
  | inr e ↦
      let by_user : is_user m ≡ true = ground (arith, e) in
      let rest : Paired 0 ms = subst (λ n. Paired n ms) (user_none m by_user) p.1 in
      rw e (select-Paired 0 ms rest)
]
select-Paired (suc n) (m ∷ ms) p =
    let other : is_user m ≡ false = tool_plain m p.0 in
    let kept : is_kept m ≡ true = rw other (ground arith) in rw kept ((p.0, select-Paired n ms p.1))

clean-Paired : (ms : List Message) → Paired 0 ms → Paired 0 (clean ms)
unfolding clean
clean-Paired ms p = elim (Bool-cases (has_later_context ms)) [
  | inl e ↦ rw e (select-Paired 0 (clear_contexts ms) (clear_contexts-Paired 0 ms p))
  | inr e ↦ rw e (clear_contexts-Paired 0 ms p)
]

-- The conversation begins with a message of the user.
abbrev pub StartsWithUser : List Message → Type 0
StartsWithUser [] = Unit
StartsWithUser (m ∷ ms) = is_user m ≡ true

-- From any place that the recent messages may begin at, they are paired.
recent-Paired :
    (k : ℕ) (ms : List Message)
    → StartsWithUser ms
    → Paired 0 ms
    → (starts_with_tool (drop k ms) ≡ false) ⊎ (k ≤ 1)
    → Paired 0 (drop k ms)
recent-Paired k ms u p (inl h) = drop-Paired 0 k ms p h
recent-Paired zero ms u p (inr h) = p
recent-Paired (suc k) [] u p (inr h) = tt
recent-Paired (suc zero) (m ∷ ms) u p (inr h) = subst (λ n. Paired n ms) (user_none m u) p.1
recent-Paired (suc (suc k)) (m ∷ ms) u p (inr h) = absurd (omega arith)

first-All : (ms : List Message) → StartsWithUser ms → All (λ m. is_user m ≡ true) (take 1 ms)
first-All [] u = tt
first-All (m ∷ ms) u = (u, tt)

compact-Paired :
    (max_recent : ℕ) (ms : List Message)
    → StartsWithUser ms
    → Paired 0 ms
    → Paired 0 (compact max_recent ms)
unfolding compact
compact-Paired max_recent ms u p =
    let start = length ms - max_recent in
    let recent = back_up start ms in
    let anchors = count is_anchor (take (start - 1) (drop 1 ms)) in
    let middle = zone (max_anchors anchors) [] (take (recent - 1) (drop 1 ms)) in
    append-Paired (take 1 ms) (middle ++ drop recent ms) (first-All ms u) (
      append-Paired middle (drop recent ms)
        (zone-All (max_anchors anchors) [] (take (recent - 1) (drop 1 ms)))
        (recent-Paired recent ms u p (back_up-tool start ms)))

-- The conversation begins with instructions of the user, which are no context of a page.
abbrev pub Opens : List Message → Type 0
Opens [] = ⊥
Opens (m ∷ ms) = (is_user m ≡ true) × (is_page_context m ≡ false) × (is_nil m.content ≡ false)

pub clear_contexts-cons :
    (m : Message) (ms : List Message)
    → is_page_context m ≡ false
    → clear_contexts (m ∷ ms) ≡ m ∷ clear_contexts ms
unfolding clear_contexts
clear_contexts-cons m ms h = rw h refl

clean-StartsWithUser : (ms : List Message) → Opens ms → StartsWithUser (clean ms)
unfolding clean
clean-StartsWithUser [] o = absurd o
clean-StartsWithUser (m ∷ ms) o =
    let kept : is_kept m ≡ true = rw o.2 refl in
    let head = clear_contexts-cons m ms o.1 in
    elim (Bool-cases (any is_page_context ms)) [
      | inl e ↦ rw (head, e, kept) o.0
      | inr e ↦ rw (head, e) o.0
    ]

-- A conversation that opens with instructions, and in which each call of a tool is followed by its
-- results, is so still when it is pruned.
pub prune_messages-Paired :
    (max_recent : ℕ) (ms : List Message)
    → Opens ms
    → Paired 0 ms
    → Paired 0 (prune_messages max_recent ms)
unfolding prune_messages
prune_messages-Paired max_recent ms o p = elim (Bool-cases (leb (length ms) (max_recent + 1))) [
  | inl e ↦ rw e p
  | inr e ↦ elim (Bool-cases (has_later_context ms && leb (length (clean ms)) (max_recent + 1))) [
    | inl f ↦ rw (e, f) (clean-Paired ms p)
    | inr f ↦
        rw (e, f)
          (compact-Paired max_recent (clean ms) (clean-StartsWithUser ms o) (clean-Paired ms p))
  ]
]
