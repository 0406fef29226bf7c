-- ===== src/Brain/Messages/Bound.antt =====
-- Of the contexts of pages only the latest is kept (brain/messages.go).
use ho.Brain.Messages.{
  Message, is_page_context, is_anchor, is_kept, clean, clear_contexts, count, max_anchors, flush,
  zone, back_up, starts_with_tool, compact, prune_messages, parts_of, has_later_context,
}
use ho.Prelude.{ℕ, zero, suc, ◌+◌, ◌-◌, ◌≤◌, ◌<◌, ◌≡◌, refl, sym, ap, ◌∙◌, subst}
use ho.Prelude.{inl, inr, Bool, true, false, ◌&&◌}
use ho.Prelude.{List, [], ◌∷◌, ◌++◌, arith, if◌then◌else◌, ltb, leb, Bool-cases}
use ho.Prelude.{length, any, select, take, drop}
use ho.Prelude.Bytes.{Bytes, has_prefix, codes}

contexts : List Message → ℕ
contexts ms = count is_page_context ms

none_count : (p : Message → Bool) (ms : List Message) → any p ms ≡ false → count p ms ≡ 0
none_count p [] h = refl
none_count p (m ∷ ms) h =
    let here : p m ≡ false = ground (arith, h) in
    let rest : any p ms ≡ false = ground (arith, h) in rw here (none_count p ms rest)

count_append :
    (p : Message → Bool) (xs ys : List Message) → count p (xs ++ ys) ≡ count p xs + count p ys
count_append p [] ys = omega arith
count_append p (x ∷ xs) ys = ground (arith, count_append p xs ys)

count_drop : (p : Message → Bool) (k : ℕ) (ms : List Message) → count p (drop k ms) ≤ count p ms
count_drop p zero ms = omega arith
count_drop p (suc k) [] = omega arith
count_drop p (suc k) (m ∷ ms) = ground (arith, count_drop p k ms)

count_select : (p q : Message → Bool) (ms : List Message) → count p (select q ms) ≤ count p ms
count_select p q [] = omega arith
count_select p q (m ∷ ms) = ground (arith, count_select p q ms)

clear_contexts-count :
    (ms : List Message)
    → count is_page_context (clear_contexts ms) ≡ (if any is_page_context ms then 1 else 0)
unfolding clear_contexts
clear_contexts-count [] = ground arith
clear_contexts-count (m ∷ ms) = elim (Bool-cases (is_page_context m)) [
  | inl e ↦ elim (Bool-cases (any is_page_context ms)) [
    | inl f ↦ rw (e, f) (clear_contexts-count ms ∙ rw f refl)
    | inr f ↦ rw (e, f, e) (ap (λ n. suc n) (clear_contexts-count ms ∙ rw f refl))
  ]
  | inr e ↦ rw (e, e) (clear_contexts-count ms)
]

prefix_apart :
    (s : Bytes) → has_prefix s (codes "[ANCHOR]") ≡ true → has_prefix s (codes "[PAGE_CTX]") ≡ false
prefix_apart [] h = refl
prefix_apart (c ∷ []) h = ground (arith, h)
prefix_apart (c ∷ d ∷ s) h = ground (arith, h)

flush-count :
    (parts : List Bytes) (ms : List Message)
    → count is_page_context (flush parts ms) ≡ count is_page_context ms
flush-count [] ms = refl
flush-count (p ∷ parts) ms = refl

-- An anchor is no context of a page.
anchor_context : (m : Message) → is_anchor m ≡ true → is_page_context m ≡ false
anchor_context m h =
    let prefix : has_prefix m.content (codes "[ANCHOR]") ≡ true = ground (arith, h) in
    rw (prefix_apart m.content prefix) (ground arith)

zone-count :
    (budget : ℕ) (parts : List Bytes) (ms : List Message)
    → count is_page_context (zone budget parts ms) ≡ 0
unfolding zone
zone-count budget parts [] = flush-count parts []
zone-count budget parts (m ∷ ms) = elim (Bool-cases (is_anchor m && ltb 0 budget)) [
  | inl e ↦
      let anchor : is_anchor m ≡ true = ground (arith, e) in
      rw e (
        flush-count parts (m ∷ zone (budget - 1) [] ms)
        ∙ rw (anchor_context m anchor) (zone-count (budget - 1) [] ms))
  | inr e ↦ rw e (zone-count budget (parts ++ parts_of m) ms)
]

one_or_none : (b : Bool) → (if b then 1 else 0) ≤ 1
one_or_none true = omega arith
one_or_none false = omega arith

clean-count : (ms : List Message) → count is_page_context (clean ms) ≤ 1
unfolding clean
clean-count ms =
    let cleared_count : count is_page_context (clear_contexts ms) ≤ 1 =
      subst (λ n. n ≤ 1) (sym (clear_contexts-count ms)) (one_or_none (any is_page_context ms)) in
    elim (Bool-cases (has_later_context ms)) [
      | inl e ↦
          rw e
            (omega (arith, count_select is_page_context is_kept (clear_contexts ms), cleared_count))
      | inr e ↦ rw e cleared_count
    ]

-- The first message and those from a later place on are among the whole.
ends_count :
    (k : ℕ) (ms : List Message)
    → 1 ≤ k
    → count is_page_context (take 1 ms) + count is_page_context (drop k ms)
      ≤ count is_page_context ms
ends_count zero ms h = absurd (omega arith)
ends_count (suc k) [] h = omega arith
ends_count (suc k) (m ∷ ms) h = ground (arith, count_drop is_page_context k ms)

back_up_ge : (k : ℕ) (ms : List Message) → 1 ≤ k → 1 ≤ back_up k ms
unfolding back_up
back_up_ge zero ms h = absurd (omega arith)
back_up_ge (suc k) ms h = elim (Bool-cases (ltb 0 k && starts_with_tool (drop (suc k) ms))) [
  | inl e ↦ let more : 1 ≤ k = ground (arith, e) in rw e (back_up_ge k ms more)
  | inr e ↦ rw e (omega arith)
]

compact-count :
    (max_recent : ℕ) (ms : List Message)
    → max_recent < length ms
    → count is_page_context (compact max_recent ms) ≤ count is_page_context ms
unfolding compact
compact-count max_recent ms h =
    let start = length ms - max_recent in
    let recent = back_up start ms in
    let anchors = count is_anchor (take (start - 1) (drop 1 ms)) in
    let middle = zone (max_anchors anchors) [] (take (recent - 1) (drop 1 ms)) in
    let none_between : count is_page_context middle ≡ 0 =
      zone-count (max_anchors anchors) [] (take (recent - 1) (drop 1 ms)) in
    let total : count is_page_context (take 1 ms ++ (middle ++ drop recent ms))
        ≡ count is_page_context (take 1 ms) + count is_page_context (middle ++ drop recent ms) =
      count_append is_page_context (take 1 ms) (middle ++ drop recent ms) in
    omega (
      arith,
      total,
      count_append is_page_context middle (drop recent ms),
      none_between,
      ends_count recent ms (back_up_ge start ms (omega arith)),
    )

length-clear_contexts : (ms : List Message) → length (clear_contexts ms) ≡ length ms
unfolding clear_contexts
length-clear_contexts [] = refl
length-clear_contexts (m ∷ ms) = elim (Bool-cases (is_page_context m && any is_page_context ms)) [
  | inl e ↦ rw e (ap (λ n. suc n) (length-clear_contexts ms))
  | inr e ↦ rw e (ap (λ n. suc n) (length-clear_contexts ms))
]

-- Without a stale context nothing is dropped.
clean-long :
    (max_recent : ℕ) (ms : List Message)
    → leb (length ms) (max_recent + 1) ≡ false
    → (has_later_context ms && leb (length (clean ms)) (max_recent + 1)) ≡ false
    → max_recent < length (clean ms)
unfolding clean
clean-long max_recent ms h e = elim (Bool-cases (has_later_context ms)) [
  | inl f ↦
      let long : leb (length (select is_kept (clear_contexts ms))) (max_recent + 1) ≡ false =
        rw f at e in
      rw f (ground arith)
  | inr f ↦ rw f (ground (arith, h, length-clear_contexts ms))
]

-- A conversation that is longer than its recent messages is left with one [PAGE_CTX] message at most.
pub prune_messages-count :
    (max_recent : ℕ) (ms : List Message)
    → leb (length ms) (max_recent + 1) ≡ false
    → count is_page_context (prune_messages max_recent ms) ≤ 1
unfolding prune_messages
prune_messages-count max_recent ms h =
    elim (Bool-cases (has_later_context ms && leb (length (clean ms)) (max_recent + 1))) [
      | inl e ↦ rw (h, e) (clean-count ms)
      | inr e ↦
          rw (h, e)
            (omega (
              arith,
              compact-count max_recent (clean ms) (clean-long max_recent ms h e),
              clean-count ms,
            ))
    ]
