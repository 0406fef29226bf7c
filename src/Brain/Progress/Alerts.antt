-- ===== src/Brain/Progress/Alerts.antt =====
-- brain/progress.go: which alerts a build's costs cause.
use ho.Prelude.{
  if◌then◌else◌, ℕ, zero, suc, ◌+◌, ◌≤◌, ◌≡◌, refl, inl, inr, Bool, true, false, List, [], ◌∷◌,
  Option, none, some, take, drop, leb, Bool-cases, arith, ap, ◌<◌, ◌∙◌, ◌&&◌,
}
use ho.Brain.Progress.{CostTracker, new_cost_tracker, thresholds, crossed, alert, add_tokens}

and_false : (b : Bool) → (b && false) ≡ false
and_false true = refl
and_false false = refl

abbrev with_alert : Option ℕ → List ℕ → List ℕ
with_alert none ts = ts
with_alert (some t) ts = t ∷ ts

-- The thresholds that a run of calls of addTokens alerts, in order.
unfoldable pub alerts : List ℕ → CostTracker → List ℕ
alerts [] ct = []
alerts (tokens ∷ xs) ct = let r = add_tokens tokens ct in with_alert r.1 (alerts xs r.0)

-- The thresholds of which the owner was told, the last first.
abbrev told : ℕ → List ℕ
told zero = []
told (suc zero) = 500000 ∷ []
told (suc (suc zero)) = 1000000 ∷ 500000 ∷ []
told (suc (suc (suc k))) = 2000000 ∷ 1000000 ∷ 500000 ∷ []

-- A call tells of no threshold, or of the next one.
abbrev Next : ℕ → Option ℕ → Type 0
Next k none = Unit
Next k (some t) =
    (t ∷ told k ≡ told (k + 1)) × (drop k thresholds ≡ t ∷ drop (k + 1) thresholds) × (k < 3)

below : (m n total : ℕ) → m ≤ n → leb m total ≡ false → leb n total ≡ false
below m n total h e = ground (arith, h, e)

crossed-Next : (k total : ℕ) → k ≤ 3 → Next k (crossed total (told k) thresholds)
crossed-Next zero total h = elim (Bool-cases (leb 500000 total)) [
  | inl e ↦ rw e (refl, refl, omega arith)
  | inr e ↦
      rw (e, below 500000 1000000 total (omega arith) e, below 500000 2000000 total (omega arith) e)
        tt
]
crossed-Next (suc zero) total h = elim (Bool-cases (leb 1000000 total)) [
  | inl e ↦ rw (and_false (leb 500000 total), e) (refl, refl, omega arith)
  | inr e ↦ rw (and_false (leb 500000 total), e, below 1000000 2000000 total (omega arith) e) tt
]
crossed-Next (suc (suc zero)) total h = elim (Bool-cases (leb 2000000 total)) [
  | inl e ↦
      rw (and_false (leb 500000 total), and_false (leb 1000000 total), e) (refl, refl, omega arith)
  | inr e ↦ rw (and_false (leb 500000 total), and_false (leb 1000000 total), e) tt
]
crossed-Next (suc (suc (suc zero))) total h =
    rw (and_false (leb 500000 total), and_false (leb 1000000 total), and_false (leb 2000000 total))
      tt
crossed-Next (suc (suc (suc (suc k)))) total h = ground arith

-- The tracker after a run of calls.
unfoldable pub spend : List ℕ → CostTracker → CostTracker
spend [] ct = ct
spend (tokens ∷ xs) ct = spend xs (add_tokens tokens ct).0

-- The first of the thresholds, if it is reached.
abbrev pub reached : ℕ → List ℕ → Option ℕ
reached total [] = none
reached total (t ∷ ts) = if leb t total then some t else none

crossed-reached :
    (k total : ℕ) → k ≤ 3 → crossed total (told k) thresholds ≡ reached total (drop k thresholds)
crossed-reached zero total h = elim (Bool-cases (leb 500000 total)) [
  | inl e ↦ rw e refl
  | inr e ↦
      rw (e, below 500000 1000000 total (omega arith) e, below 500000 2000000 total (omega arith) e)
        refl
]
crossed-reached (suc zero) total h = elim (Bool-cases (leb 1000000 total)) [
  | inl e ↦ rw (and_false (leb 500000 total), e) refl
  | inr e ↦ rw (and_false (leb 500000 total), e, below 1000000 2000000 total (omega arith) e) refl
]
crossed-reached (suc (suc zero)) total h = elim (Bool-cases (leb 2000000 total)) [
  | inl e ↦ rw (and_false (leb 500000 total), and_false (leb 1000000 total), e) refl
  | inr e ↦ rw (and_false (leb 500000 total), and_false (leb 1000000 total), e) refl
]
crossed-reached (suc (suc (suc zero))) total h =
    rw (and_false (leb 500000 total), and_false (leb 1000000 total), and_false (leb 2000000 total))
      refl
crossed-reached (suc (suc (suc (suc k)))) total h = ground arith

abbrev From : ℕ → List ℕ → CostTracker → Type 0
From k ts ct =
    (n : ℕ) × (ts ≡ take n (drop k thresholds)) × (k + n ≤ 3) × (ct.alerted_at ≡ told (k + n))

after_call :
    (rest : CostTracker → List ℕ) (end : CostTracker → CostTracker) (ct : CostTracker) (k : ℕ)
    (r : Option ℕ)
    → ((c : CostTracker) (j : ℕ) → j ≤ 3 → c.alerted_at ≡ told j → From j (rest c) (end c))
    → k ≤ 3
    → ct.alerted_at ≡ told k
    → Next k r
    → From k (with_alert r (rest (alert r ct))) (end (alert r ct))
after_call rest end ct k none ih h e next = ih ct k h e
after_call rest end ct k (some t) ih h e (more, cut, small) =
    let (n, eq, b, e') =
      ih (alert (some t) ct) (k + 1) (omega arith) (ap (λ ts. t ∷ ts) e ∙ more) in
    (suc n, rw (cut, eq), omega (arith, b), e' ∙ ap told (omega arith))

alerts-From :
    (xs : List ℕ) (ct : CostTracker) (k : ℕ)
    → k ≤ 3
    → ct.alerted_at ≡ told k
    → From k (alerts xs ct) (spend xs ct)
unfolding alerts spend add_tokens
alerts-From [] ct k h e = (0, refl, omega (arith, h), e ∙ ap told (omega arith))
alerts-From (tokens ∷ xs) ct k h e =
    after_call (alerts xs) (spend xs) (record ct { total_tokens = ct.total_tokens + tokens }) k
      (crossed (ct.total_tokens + tokens) ct.alerted_at thresholds) (alerts-From xs) h e
      (rw e (crossed-Next k (ct.total_tokens + tokens) h))

-- However a build spends its tokens, its alerts are the first n thresholds in ascending order, each once, and the next call alerts exactly if the threshold after them is reached with its tokens.
pub alerts-take :
    (xs : List ℕ) (tokens : ℕ)
    → (n : ℕ) × (alerts xs new_cost_tracker ≡ take n thresholds)
      × ((add_tokens tokens (spend xs new_cost_tracker)).1
          ≡ reached ((spend xs new_cost_tracker).total_tokens + tokens) (drop n thresholds))
unfolding add_tokens
alerts-take xs tokens =
    let ct = spend xs new_cost_tracker in
    let (n, eq, b, e) = alerts-From xs new_cost_tracker 0 (omega arith) refl in
    (
      n,
      eq,
      ap (λ a. crossed (ct.total_tokens + tokens) a thresholds) (e ∙ ap told (omega arith))
          ∙ crossed-reached n (ct.total_tokens + tokens) (omega (arith, b)),
    )
