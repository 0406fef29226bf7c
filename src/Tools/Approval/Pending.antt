-- ===== src/Tools/Approval/Pending.antt =====
-- What a request for approval leaves (tools/approval.go).
use ho.Tools.Approval.{
  Question, State, Env, key_of, approves, denies, denials, one_of, answered, check_approval,
  is_approval_denied, is_pending, normalized, latest_answer,
}
use ho.Tools.Approval.{
  Verdict, action_denied, pause_failed, approval_required, asks, ask, request_approval,
}
use ho.Prelude.{ℕ, ◌+◌, ◌≤◌, ◌≡◌, refl, sym, subst}
use ho.Prelude.{◌↔◌, ◌⊎◌, ◌&&◌, inl, inr, true, false, Option, none, some}
use ho.Prelude.{List, [], ◌∷◌, ◌++◌, arith, if◌then◌else◌, Bool-cases}
use ho.Prelude.{length, All, any, select}
use ho.Prelude.Bytes.{Bytes, same, same_eq, same_refl}
use ho.Brain.Pipeline.{approval, pause}

-- The number of pending questions on a key.
abbrev pub pending_count : Bytes → List Question → ℕ
pending_count key qs = length (select (is_pending key) qs)

no_pending :
    (key : Bytes) (qs : List Question) → any (is_pending key) qs ≡ false → pending_count key qs ≡ 0
no_pending key [] h = refl
no_pending key (q ∷ qs) h = elim (Bool-cases (is_pending key q)) [
  | inl e ↦ let no = rw e at h in cc
  | inr e ↦ let h' = rw e at h in rw e (no_pending key qs h')
]

count_append :
    (key : Bytes) (qs : List Question) (q : Question)
    → pending_count key (qs ++ (q ∷ []))
      ≡ pending_count key qs + (if is_pending key q then 1 else 0)
count_append key [] q = ground arith
count_append key (p ∷ qs) q = ground (arith, count_append key qs q)

-- Asking on a key adds no second pending question, on that key or another.
ask_count :
    (env : Env) (question key j : Bytes) (s : State)
    → pending_count j s.questions ≤ 1
    → pending_count j (ask env question key s).questions ≤ 1
ask_count env question key j s h = elim (Bool-cases (asks env key s)) [
  | inr e ↦ rw e h
  | inl e ↦
      let q : Question = record {
        id = s.next_id;
        text = question;
        context = key;
        pending = true;
      } in
      let fresh_key : any (is_pending key) s.questions ≡ false = ground (arith, e) in
      let size : pending_count j (s.questions ++ (q ∷ [])) ≤ 1 = elim (Bool-cases (same key j)) [
        | inl f ↦
            let none_yet : pending_count j s.questions ≡ 0 =
              subst (λ k. pending_count k s.questions ≡ 0) (same_eq key j f)
                (no_pending key s.questions fresh_key) in
            ground (arith, count_append j s.questions q)
        | inr f ↦ ground (arith, count_append j s.questions q, f)
      ] in
      rw e size
]

-- The request leaves at most one pending question on a key, if there was at most one.
pub request_approval-pending_count :
    (env : Env) (action question j : Bytes) (s : State)
    → pending_count j s.questions ≤ 1
    → pending_count j (request_approval env action question s).state.questions ≤ 1
unfolding request_approval
request_approval-pending_count env action question j s h =
    let after = ask_count env question (key_of action) j s h in
    elim (Bool-cases (is_approval_denied env action s)) [
      | inl e ↦ rw e h
      | inr e ↦ elim (Bool-cases env.pauses) [ inl f ↦ rw (e, f) after | inr f ↦ rw (e, f) after ]
    ]

one_of-approves :
    (words : List Bytes) (a : Bytes)
    → All (λ w. approves w ≡ false) words
    → one_of words a ≡ true
    → approves a ≡ false
one_of-approves [] a h m = cc
one_of-approves (w ∷ words) a h m = elim (Bool-cases (same a w)) [
  | inl e ↦ subst (λ x. approves x ≡ false) (sym (same_eq a w e)) h.0
  | inr e ↦ let m' = rw e at m in one_of-approves words a h.1 m'
]

-- No answer of the owner both approves and denies.
denies-approves : (a : Bytes) → denies a ≡ true → approves a ≡ false
denies-approves a h = one_of-approves denials a (refl, (refl, (refl, (refl, (refl, (refl, tt)))))) h

answered-approves : (o : Option Bytes) → answered denies o ≡ true → answered approves o ≡ false
answered-approves none h = cc
answered-approves (some a) h = denies-approves (normalized a) h

denied-check_approval :
    (env : Env) (action : Bytes) (s : State)
    → is_approval_denied env action s ≡ true
    → check_approval env action s ≡ false
unfolding check_approval is_approval_denied
denied-check_approval env action s h =
    ground (arith, h, answered-approves (latest_answer (key_of action) s))

-- The owner's latest answer on the action can be read and is a denial.
abbrev pub Denied : Env → Bytes → State → Type 0
Denied env action s =
    (answer : Bytes) × (env.reads ≡ true)
    × (latest_answer (key_of action) s ≡ some answer)
    × (denies (normalized answer) ≡ true)

-- The owner has a question on the action to answer, unless the table cannot be read or written.
abbrev pub Asked : Env → Bytes → State → Type 0
Asked env action after =
    (any (is_pending (key_of action)) after.questions ≡ true)
    ⊎ ((env.looks_up && env.inserts) ≡ false)

-- What each verdict means, by the state before and after.
abbrev pub Means : Env → Bytes → State → Verdict → State → Type 0
Means env action s action_denied after = (after ≡ s) × (check_approval env action s ≡ false)
Means env action s pause_failed after = (after.row ≡ s.row) × Asked env action after
Means env action s approval_required after =
    (after.row.paused ≡ true) × (after.row.pause_reason ≡ some approval) × Asked env action after

ask_row : (env : Env) (question key : Bytes) (s : State) → (ask env question key s).row ≡ s.row
ask_row env question key s = elim (Bool-cases (asks env key s)) [
  | inl e ↦ rw e refl
  | inr e ↦ rw e refl
]

answered_iff :
    (o : Option Bytes)
    → answered denies o ≡ true
    → (answer : Bytes) × (o ≡ some answer) × (denies (normalized answer) ≡ true)
answered_iff none h = cc
answered_iff (some answer) h = (answer, refl, h)

refusal_of :
    (env : Env) (action : Bytes) (s : State)
    → is_approval_denied env action s ≡ true
    → Denied env action s
unfolding is_approval_denied
refusal_of env action s h =
    let reads : env.reads ≡ true = ground arith in
    let denied : answered denies (latest_answer (key_of action) s) ≡ true = ground arith in
    let (answer, e, d) = answered_iff (latest_answer (key_of action) s) denied in
    (answer, reads, e, d)

refusal_for :
    (env : Env) (action : Bytes) (s : State)
    → Denied env action s
    → is_approval_denied env action s ≡ true
unfolding is_approval_denied
refusal_for env action s (answer, reads, e, d) = rw (reads, e) d

asked_now :
    (qs : List Question) (key question : Bytes) (id : ℕ)
    → any
        (is_pending key)
        (qs ++ (record { id = id; text = question; context = key; pending = true } ∷ []))
      ≡ true
asked_now [] key question id = rw (same_refl key) refl
asked_now (q ∷ qs) key question id = ground (arith, asked_now qs key question id)

ask-Asked :
    (env : Env) (question action : Bytes) (s : State)
    → Asked env action (ask env question (key_of action) s)
ask-Asked env question action s = elim (Bool-cases (env.looks_up && env.inserts)) [
  | inr e ↦ inr e
  | inl e ↦ elim (Bool-cases (any (is_pending (key_of action)) s.questions)) [
    | inl f ↦ let skips : asks env (key_of action) s ≡ false = ground (arith, f) in rw skips (inl f)
    | inr f ↦
        let does : asks env (key_of action) s ≡ true = ground (arith, e, f) in
        rw does (inl (asked_now s.questions (key_of action) question s.next_id))
  ]
]

-- The request is refused if and only if the owner's latest answer is a denial, and then the tables and the
-- pipeline are as they were and the action is not approved. Else there is a pending question on the action,
-- if the tables can be read and written, and the pipeline is paused to wait for the owner's approval, or its
-- row is as it was where the write failed.
pub request_approval-Means :
    (env : Env) (action question : Bytes) (s : State)
    → (((request_approval env action question s).verdict ≡ action_denied) ↔ Denied env action s)
      × Means env action s
          (request_approval env action question s).verdict
          (request_approval env action question s).state
unfolding request_approval pause
request_approval-Means env action question s = elim (Bool-cases (is_approval_denied env action s)) [
  | inl e ↦
      rw e (
        ((λ h. refusal_of env action s e, λ d. refl), (refl, denied-check_approval env action s e)))
  | inr e ↦
      let asked = ask-Asked env question action s in
      let no_denial : Denied env action s → ⊥ = λ d. let yes = refusal_for env action s d in cc in
      elim (Bool-cases env.pauses) [
        | inl f ↦ rw (e, f) (((λ h. cc, λ d. absurd (no_denial d)), (refl, refl, asked)))
        | inr f ↦
            rw (e, f)
              ((
                (λ h. cc, λ d. absurd (no_denial d)),
                (ask_row env question (key_of action) s, asked),
              ))
      ]
]
