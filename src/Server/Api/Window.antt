-- ===== src/Server/Api/Window.antt =====
-- The limit on requests of a site's LLM endpoint in a minute: checkLLMRateLimit of
-- server/public/handler.go. Times are whole nanoseconds.
use ho.Prelude.{ℕ, ◌+◌, ◌≤◌, ◌<◌, ◌≡◌, refl, sym, ap, ◌∙◌, subst}
use ho.Prelude.{inl, inr, Bool, true, false, Option, none, some}
use ho.Prelude.{List, [], ◌∷◌, ◌++◌, arith, if◌then◌else◌, ltb, leb, Bool-cases}
use ho.Prelude.{length, select, length-append, length-select}
use ho.Prelude.{max}
use ho.Prelude.Bytes.{Bytes, same_refl}
use ho.Prelude.Dict.{bytes_eq, find, put, find-put}

abbrev pub minute : ℕ
minute = 60000000000

-- ts.After(now - minute)
abbrev pub is_recent : ℕ → ℕ → Bool
is_recent now ts = ltb now (ts + minute)

abbrev pub or_none : Option (List ℕ) → List ℕ
or_none none = []
or_none (some ts) = ts

-- The timestamps of a key
abbrev pub stamps : Bytes → List (Bytes × List ℕ) → List ℕ
stamps key counts = or_none (find key counts)

-- The answer, and the timestamps left.
unfoldable pub check_llm_rate_limit :
    Bytes → ℕ → ℕ → List (Bytes × List ℕ) → Bool × List (Bytes × List ℕ)
check_llm_rate_limit key max now counts =
    let valid = select (is_recent now) (stamps key counts) in
    if leb max (length valid)
    then (false, put key valid counts)
    else (true, put key (valid ++ (now ∷ [])) counts)

-- Requests on one key, the time of each since the one before; with the times of those let through.
unfoldable pub run :
    Bytes → ℕ → ℕ → List ℕ → List (Bytes × List ℕ) × List ℕ → List (Bytes × List ℕ) × List ℕ
run key max now [] state = state
run key max now (wait ∷ waits) (counts, passed) =
    let at = now + wait in
    let (ok, next) = check_llm_rate_limit key max at counts in
    run key max at waits (next, if ok then passed ++ (at ∷ []) else passed)

-- The time of the last of the requests
abbrev pub end_time : ℕ → List ℕ → ℕ
end_time now [] = now
end_time now (wait ∷ waits) = end_time (now + wait) waits

-- A later window holds no time that an earlier one did not.
select-select :
    (now later : ℕ) (ts : List ℕ)
    → now ≤ later
    → select (is_recent later) (select (is_recent now) ts) ≡ select (is_recent later) ts
select-select now later [] h = refl
select-select now later (t ∷ ts) h =
    let shorter : ltb later (t + minute) ≡ true → ltb now (t + minute) ≡ true = λ q. ground arith in
    elim (Bool-cases (ltb later (t + minute))) [
      | inl p ↦ rw (p, shorter p, p) (ap (λ xs. t ∷ xs) (select-select now later ts h))
      | inr p ↦ elim (Bool-cases (ltb now (t + minute))) [
        | inl q ↦ rw (p, q, p) (select-select now later ts h)
        | inr q ↦ rw (p, q) (select-select now later ts h)
      ]
    ]

select-append : (p : ℕ → Bool) (xs ys : List ℕ) → select p (xs ++ ys) ≡ select p xs ++ select p ys
select-append p [] ys = refl
select-append p (x ∷ xs) ys = ground (arith, select-append p xs ys)

-- The timestamps kept tell, of every window from now on, how many requests were let through in it.
abbrev Agrees : ℕ → ℕ → List ℕ → List ℕ → Type 0
Agrees max now kept passed =
    ((wait : ℕ) → select (is_recent (now + wait)) kept ≡ select (is_recent (now + wait)) passed)
    × (length (select (is_recent now) passed) ≤ max)

window_shrinks :
    (now wait : ℕ) (ts : List ℕ)
    → length (select (is_recent (now + wait)) ts) ≤ length (select (is_recent now) ts)
window_shrinks now wait ts =
    subst (λ xs. length xs ≤ length (select (is_recent now) ts))
      (select-select now (now + wait) ts (omega arith))
      (length-select (is_recent (now + wait)) (select (is_recent now) ts))

-- What is dropped from the timestamps of a moment is not missed later.
agree_later :
    (now wait : ℕ) (kept passed : List ℕ)
    → ((w : ℕ) → select (is_recent (now + w)) kept ≡ select (is_recent (now + w)) passed)
    → (w : ℕ)
    → select (is_recent (now + wait + w)) (select (is_recent (now + wait)) kept)
      ≡ select (is_recent (now + wait + w)) passed
agree_later now wait kept passed h w =
    let sum : now + (wait + w) ≡ now + wait + w = omega arith in
    select-select (now + wait) (now + wait + w) kept (omega arith)
    ∙ subst (λ t. select (is_recent t) kept ≡ select (is_recent t) passed) sum (h (wait + w))

stamps-put :
    (key : Bytes) (ts : List ℕ) (counts : List (Bytes × List ℕ))
    → stamps key (put key ts counts) ≡ ts
stamps-put key ts counts =
    let here : find key (put key ts counts) ≡ some ts =
      find-put key key ts counts ∙ rw (same_refl key) refl in
    ap or_none here

-- One request keeps the agreement, let through or not.
step-Agrees :
    (key : Bytes) (max now wait : ℕ) (counts : List (Bytes × List ℕ)) (passed : List ℕ)
    → Agrees max now (stamps key counts) passed
    → Agrees max (now + wait) (stamps key (check_llm_rate_limit key max (now + wait) counts).1) (
        if (check_llm_rate_limit key max (now + wait) counts).0
        then passed ++ ((now + wait) ∷ [])
        else passed)
unfolding check_llm_rate_limit
step-Agrees key max now wait counts passed h =
    let at = now + wait in
    let valid = select (is_recent at) (stamps key counts) in
    let same_window : valid ≡ select (is_recent at) passed = h.0 wait in
    let fewer : length (select (is_recent at) passed) ≤ max =
      omega (arith, window_shrinks now wait passed, h.1) in
    elim (Bool-cases (leb max (length valid))) [
      | inl e ↦
          rw (e, stamps-put key valid counts)
            ((agree_later now wait (stamps key counts) passed h.0, fewer))
      | inr e ↦
          let counted : length valid ≡ length (select (is_recent at) passed) =
            ap length same_window in
          let room : length valid < max = ground arith in
          let size : length (select (is_recent at) (passed ++ (at ∷ []))) ≤ max =
            subst (λ xs. length xs ≤ max) (sym (select-append (is_recent at) passed (at ∷ [])))
              (omega (
                arith,
                length-append (select (is_recent at) passed) (select (is_recent at) (at ∷ [])),
                length-select (is_recent at) (at ∷ []),
                counted,
              )) in
          let agree : (w : ℕ)
              → select (is_recent (at + w)) (valid ++ (at ∷ []))
                ≡ select (is_recent (at + w)) (passed ++ (at ∷ [])) =
            λ w.
              select-append (is_recent (at + w)) valid (at ∷ [])
              ∙ ap (λ xs. xs ++ select (is_recent (at + w)) (at ∷ []))
                  (agree_later now wait (stamps key counts) passed h.0 w)
              ∙ sym (select-append (is_recent (at + w)) passed (at ∷ [])) in
          rw (e, stamps-put key (valid ++ (at ∷ [])) counts) ((agree, size))
    ]

run-Agrees :
    (key : Bytes) (max now : ℕ) (waits : List ℕ) (counts : List (Bytes × List ℕ)) (passed : List ℕ)
    → Agrees max now (stamps key counts) passed
    → length (select (is_recent (end_time now waits)) (run key max now waits (counts, passed)).1)
      ≤ max
unfolding run
run-Agrees key max now [] counts passed h = h.1
run-Agrees key max now (wait ∷ waits) counts passed h =
    let (ok, next) = check_llm_rate_limit key max (now + wait) counts in
    run-Agrees key max (now + wait) waits next
      (if ok then passed ++ ((now + wait) ∷ []) else passed)
      (step-Agrees key max now wait counts passed h)

-- However the requests on a key are spaced, at the time of each no more than the limit have been let
-- through in the minute before it, itself counted.
pub run-is_recent :
    (key : Bytes) (max now : ℕ) (waits : List ℕ)
    → length (select (is_recent (end_time now waits)) (run key max now waits ([], [])).1) ≤ max
run-is_recent key max now waits = run-Agrees key max now waits [] [] ((λ w. refl), omega arith)
