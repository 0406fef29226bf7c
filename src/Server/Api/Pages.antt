-- ===== src/Server/Api/Pages.antt =====
-- The pages whose path has parameters, and the pages tried for the home page (server/public/handler.go).
use ho.Prelude.{ℕ, ◌≡◌, refl, sym, ap, ◌∙◌, subst}
use ho.Prelude.{◌⊎◌, inl, inr, Bool, false, ◌||◌, Option, none, some}
use ho.Prelude.{List, [], ◌∷◌, map, arith, if◌then◌else◌, ◌==◌, Bool-cases, Option-cases}
use ho.Prelude.{any}
use mathlib.Core.Option.{some-injective}
use ho.Prelude.Bytes.{Bytes, codes, same, same_refl, same_eq, split}
use ho.Prelude.Dict.{bytes_eq, find, put, find-put}

abbrev pub home_fallbacks : Bytes → List Bytes
home_fallbacks path =
    if same path (codes "/")
    then codes "/index.html" ∷ codes "/index" ∷ codes "/home" ∷ []
    else if same path (codes "/index.html") || same path (codes "/index")
    then codes "/" ∷ []
    else []

abbrev pub slash : ℕ
slash = 47

abbrev pub colon : ℕ
colon = 58

-- The name of a part that stands for a parameter.
abbrev pub param_name : Bytes → Option Bytes
param_name [] = none
param_name (c ∷ name) = if c == colon then some name else none

abbrev pub bind_option : {A B : Type 0} → Option A → (A → Option B) → Option B
bind_option none f = none
bind_option (some a) f = f a

-- One part of a candidate against one of the request.
abbrev pub take_part :
    Option Bytes → Bytes → Bytes → List (Bytes × Bytes) → Option (List (Bytes × Bytes))
take_part none c q params = if same c q then some params else none
take_part (some name) c q params = some (put name q params)

-- The loop over the parts of a candidate, with the parameters extracted so far. Paths of different
-- lengths do not match.
unfoldable pub extract :
    List Bytes → List Bytes → List (Bytes × Bytes) → Option (List (Bytes × Bytes))
extract [] [] params = some params
extract [] (q ∷ qs) params = none
extract (c ∷ cs) [] params = none
extract (c ∷ cs) (q ∷ qs) params = bind_option (take_part (param_name c) c q params) (extract cs qs)

abbrev pub first_match :
    Bytes
    → Option (List (Bytes × Bytes))
    → Option (Bytes × List (Bytes × Bytes))
    → Option (Bytes × List (Bytes × Bytes))
first_match candidate none rest = rest
first_match candidate (some params) rest = some (candidate, params)

-- The first of the published pages with parameters that matches, with its parameters.
unfoldable pub find_param_page : List Bytes → Bytes → Option (Bytes × List (Bytes × Bytes))
find_param_page [] path = none
find_param_page (candidate ∷ pages) path =
    first_match candidate (extract (split slash candidate) (split slash path) [])
      (find_param_page pages path)

-- The path's part for a part of a page, by the parameters.
abbrev pub fill_name : List (Bytes × Bytes) → Bytes → Option Bytes → Option Bytes
fill_name params c none = some c
fill_name params c (some name) = find name params

abbrev pub fill : List (Bytes × Bytes) → Bytes → Option Bytes
fill params c = fill_name params c (param_name c)

abbrev pub is_name : Bytes → Option Bytes → Bool
is_name name none = false
is_name name (some n) = same n name

abbrev pub has_name : Bytes → Bytes → Bool
has_name name c = is_name name (param_name c)

abbrev pub IsFresh : Option Bytes → List Bytes → Type 0
IsFresh none cs = Unit
IsFresh (some name) cs = any (has_name name) cs ≡ false

-- No parameter twice
abbrev pub IsTemplate : List Bytes → Type 0
IsTemplate [] = Unit
IsTemplate (c ∷ cs) = IsFresh (param_name c) cs × IsTemplate cs

extract_keeps :
    (name : Bytes) (cs qs : List Bytes) (params out : List (Bytes × Bytes))
    → any (has_name name) cs ≡ false
    → extract cs qs params ≡ some out
    → find name out ≡ find name params
unfolding extract
extract_keeps name [] [] params out n h = ap (find name) (sym (some-injective _ _ h))
extract_keeps name [] (q ∷ qs) params out n h = cc
extract_keeps name (c ∷ cs) [] params out n h = cc
extract_keeps name (c ∷ cs) (q ∷ qs) params out n h = elim (Option-cases (param_name c)) [
  | inl e ↦
      let n' : any (has_name name) cs ≡ false = rw e at n in
      elim (Bool-cases (same c q)) [
        | inl f ↦ let h' = rw (e, f) at h in extract_keeps name cs qs params out n' h'
        | inr f ↦ let no : none ≡ some out = rw (e, f) at h in cc
      ]
  | inr e ↦
      let n' : (same e.0 name || any (has_name name) cs) ≡ false = rw e.1 at n in
      let other : same e.0 name ≡ false = ground (arith, n') in
      let later : any (has_name name) cs ≡ false = ground (arith, n') in
      let h' : extract cs qs (put e.0 q params) ≡ some out = rw e.1 at h in
      extract_keeps name cs qs (put e.0 q params) out later h'
      ∙ find-put e.0 name q params
      ∙ rw other refl
]

extract-fill :
    (cs qs : List Bytes) (params out : List (Bytes × Bytes))
    → IsTemplate cs
    → extract cs qs params ≡ some out
    → map (fill out) cs ≡ map some qs
unfolding extract
extract-fill [] [] params out t h = refl
extract-fill [] (q ∷ qs) params out t h = cc
extract-fill (c ∷ cs) [] params out t h = cc
extract-fill (c ∷ cs) (q ∷ qs) params out t h = elim (Option-cases (param_name c)) [
  | inl e ↦ elim (Bool-cases (same c q)) [
    | inl f ↦
        let h' = rw (e, f) at h in
        rw (e, extract-fill cs qs params out t.1 h')
          (ap (λ x. some x ∷ map some qs) (same_eq c q f))
    | inr f ↦ let no : none ≡ some out = rw (e, f) at h in cc
  ]
  | inr e ↦
      let fresh : any (has_name e.0) cs ≡ false = rw e.1 at t.0 in
      let h' : extract cs qs (put e.0 q params) ≡ some out = rw e.1 at h in
      let here : find e.0 out ≡ some q =
        extract_keeps e.0 cs qs (put e.0 q params) out fresh h'
        ∙ (find-put e.0 e.0 q params ∙ rw (same_refl e.0) refl) in
      rw (e.1, here, extract-fill cs qs (put e.0 q params) out t.1 h') refl
]

-- The page that is found is one of the pages, it matches the path, and no page before it does.
abbrev pub IsFirst : List Bytes → Bytes → Bytes → List (Bytes × Bytes) → Type 0
IsFirst [] path page params = ⊥
IsFirst (candidate ∷ pages) path page params =
    ((candidate ≡ page) × (extract (split slash candidate) (split slash path) [] ≡ some params))
    ⊎ ((extract (split slash candidate) (split slash path) [] ≡ none)
        × IsFirst pages path page params)

find_param_page-IsFirst :
    (pages : List Bytes) (path page : Bytes) (params : List (Bytes × Bytes))
    → find_param_page pages path ≡ some (page, params)
    → IsFirst pages path page params
unfolding find_param_page
find_param_page-IsFirst [] path page params h = cc
find_param_page-IsFirst (candidate ∷ pages) path page params h =
    elim (Option-cases (extract (split slash candidate) (split slash path) [])) [
      | inl e ↦
          let h' : find_param_page pages path ≡ some (page, params) = rw e at h in
          inr (e, find_param_page-IsFirst pages path page params h')
      | inr e ↦
          let h' : some (candidate, e.0) ≡ some (page, params) = rw e.1 at h in
          let pair = some-injective _ _ h' in
          inl (ap (λ x. x.0) pair, e.1 ∙ ap (λ x. some x.1) pair)
    ]

IsFirst-extract :
    (pages : List Bytes) (path page : Bytes) (params : List (Bytes × Bytes))
    → IsFirst pages path page params
    → extract (split slash page) (split slash path) [] ≡ some params
IsFirst-extract [] path page params h = absurd h
IsFirst-extract (candidate ∷ pages) path page params h = elim h [
  | inl m ↦ subst (λ c. extract (split slash c) (split slash path) [] ≡ some params) m.0 m.1
  | inr m ↦ IsFirst-extract pages path page params m.1
]

-- The page that is found for a path, the first that matches, gives the path back when its parameters are
-- filled in, if no parameter stands in it twice.
pub find_param_page-fill :
    (pages : List Bytes) (path page : Bytes) (params : List (Bytes × Bytes))
    → IsTemplate (split slash page)
    → find_param_page pages path ≡ some (page, params)
    → IsFirst pages path page params
      × (map (fill params) (split slash page) ≡ map some (split slash path))
find_param_page-fill pages path page params t h =
    let first = find_param_page-IsFirst pages path page params h in
    (
      first,
      extract-fill (split slash page) (split slash path) [] params t
          (IsFirst-extract pages path page params first),
    )
