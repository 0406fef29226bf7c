-- ===== src/Tools/Registry/Filtered.antt =====
-- The lists of tools are determined by what is registered, and the filtered list is part of the whole
-- (tools/registry.go).
use ho.Tools.Registry.{Tool, Registry, register, names, sorted_names, tools_of, list_tools, def_of}
use ho.Tools.Registry.{
  to_llm_tools, to_llm_tools_filtered, before, is_name, IsSorted, IsDistinct, sort_names-IsSorted,
  sort_names-any,
}
use ho.Tools.Registry.{before_irreflexive, before_trans}
use ho.Prelude.{◌≡◌, refl, sym, ap, ◌∙◌, subst}
use ho.Prelude.{inl, inr, Bool, true, false, ◌||◌}
use ho.Prelude.{List, [], ◌∷◌, map, Bool-cases, Option-cases}
use ho.Prelude.{All, select}
use ho.Prelude.Bytes.{Bytes, same, same_refl, same_eq}
use ho.Prelude.Dict.{
  bytes_eq, find, has_key, IsDict, put-IsDict, put-All, find-All, is_found, has_key-find,
}

-- Each tool stands under its own name, once.
abbrev pub IsValid : Registry → Type 0
IsValid r = IsDict r × All (λ entry. entry.1.name ≡ entry.0) r

pub register-IsValid : (t : Tool) (r : Registry) → IsValid r → IsValid (register t r)
unfolding register
register-IsValid t r v = (
  put-IsDict t.name t r v.0,
  put-All (λ entry. entry.1.name ≡ entry.0) t.name t r (λ k e. sym (same_eq k t.name e)) v.1,
)

names-any : (k : Bytes) (r : Registry) → is_name k (names r) ≡ has_key k r
names-any k [] = refl
names-any k ((j, t) ∷ r) = ap (λ b. same j k || b) (names-any k r)

names-IsDistinct : (r : Registry) → IsDict r → IsDistinct (names r)
names-IsDistinct [] d = tt
names-IsDistinct ((k, t) ∷ r) d = (names-any k r ∙ d.0, names-IsDistinct r d.1)

sorted_names-IsSorted : (r : Registry) → IsDict r → IsSorted (sorted_names r)
unfolding sorted_names
sorted_names-IsSorted r d = sort_names-IsSorted (names r) (names-IsDistinct r d)

sorted_names-any : (k : Bytes) (r : Registry) → is_name k (sorted_names r) ≡ has_key k r
unfolding sorted_names
sorted_names-any k r = sort_names-any (λ y. same y k) (names r) ∙ names-any k r

-- The first of a sorted list is not among the others.
head_out : (x : Bytes) (xs : List Bytes) → All (λ y. before x y ≡ true) xs → is_name x xs ≡ false
head_out x [] h = refl
head_out x (y ∷ ys) h = elim (Bool-cases (same y x)) [
  | inl e ↦
      let loop : before x x ≡ true = subst (λ z. before x z ≡ true) (same_eq y x e) h.0 in
      let no = before_irreflexive x in cc
  | inr e ↦ rw e (head_out x ys h.1)
]

before_member :
    (x k : Bytes) (xs : List Bytes)
    → All (λ y. before x y ≡ true) xs
    → is_name k xs ≡ true
    → before x k ≡ true
before_member x k [] h m = cc
before_member x k (y ∷ ys) h m = elim (Bool-cases (same y k)) [
  | inl e ↦ subst (λ z. before x z ≡ true) (same_eq y k e) h.0
  | inr e ↦ let m' = rw e at m in before_member x k ys h.1 m'
]

-- The heads of two sorted lists with the same names are the same.
heads_agree :
    (x y : Bytes) (xs ys : List Bytes)
    → IsSorted (x ∷ xs)
    → IsSorted (y ∷ ys)
    → is_name x (y ∷ ys) ≡ true
    → is_name y (x ∷ xs) ≡ true
    → x ≡ y
heads_agree x y xs ys s t m n = elim (Bool-cases (same y x)) [
  | inl e ↦ sym (same_eq y x e)
  | inr e ↦ elim (Bool-cases (same x y)) [
    | inl f ↦ same_eq x y f
    | inr f ↦
        let m' = rw e at m in
        let n' = rw f at n in
        let loop : before x x ≡ true =
          before_trans x y x (before_member x y xs s.0 n') (before_member y x ys t.0 m') in
        let no = before_irreflexive x in cc
  ]
]

tails_agree :
    (x k : Bytes) (xs ys : List Bytes)
    → IsSorted (x ∷ xs)
    → IsSorted (x ∷ ys)
    → is_name k (x ∷ xs) ≡ is_name k (x ∷ ys)
    → is_name k xs ≡ is_name k ys
tails_agree x k xs ys s t m = elim (Bool-cases (same x k)) [
  | inl e ↦
      let here = same_eq x k e in
      subst (λ j. is_name j xs ≡ is_name j ys) here (head_out x xs s.0 ∙ sym (head_out x ys t.0))
  | inr e ↦ rw e at m
]

-- A sorted list is determined by its names.
sorted_unique :
    (xs ys : List Bytes)
    → IsSorted xs
    → IsSorted ys
    → ((k : Bytes) → is_name k xs ≡ is_name k ys)
    → xs ≡ ys
sorted_unique [] [] s t m = refl
sorted_unique [] (y ∷ ys) s t m =
    let at = m y in let here = same_refl y in let at' = rw here at at in cc
sorted_unique (x ∷ xs) [] s t m =
    let at = m x in let here = same_refl x in let at' = rw here at at in cc
sorted_unique (x ∷ xs) (y ∷ ys) s t m =
    let x_first : is_name x (x ∷ xs) ≡ true = rw (same_refl x) refl in
    let y_first : is_name y (y ∷ ys) ≡ true = rw (same_refl y) refl in
    let head : x ≡ y = heads_agree x y xs ys s t (sym (m x) ∙ x_first) (m y ∙ y_first) in
    let t' : IsSorted (x ∷ ys) = subst (λ z. IsSorted (z ∷ ys)) (sym head) t in
    let tail : xs ≡ ys =
      sorted_unique xs ys s.1 t.1
        (λ k. tails_agree x k xs ys s t' (m k ∙ ap (λ z. is_name k (z ∷ ys)) (sym head))) in
    ap (λ z. z ∷ xs) head ∙ ap (λ zs. y ∷ zs) tail

tools_of-find :
    (r s : Registry) (ns : List Bytes)
    → ((k : Bytes) → find k r ≡ find k s)
    → tools_of r ns ≡ tools_of s ns
tools_of-find r s [] m = refl
tools_of-find r s (n ∷ ns) m = rw (m n, tools_of-find r s ns m) refl

-- Registries that give the same tool for every name list their tools alike: the order in which the tools
-- were registered, and the order of Go's map, do not show.
pub list_tools-find :
    (r s : Registry)
    → IsValid r
    → IsValid s
    → ((k : Bytes) → find k r ≡ find k s)
    → list_tools r ≡ list_tools s
unfolding list_tools
list_tools-find r s v w m =
    let agree : (k : Bytes) → is_name k (sorted_names r) ≡ is_name k (sorted_names s) = λ k.
      sorted_names-any k r
      ∙ (has_key-find k r ∙ ap is_found (m k) ∙ sym (has_key-find k s))
      ∙ sym (sorted_names-any k s) in
    let order : sorted_names r ≡ sorted_names s =
      sorted_unique (sorted_names r) (sorted_names s) (sorted_names-IsSorted r v.0)
        (sorted_names-IsSorted s w.0) agree in
    tools_of-find r s (sorted_names r) m ∙ ap (tools_of s) order

defs_of-select :
    (allowed : Bytes → Bool) (r : Registry) (ns : List Bytes)
    → IsValid r
    → map def_of (tools_of r (select allowed ns))
      ≡ select (λ d. allowed d.name) (map def_of (tools_of r ns))
defs_of-select allowed r [] v = refl
defs_of-select allowed r (n ∷ ns) v = elim (Option-cases (find n r)) [
  | inl e ↦ elim (Bool-cases (allowed n)) [
    | inl a ↦ rw (a, e) (defs_of-select allowed r ns v)
    | inr a ↦ rw (a, e) (defs_of-select allowed r ns v)
  ]
  | inr e ↦
      let own : e.0.name ≡ n = find-All (λ entry. entry.1.name ≡ entry.0) n e.0 r e.1 v.1 in
      elim (Bool-cases (allowed n)) [
        | inl a ↦
            let permitted : allowed e.0.name ≡ true = ap allowed own ∙ a in
            rw (a, e.1, permitted) (ap (λ ds. def_of e.0 ∷ ds) (defs_of-select allowed r ns v))
        | inr a ↦
            let refused : allowed e.0.name ≡ false = ap allowed own ∙ a in
            rw (a, e.1, refused) (defs_of-select allowed r ns v)
      ]
]

-- The definitions for a set of tools are those definitions of all tools whose name is in the set, in the
-- same order.
pub to_llm_tools_filtered-select :
    (allowed : Bytes → Bool) (r : Registry)
    → IsValid r
    → to_llm_tools_filtered allowed r ≡ select (λ d. allowed d.name) (to_llm_tools r)
unfolding to_llm_tools to_llm_tools_filtered
to_llm_tools_filtered-select allowed r v = defs_of-select allowed r (sorted_names r) v
