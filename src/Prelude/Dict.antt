-- ===== src/Prelude/Dict.antt =====
-- A map as an association list with one entry a key; a key's test of equality is an instance.
use Prim.Native.Nat.{ℕ, ◌≤◌}
use mathlib.Core.Path.{◌≡◌, refl, sym, ap, ◌∙◌, subst}
use mathlib.Core.Logic.{◌↔◌, inl, inr}
use mathlib.Core.Bool.{Bool, true, false, ◌||◌}
use mathlib.Core.Option.{Option, none, some, some-injective}
use mathlib.Core.List.{List, [], ◌∷◌, ◌++◌}
use native.Mathlib.Omega.{arith}
use ho.Prelude.Tests.{if◌then◌else◌, Bool-cases, ◌==◌ as nat_beq, ==_iff}
use ho.Prelude.Lists.{All, length}
use ho.Prelude.Bytes.{Bytes, same, same_iff}

pub record Eq (K : Type 0) : Type 0 where
  pub beq : K → K → Bool
  pub beq_iff : (a b : K) → (beq a b ≡ true) ↔ (a ≡ b)

instance abbrev pub nat_eq : Eq ℕ
nat_eq = record { beq = nat_beq; beq_iff = ==_iff }

instance abbrev pub bytes_eq : Eq Bytes
bytes_eq = record { beq = same; beq_iff = same_iff }

module _ {K : Type 0} ⦃e : Eq K⦄ where
  beq_chain : (k key j : K) → e.beq k key ≡ true → e.beq k j ≡ e.beq key j
  beq_chain k key j h = ap (λ x. e.beq x j) ((e.beq_iff k key).0 h)

  beq_apart : (k key j : K) → e.beq k key ≡ false → e.beq k j ≡ true → e.beq key j ≡ false
  beq_apart k key j h p = elim (Bool-cases (e.beq key j)) [
    | inl q ↦
        let same_key : k ≡ key = (e.beq_iff k j).0 p ∙ sym ((e.beq_iff key j).0 q) in
        let hit : e.beq k key ≡ true = (e.beq_iff k key).1 same_key in cc
    | inr q ↦ q
  ]

  pub beq_refl : (k : K) → e.beq k k ≡ true
  beq_refl k = (e.beq_iff k k).1 refl

  beq_sym : (k key : K) → e.beq k key ≡ false → e.beq key k ≡ false
  beq_sym k key h = beq_apart k key k h (beq_refl k)

abbrev pub is_found : {A : Type 0} → Option A → Bool
is_found none = false
is_found (some a) = true

module _ {K A : Type 0} ⦃e : Eq K⦄ where
  abbrev pub find : K → List (K × A) → Option A
  find key [] = none
  find key ((k, a) ∷ d) = if e.beq k key then some a else find key d

  -- A key that is there keeps its place.
  abbrev pub put : K → A → List (K × A) → List (K × A)
  put key a [] = (key, a) ∷ []
  put key a ((k, b) ∷ d) = if e.beq k key then (k, a) ∷ d else (k, b) ∷ put key a d

  abbrev pub remove : K → List (K × A) → List (K × A)
  remove key [] = []
  remove key ((k, a) ∷ d) = let rest = remove key d in if e.beq k key then rest else (k, a) ∷ rest

  abbrev pub has_key : K → List (K × A) → Bool
  has_key key [] = false
  has_key key ((k, a) ∷ d) = e.beq k key || has_key key d

  -- No key stands twice.
  abbrev pub IsDict : List (K × A) → Type 0
  IsDict [] = Unit
  IsDict ((k, a) ∷ d) = (has_key k d ≡ false) × IsDict d

  pub find-put :
      (key j : K) (a : A) (d : List (K × A))
      → find j (put key a d) ≡ (if e.beq key j then some a else find j d)
  find-put key j a [] = refl
  find-put key j a ((k, b) ∷ d) = elim (Bool-cases (e.beq k key)) [
    | inl h ↦ rw h (ground (arith, beq_chain k key j h))
    | inr h ↦ rw h (ground (arith, find-put key j a d, beq_apart k key j h))
  ]

  pub find-remove :
      (key j : K) (d : List (K × A))
      → find j (remove key d) ≡ (if e.beq key j then none else find j d)
  find-remove key j [] = ground arith
  find-remove key j ((k, b) ∷ d) = elim (Bool-cases (e.beq k key)) [
    | inl h ↦ elim (Bool-cases (e.beq k j)) [
      | inl p ↦
          let q : e.beq key j ≡ true = sym (beq_chain k key j h) ∙ p in
          rw (h, p) (ground (arith, find-remove key j d, q))
      | inr p ↦ rw (h, p) (find-remove key j d)
    ]
    | inr h ↦ elim (Bool-cases (e.beq k j)) [
      | inl p ↦ rw (h, p, beq_apart k key j h p) (ground arith)
      | inr p ↦ rw (h, p) (find-remove key j d)
    ]
  ]

  pub has_key-put :
      (key j : K) (a : A) (d : List (K × A))
      → has_key j (put key a d) ≡ (e.beq key j || has_key j d)
  has_key-put key j a [] = refl
  has_key-put key j a ((k, b) ∷ d) = elim (Bool-cases (e.beq k key)) [
    | inl h ↦ rw h (ground (arith, beq_chain k key j h))
    | inr h ↦ rw h (ground (arith, has_key-put key j a d))
  ]

  pub has_key-remove :
      (key j : K) (d : List (K × A)) → has_key j d ≡ false → has_key j (remove key d) ≡ false
  has_key-remove key j [] h = refl
  has_key-remove key j ((k, a) ∷ d) h = ground (arith, h, has_key-remove key j d)

  pub put-IsDict : (key : K) (a : A) (d : List (K × A)) → IsDict d → IsDict (put key a d)
  put-IsDict key a [] h = (refl, tt)
  put-IsDict key a ((k, b) ∷ d) h = elim (Bool-cases (e.beq k key)) [
    | inl hit ↦ rw hit h
    | inr miss ↦
        rw miss (ground (arith, has_key-put key k a d, beq_sym k key), put-IsDict key a d h.1)
  ]

  pub remove-IsDict : (key : K) (d : List (K × A)) → IsDict d → IsDict (remove key d)
  remove-IsDict key [] h = tt
  remove-IsDict key ((k, a) ∷ d) h = ground (arith, h, has_key-remove key k d, remove-IsDict key d)

  pub put-All :
      (P : K × A → Type 0) (key : K) (a : A) (d : List (K × A))
      → ((k : K) → e.beq k key ≡ true → P (k, a))
      → All P d
      → All P (put key a d)
  put-All P key a [] p h = (p key (beq_refl key), tt)
  put-All P key a ((k, b) ∷ d) p h = elim (Bool-cases (e.beq k key)) [
    | inl hit ↦ rw hit ((p k hit, h.1))
    | inr miss ↦ rw miss ((h.0, put-All P key a d p h.1))
  ]

  pub remove-All :
      (P : K × A → Type 0) (key : K) (d : List (K × A)) → All P d → All P (remove key d)
  remove-All P key [] h = tt
  remove-All P key ((k, b) ∷ d) h = elim (Bool-cases (e.beq k key)) [
    | inl hit ↦ rw hit (remove-All P key d h.1)
    | inr miss ↦ rw miss ((h.0, remove-All P key d h.1))
  ]

  pub find-All :
      (P : K × A → Type 0) (key : K) (a : A) (d : List (K × A))
      → find key d ≡ some a
      → All P d
      → P (key, a)
  find-All P key a [] f h = cc
  find-All P key a ((k, b) ∷ d) f h = elim (Bool-cases (e.beq k key)) [
    | inl hit ↦
        let same_value : some b ≡ some a = rw hit at f in
        subst (λ x. P (key, x)) (some-injective _ _ same_value)
          (subst (λ x. P (x, b)) ((e.beq_iff k key).0 hit) h.0)
    | inr miss ↦ let f' = rw miss at f in find-All P key a d f' h.1
  ]

  pub length-put : (key : K) (a : A) (d : List (K × A)) → 1 ≤ length (put key a d)
  length-put key a [] = omega arith
  length-put key a ((k, b) ∷ d) = elim (Bool-cases (e.beq k key)) [
    | inl hit ↦ rw hit (omega arith)
    | inr miss ↦ rw miss (omega arith)
  ]

  pub has_key-find : (k : K) (d : List (K × A)) → has_key k d ≡ is_found (find k d)
  has_key-find k [] = refl
  has_key-find k ((j, a) ∷ d) = elim (Bool-cases (e.beq j k)) [
    | inl hit ↦ rw hit refl
    | inr miss ↦ rw miss (has_key-find k d)
  ]

  pub put_absent :
      (key : K) (a : A) (d : List (K × A))
      → has_key key d ≡ false
      → put key a d ≡ d ++ ((key, a) ∷ [])
  put_absent key a [] h = refl
  put_absent key a ((k, b) ∷ d) h =
      let other : e.beq k key ≡ false = ground (arith, h) in
      let rest : has_key key d ≡ false = ground (arith, h) in
      rw (other, put_absent key a d rest) refl

  pub remove_absent : (key : K) (d : List (K × A)) → has_key key d ≡ false → remove key d ≡ d
  remove_absent key [] h = refl
  remove_absent key ((k, b) ∷ d) h =
      let other : e.beq k key ≡ false = ground (arith, h) in
      let rest : has_key key d ≡ false = ground (arith, h) in
      rw (other, remove_absent key d rest) refl
