-- ===== src/Tools/Registry/Names.antt =====
-- sort.Strings on names without repetition, and that it gives one list for one set of names
-- (tools/registry.go).
use ho.Prelude.{◌≡◌, refl, ap, ◌∙◌}
use ho.Prelude.{inl, inr, Bool, true, false, ◌&&◌, ◌||◌}
use ho.Prelude.{List, [], ◌∷◌, arith, if◌then◌else◌, ltb, ◌==◌, Bool-cases}
use ho.Prelude.{All, any}
use ho.Prelude.{All-map}
use ho.Prelude.Bytes.{Bytes, same}

-- a < b as byte strings
abbrev pub before : Bytes → Bytes → Bool
before [] [] = false
before [] (d ∷ b) = true
before (c ∷ a) [] = false
before (c ∷ a) (d ∷ b) = ltb c d || (c == d && before a b)

abbrev pub insert_name : Bytes → List Bytes → List Bytes
insert_name x [] = x ∷ []
insert_name x (y ∷ ys) = let rest = insert_name x ys in if before y x then y ∷ rest else x ∷ y ∷ ys

unfoldable pub sort_names : List Bytes → List Bytes
sort_names [] = []
sort_names (x ∷ xs) = insert_name x (sort_names xs)

abbrev pub is_name : Bytes → List Bytes → Bool
is_name x xs = any (λ y. same y x) xs

-- Each name before the next ones.
abbrev pub IsSorted : List Bytes → Type 0
IsSorted [] = Unit
IsSorted (x ∷ xs) = All (λ y. before x y ≡ true) xs × IsSorted xs

-- No name twice.
abbrev pub IsDistinct : List Bytes → Type 0
IsDistinct [] = Unit
IsDistinct (x ∷ xs) = (is_name x xs ≡ false) × IsDistinct xs

pub before_irreflexive : (a : Bytes) → before a a ≡ false
before_irreflexive [] = refl
before_irreflexive (c ∷ a) = ground (arith, before_irreflexive a)

pub before_trans : (a b c : Bytes) → before a b ≡ true → before b c ≡ true → before a c ≡ true
before_trans [] [] c h k = cc
before_trans [] (x ∷ b) [] h k = cc
before_trans [] (x ∷ b) (y ∷ c) h k = refl
before_trans (x ∷ a) [] c h k = cc
before_trans (x ∷ a) (y ∷ b) [] h k = cc
before_trans (x ∷ a) (y ∷ b) (z ∷ c) h k = ground (arith, h, k, before_trans a b c)

before_total : (a b : Bytes) → before a b ≡ false → same a b ≡ false → before b a ≡ true
before_total [] [] h k = cc
before_total [] (x ∷ b) h k = cc
before_total (x ∷ a) [] h k = refl
before_total (x ∷ a) (y ∷ b) h k = ground (arith, h, k, before_total a b)

insert_name-any :
    (p : Bytes → Bool) (x : Bytes) (ys : List Bytes) → any p (insert_name x ys) ≡ any p (x ∷ ys)
insert_name-any p x [] = refl
insert_name-any p x (y ∷ ys) = ground (arith, insert_name-any p x ys)

pub sort_names-any : (p : Bytes → Bool) (xs : List Bytes) → any p (sort_names xs) ≡ any p xs
unfolding sort_names
sort_names-any p [] = refl
sort_names-any p (x ∷ xs) =
    insert_name-any p x (sort_names xs) ∙ ap (λ b. p x || b) (sort_names-any p xs)

insert_name-All :
    (P : Bytes → Type 0) (x : Bytes) (ys : List Bytes) → P x → All P ys → All P (insert_name x ys)
insert_name-All P x [] p h = (p, tt)
insert_name-All P x (y ∷ ys) p h = elim (Bool-cases (before y x)) [
  | inl e ↦ rw e ((h.0, insert_name-All P x ys p h.1))
  | inr e ↦ rw e ((p, h))
]

insert_name-IsSorted :
    (x : Bytes) (ys : List Bytes) → is_name x ys ≡ false → IsSorted ys → IsSorted (insert_name x ys)
insert_name-IsSorted x [] n h = (tt, tt)
insert_name-IsSorted x (y ∷ ys) n h = elim (Bool-cases (before y x)) [
  | inl e ↦ rw e (
      (
        insert_name-All (λ z. before y z ≡ true) x ys e h.0,
        insert_name-IsSorted x ys (ground (arith, n)) h.1,
      ))
  | inr e ↦
      let other : same y x ≡ false = ground (arith, n) in
      let first : before x y ≡ true = before_total y x e other in
      rw e (((first, All-map (λ z q. before_trans x y z first q) ys h.0), h))
]

pub sort_names-IsSorted : (xs : List Bytes) → IsDistinct xs → IsSorted (sort_names xs)
unfolding sort_names
sort_names-IsSorted [] d = tt
sort_names-IsSorted (x ∷ xs) d =
    insert_name-IsSorted x (sort_names xs) (sort_names-any (λ y. same y x) xs ∙ d.0)
      (sort_names-IsSorted xs d.1)
