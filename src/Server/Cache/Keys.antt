-- ===== src/Server/Cache/Keys.antt =====
-- server/public/cache.go: which keys the prefix of a table meets.
use ho.Prelude.{
  ℕ, zero, suc, ◌+◌, ◌-◌, ◌*◌, ◌/◌, ◌%◌, ◌<◌, ◌≡◌, refl, sym, ap, ◌∙◌, true, false, ◌||◌, inl, inr,
  [], ◌∷◌, ◌++◌, ltb, Bool-cases, arith,
}
use mathlib.Core.List.{append_assoc}
use ho.Prelude.Bytes.{Bytes, has_prefix, has_byte, decimal_from, decimal}
use ho.Server.Cache.{invalidation_prefix, cache_key}

pub has_prefix-append : (p s : Bytes) → has_prefix (p ++ s) p ≡ true
has_prefix-append [] s = refl
has_prefix-append (c ∷ p) s = ground (arith, has_prefix-append p s)

-- The number that a list of digits stands for.
value_from : ℕ → Bytes → ℕ
value_from n [] = n
value_from n (c ∷ s) = value_from (n * 10 + (c - 48)) s

value_from-append :
    (n : ℕ) (s : Bytes) (c : ℕ) → value_from n (s ++ (c ∷ [])) ≡ value_from n s * 10 + (c - 48)
unfolding value_from
value_from-append n [] c = refl
value_from-append n (d ∷ s) c = value_from-append (n * 10 + (d - 48)) s c

value_decimal_from : (fuel n : ℕ) → n < fuel → value_from 0 (decimal_from fuel n) ≡ n
unfolding decimal_from
value_decimal_from zero n h = absurd (omega arith)
value_decimal_from (suc fuel) n h = elim (Bool-cases (ltb n 10)) [
  | inl one ↦ rw one (unfold value_from in omega arith)
  | inr more ↦
      rw more
        (rw value_from-append (rw (value_decimal_from fuel (n / 10) (ground arith)) (omega arith)))
]

-- Different numbers are printed differently.
pub decimal-injective : (m n : ℕ) → decimal m ≡ decimal n → m ≡ n
unfolding decimal
decimal-injective m n h =
    sym (value_decimal_from (suc m) m (omega arith))
    ∙ ap (value_from 0) h
    ∙ value_decimal_from (suc n) n (omega arith)

has_byte-append : (b : ℕ) (s t : Bytes) → has_byte b (s ++ t) ≡ (has_byte b s || has_byte b t)
has_byte-append b [] t = refl
has_byte-append b (c ∷ s) t = ground (arith, has_byte-append b s t)

decimal_from-no_colon : (fuel n : ℕ) → has_byte b':' (decimal_from fuel n) ≡ false
unfolding decimal_from
decimal_from-no_colon zero n = refl
decimal_from-no_colon (suc fuel) n = ground (
  arith,
  decimal_from-no_colon fuel (n / 10),
  has_byte-append b':' (decimal_from fuel (n / 10)) ((n % 10 + 48) ∷ []),
)

decimal-no_colon : (n : ℕ) → has_byte b':' (decimal n) ≡ false
unfolding decimal
decimal-no_colon n = decimal_from-no_colon (suc n) n

-- Two words without a colon, each followed by a colon: if one text begins the other, the words agree.
prefix_word :
    (s t x y : Bytes)
    → has_byte b':' s ≡ false
    → has_byte b':' t ≡ false
    → has_prefix (t ++ (b':' ∷ y)) (s ++ (b':' ∷ x)) ≡ true
    → (s ≡ t) × (has_prefix y x ≡ true)
prefix_word [] [] x y hs ht h = (refl, h)
prefix_word [] (d ∷ t) x y hs ht h = ground arith
prefix_word (c ∷ s) [] x y hs ht h = ground arith
prefix_word (c ∷ s) (d ∷ t) x y hs ht h = ground (arith, prefix_word s t x y)

key_parts :
    (site : ℕ) (table path query : Bytes)
    → cache_key site table path query
      ≡ decimal site ++ (b':' ∷ (table ++ (b':' ∷ (path ++ (b'?' ∷ query)))))
unfolding cache_key invalidation_prefix
key_parts site table path query = simp append_assoc

-- The prefix of one table begins a key of another only if site and table are the same, table names without a colon.
pub prefix_meets :
    (site site' : ℕ) (table table' path query : Bytes)
    → has_byte b':' table ≡ false
    → has_byte b':' table' ≡ false
    → has_prefix (cache_key site' table' path query) (invalidation_prefix site table) ≡ true
    → (site ≡ site') × (table ≡ table')
unfolding invalidation_prefix
prefix_meets site site' table table' path query h h' m =
    let (same_site, rest) =
      prefix_word (decimal site) (decimal site') (table ++ (b':' ∷ []))
        (table' ++ (b':' ∷ (path ++ (b'?' ∷ query)))) (decimal-no_colon site)
        (decimal-no_colon site') (rw (key_parts site' table' path query) at m) in
    let (same_table, _) = prefix_word table table' [] (path ++ (b'?' ∷ query)) h h' rest in
    (decimal-injective site site' same_site, same_table)
