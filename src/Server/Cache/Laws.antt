-- ===== src/Server/Cache/Laws.antt =====
-- server/public/cache.go, and the handlers of server/public/handler.go that fill the cache on GET and
-- invalidate a table on POST, PUT and DELETE: what a hit can return.
use ho.Prelude.{
  ℕ, ◌+◌, ◌≤◌, ◌≡◌, refl, false, inl, inr, ◌⊎◌, List, [], ◌∷◌, ◌++◌, Option, none, some, ltb,
  if◌then◌else◌, Bool-cases, arith,
}
use ho.Prelude.Bytes.{Bytes, same, has_prefix, has_byte, same_eq}
use ho.Server.Cache.{
  CacheEntry, Cache, get, set, fresh, invalidate_table, invalidation_prefix, cache_key, evict,
  unexpired,
}
use ho.Server.Cache.Keys.{has_prefix-append, prefix_meets}

-- A stored response is returned up to its expiry and not later, and other keys are not affected.
pub get-set :
    (key j body : Bytes) (status ttl now later : ℕ) (c : Cache)
    → get j later (set key body status ttl now c) ≡ (
        if same key j
        then (if ltb (now + ttl) later then none else some (body, status))
        else get j later c)
unfolding get set
get-set key j body status ttl now later c = elim (Bool-cases (same key j)) [
  | inl e ↦ rw e
  | inr e ↦ rw e
]

fresh-unexpired :
    (now later : ℕ) (e : Option CacheEntry)
    → now ≤ later
    → fresh later (unexpired now e) ≡ fresh later e
fresh-unexpired now later none h = refl
fresh-unexpired now later (some x) h = ground arith

-- The background sweep is not seen by any later read.
pub get-evict :
    (key : Bytes) (now later : ℕ) (c : Cache)
    → now ≤ later
    → get key later (evict now c) ≡ get key later c
unfolding get evict
get-evict key now later c h = fresh-unexpired now later (c key) h

-- Invalidating a table drops every response under the keys of that site and table.
pub get-invalidate_table :
    (site : ℕ) (table path query : Bytes) (now : ℕ) (c : Cache)
    → get (cache_key site table path query) now (invalidate_table site table c) ≡ none
unfolding get invalidate_table cache_key
get-invalidate_table site table path query now c =
    rw (has_prefix-append (invalidation_prefix site table) (path ++ (b'?' ∷ query)))

-- Of the keys of tables whose names have no colon, invalidating a table drops those of that site and table and no others.
pub get-invalidate_other :
    (site site' : ℕ) (table table' path query : Bytes) (now : ℕ) (c : Cache)
    → has_byte b':' table ≡ false
    → has_byte b':' table' ≡ false
    → ((site ≡ site') × (table ≡ table') → ⊥)
    → get (cache_key site' table' path query) now (invalidate_table site table c)
      ≡ get (cache_key site' table' path query) now c
unfolding get invalidate_table
get-invalidate_other site site' table table' path query now c h h' other =
    elim (Bool-cases
      (has_prefix (cache_key site' table' path query) (invalidation_prefix site table))) [
        | inl m ↦ absurd (other (prefix_meets site site' table table' path query h h' m))
        | inr m ↦ rw m
      ]

-- What a server does to the cache: it stores the response of a GET, it drops a table after a write, it sweeps.
pub data CacheOp : Type 0 where
  store : Bytes → Bytes → ℕ → ℕ → ℕ → CacheOp
  write : ℕ → Bytes → CacheOp
  sweep : ℕ → CacheOp

unfoldable pub apply : CacheOp → Cache → Cache
apply (store key body status ttl now) c = set key body status ttl now c
apply (write site table) c = invalidate_table site table c
apply (sweep now) c = evict now c

unfoldable pub run : List CacheOp → Cache → Cache
run [] c = c
run (op ∷ ops) c = run ops (apply op c)

-- The response was stored under the key by one of the operations.
abbrev pub Stored : Bytes → Bytes × ℕ → List CacheOp → Type 0
Stored key r [] = ⊥
Stored key r (store k body status ttl now ∷ ops) =
    ((k ≡ key) × (body ≡ r.0) × (status ≡ r.1)) ⊎ Stored key r ops
Stored key r (op ∷ ops) = Stored key r ops

set-hit :
    (key k body : Bytes) (status ttl t now : ℕ) (c : Cache) (r : Bytes × ℕ)
    → get key now (set k body status ttl t c) ≡ some r
    → ((k ≡ key) × (body ≡ r.0) × (status ≡ r.1)) ⊎ (get key now c ≡ some r)
set-hit key k body status ttl t now c r h = elim (Bool-cases (same k key)) [
  | inl e ↦ inl (
    same_eq k key e,
    ground (arith, get-set k key body status ttl t now c),
    ground (arith, get-set k key body status ttl t now c),
  )
  | inr e ↦ inr (ground (arith, get-set k key body status ttl t now c))
]

write-hit :
    (key table : Bytes) (site now : ℕ) (c : Cache) (r : Bytes × ℕ)
    → get key now (invalidate_table site table c) ≡ some r
    → get key now c ≡ some r
unfolding get invalidate_table
write-hit key table site now c r h = ground arith

unexpired-hit :
    (t now : ℕ) (e : Option CacheEntry) (r : Bytes × ℕ)
    → fresh now (unexpired t e) ≡ some r
    → fresh now e ≡ some r
unexpired-hit t now none r h = h
unexpired-hit t now (some x) r h = ground arith

sweep-hit :
    (key : Bytes) (t now : ℕ) (c : Cache) (r : Bytes × ℕ)
    → get key now (evict t c) ≡ some r
    → get key now c ≡ some r
unfolding get evict
sweep-hit key t now c r h = unexpired-hit t now (c key) r h

-- A hit was there before the operations, or one of them stored it.
pub run-hit :
    (ops : List CacheOp) (key : Bytes) (now : ℕ) (c : Cache) (r : Bytes × ℕ)
    → get key now (run ops c) ≡ some r
    → Stored key r ops ⊎ (get key now c ≡ some r)
unfolding run apply
run-hit [] key now c r h = inr h
run-hit (store k body status ttl t ∷ ops) key now c r h =
    elim (run-hit ops key now (set k body status ttl t c) r h) [
      | inl later ↦ inl (inr later)
      | inr old ↦ elim (set-hit key k body status ttl t now c r old) [
        | inl this ↦ inl (inl this)
        | inr before ↦ inr before
      ]
    ]
run-hit (write site table ∷ ops) key now c r h =
    elim (run-hit ops key now (invalidate_table site table c) r h) [
      | inl later ↦ inl later
      | inr old ↦ inr (write-hit key table site now c r old)
    ]
run-hit (sweep t ∷ ops) key now c r h = elim (run-hit ops key now (evict t c) r h) [
  | inl later ↦ inl later
  | inr old ↦ inr (sweep-hit key t now c r old)
]

-- Whatever happens after a write to a table, a hit on one of its keys returns a body and a status that were stored after the write.
pub hit_after_write :
    (site : ℕ) (table path query : Bytes) (ops : List CacheOp) (now : ℕ) (c : Cache) (r : Bytes × ℕ)
    → get (cache_key site table path query) now (run (write site table ∷ ops) c) ≡ some r
    → Stored (cache_key site table path query) r ops
unfolding run apply
hit_after_write site table path query ops now c r h =
    elim (run-hit ops (cache_key site table path query) now (invalidate_table site table c) r h) [
      | inl later ↦ later
      | inr old ↦ cc (get-invalidate_table site table path query now c)
    ]
