-- ===== src/Server/Cache.antt =====
-- server/public/cache.go: the in-memory cache of API responses. The map of entries is a function of
-- the key. A time is a number of nanoseconds; each operation is given what time.Now returned in it.
pub mod Keys
pub mod Laws
use ho.Prelude.{
  ℕ, zero, suc, ◌+◌, ◌/◌, ◌%◌, Bool, not, List, [], ◌∷◌, ◌++◌, Option, none, some, ltb,
  if◌then◌else◌,
}
use ho.Prelude.Bytes.{Bytes, codes, same, has_prefix, decimal}

pub record CacheEntry : Type 0 where
  pub body : Bytes
  pub status : ℕ
  pub expires_at : ℕ

abbrev pub Cache : Type 0
Cache = Bytes → Option CacheEntry

-- newAPICache, without its background goroutine, which calls evict
abbrev pub new_cache : Cache
new_cache key = none

-- `time.Now().After(entry.expiresAt)`
abbrev pub is_expired : ℕ → CacheEntry → Bool
is_expired now entry = ltb entry.expires_at now

abbrev pub fresh : ℕ → Option CacheEntry → Option (Bytes × ℕ)
fresh now none = none
fresh now (some entry) = if is_expired now entry then none else some (entry.body, entry.status)

unfoldable pub get : Bytes → ℕ → Cache → Option (Bytes × ℕ)
get key now c = fresh now (c key)

unfoldable pub set : Bytes → Bytes → ℕ → ℕ → ℕ → Cache → Cache
set key body status ttl now c j =
    if same key j
    then some (record { body = body; status = status; expires_at = now + ttl })
    else c j

-- formatInvalidationPrefix
unfoldable pub invalidation_prefix : ℕ → Bytes → Bytes
invalidation_prefix site table = decimal site ++ (b':' ∷ (table ++ (b':' ∷ [])))

-- formatCacheKey
unfoldable pub cache_key : ℕ → Bytes → Bytes → Bytes → Bytes
unfolding invalidation_prefix
cache_key site table path query = invalidation_prefix site table ++ (path ++ (b'?' ∷ query))

unfoldable pub invalidate_table : ℕ → Bytes → Cache → Cache
unfolding invalidation_prefix
invalidate_table site table c key =
    if has_prefix key (invalidation_prefix site table) then none else c key

abbrev unexpired : ℕ → Option CacheEntry → Option CacheEntry
unexpired now none = none
unexpired now (some entry) = if is_expired now entry then none else some entry

unfoldable pub evict : ℕ → Cache → Cache
evict now c key = unexpired now (c key)
