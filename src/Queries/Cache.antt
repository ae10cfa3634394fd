-- ===== src/Queries/Cache.antt =====
-- `QueryCache` of librarian/ai_query_optimizer.py. Times are whole seconds. `R` is the
-- type of a result. `get` and `set` are given the key that `_generate_key` makes of the query.
use Prim.Native.String.{◌++◌}
use text.Mathlib.Text.{starts_with}
use log_librarian.Prelude.{
  ℕ, suc, zero, ◌+◌, String, Bool, Option, none, some, List, [], ◌∷◌, ltb, leb, length,
  if◌then◌else◌,
}
use log_librarian.Prelude.Dict.{Dict, lookup, insert, delete}

pub record CacheEntry (R : Type 0) : Type 0 where
  pub result : R
  pub created_at : ℕ
  pub ttl : ℕ
  pub hit_count : ℕ

-- `_cache` is in the order of use, the oldest first.
pub record QueryCache (R : Type 0) : Type 0 where
  pub cache : Dict (CacheEntry R)
  pub max_size : ℕ
  pub hits : ℕ
  pub misses : ℕ

abbrev pub new_cache : {R : Type 0} → ℕ → QueryCache R
new_cache max_size = record { cache = []; max_size = max_size; hits = 0; misses = 0 }

-- `DEFAULT_TTLS`, in seconds
abbrev pub default_ttls : Dict ℕ
default_ttls =
    ("agent_status", 30)
    ∷ ("agent_list", 60)
    ∷ ("metrics", 60)
    ∷ ("logs", 120)
    ∷ ("log_count", 120)
    ∷ ("bookmarks", 300)
    ∷ ("bookmark_status", 60)
    ∷ ("alerts", 60)
    ∷ ("system_health", 30)
    ∷ ("default", 60)
    ∷ []

unfoldable pub get_ttl : String → ℕ
get_ttl query_type = elim (lookup query_type default_ttls) [ none ↦ 60 | some t ↦ t ]

-- `_generate_key`: `md5` is `hashlib.md5(...).hexdigest()` of an encoded text, and `dumps` prints
-- the parameters with their keys sorted.
unfoldable pub generate_key : {P : Type 0} → (String → String) → (P → String) → String → P → String
generate_key md5 dumps query_type params = md5 (query_type ++ ":" ++ dumps params)

module _ {R : Type 0} where
  unfoldable pub is_expired : ℕ → CacheEntry R → Bool
  is_expired now e = ltb (e.created_at + e.ttl) now

  unfoldable pub touch : CacheEntry R → CacheEntry R
  touch e = record e { hit_count = e.hit_count + 1 }

  -- `self._cache.move_to_end(key)`, with the entry touched.
  unfoldable pub move_to_end : String → CacheEntry R → Dict (CacheEntry R) → Dict (CacheEntry R)
  move_to_end key e d = insert key e (delete key d)

  unfoldable pub miss : QueryCache R → QueryCache R
  miss c = record c { misses = c.misses + 1 }

  -- `get`, for the key of the query
  unfoldable pub get : ℕ → String → QueryCache R → Option R × QueryCache R
  unfolding is_expired touch move_to_end miss
  get now key c = elim (lookup key c.cache) [
    | none ↦ (none, miss c)
    | some e ↦
        if is_expired now e then (none, miss (record c { cache = delete key c.cache })) else (
          some e.result,
          record c { cache = move_to_end key (touch e) c.cache; hits = c.hits + 1 },
        )
  ]

  -- The loop of `set`: none where `popitem` raises, on an empty cache. The fuel is the length of
  -- the cache, of which each turn takes one.
  unfoldable pub evict : ℕ → ℕ → Dict (CacheEntry R) → Option (Dict (CacheEntry R))
  evict fuel max_size [] = if leb max_size 0 then none else some []
  evict zero max_size (e ∷ d) = if leb max_size (length (e ∷ d)) then none else some (e ∷ d)
  evict (suc fuel) max_size (e ∷ d) =
      let rest = evict fuel max_size d in
      if leb max_size (length (e ∷ d)) then rest else some (e ∷ d)

  -- `set`, for the key and the type of the query; none where it raises.
  unfoldable pub set : ℕ → String → String → R → QueryCache R → Option (QueryCache R)
  unfolding evict get_ttl
  set now key query_type result c = elim (evict (length c.cache) c.max_size c.cache) [
    | none ↦ none
    | some kept ↦ some (record c {
      cache =
          insert key
            (record { result = result; created_at = now; ttl = get_ttl query_type; hit_count = 0 })
            kept;
    })
  ]

  unfoldable pub drop_matching : (String → Bool) → Dict (CacheEntry R) → Dict (CacheEntry R)
  drop_matching matches [] = []
  drop_matching matches ((k, e) ∷ d) =
      let rest = drop_matching matches d in if matches k then rest else (k, e) ∷ rest

  -- `invalidate`
  unfoldable pub invalidate : Option String → QueryCache R → QueryCache R
  unfolding drop_matching
  invalidate none c = record c { cache = [] }
  invalidate (some query_type) c = record c {
    cache = drop_matching (λ k. starts_with k (query_type ++ ":")) c.cache;
  }

  unfoldable pub drop_expired : ℕ → Dict (CacheEntry R) → Dict (CacheEntry R)
  unfolding is_expired
  drop_expired now [] = []
  drop_expired now ((k, e) ∷ d) =
      let rest = drop_expired now d in if is_expired now e then rest else (k, e) ∷ rest

  unfoldable pub cleanup_expired : ℕ → QueryCache R → QueryCache R
  unfolding drop_expired
  cleanup_expired now c = record c { cache = drop_expired now c.cache }

module _ {R : Type 0} where
  -- The cache after a `set`: one that raises has taken out every entry.
  unfoldable pub after_set : QueryCache R → Option (QueryCache R) → QueryCache R
  after_set c none = record c { cache = [] }
  after_set c (some c') = c'

-- A call of a cache, at its clock.
pub data CacheCall (P R : Type 0) : Type 0 where
  get_call : ℕ → String → P → CacheCall P R
  set_call : ℕ → String → P → R → CacheCall P R
  invalidate_call : Option String → CacheCall P R
  cleanup_call : ℕ → CacheCall P R

module _ {P R : Type 0} (md5 : String → String) (dumps : P → String) where
  -- The cache after a call.
  unfoldable pub call_cache : CacheCall P R → QueryCache R → QueryCache R
  unfolding get set after_set invalidate cleanup_expired generate_key
  call_cache (get_call now query_type params) c =
      (get now (generate_key md5 dumps query_type params) c).1
  call_cache (set_call now query_type params result) c =
      after_set c (set now (generate_key md5 dumps query_type params) query_type result c)
  call_cache (invalidate_call query_type) c = invalidate query_type c
  call_cache (cleanup_call now) c = cleanup_expired now c

  unfoldable pub call_all : List (CacheCall P R) → QueryCache R → QueryCache R
  unfolding call_cache
  call_all [] c = c
  call_all (call ∷ calls) c = call_all calls (call_cache call c)
