-- ===== src/Queries/Invalidation.antt =====
-- What `invalidate` of one query type does to a cache whose keys are MD5 digests.
use Prim.Native.String.{◌++◌}
use log_librarian.Prelude.{
  sym, ℕ, zero, suc, ◌≡◌, refl, ap, String, Option, none, some, List, [], ◌∷◌, leb, length,
  Bool-cases, Option-cases, inl, inr, str_eq,
}
use text.Mathlib.Text.{starts_with}
use log_librarian.Queries.Digests.{IsHex, IsHex-starts_with}
use mathlib.Core.Path.{subst}
use log_librarian.Prelude.Dict.{Dict, insert, delete, lookup}
use log_librarian.Queries.Cache.{
  CacheEntry, QueryCache, CacheCall, get_call, set_call, invalidate_call, cleanup_call, new_cache,
  evict, get, set, drop_matching, drop_expired, invalidate, cleanup_expired, generate_key,
  call_cache, call_all, after_set, move_to_end, touch, miss, is_expired,
}

module _ {R : Type 0} where
  -- Every key has hexadecimal digits only.
  abbrev AreHex : Dict (CacheEntry R) → Type 0
  AreHex [] = Unit
  AreHex ((k, e) ∷ d) = IsHex k × AreHex d

  abbrev AreKeptHex : Option (Dict (CacheEntry R)) → Type 0
  AreKeptHex none = Unit
  AreKeptHex (some d) = AreHex d

  evict-AreHex : (fuel n : ℕ) (d : Dict (CacheEntry R)) → AreHex d → AreKeptHex (evict fuel n d)
  unfolding evict
  evict-AreHex fuel n [] h = elim (Bool-cases (leb n 0)) [ inl e ↦ rw e tt | inr e ↦ rw e tt ]
  evict-AreHex zero n (x ∷ d) h = elim (Bool-cases (leb n (length (x ∷ d)))) [
    | inl e ↦ rw e tt
    | inr e ↦ rw e h
  ]
  evict-AreHex (suc fuel) n (x ∷ d) h = elim (Bool-cases (leb n (length (x ∷ d)))) [
    | inl e ↦ rw e (evict-AreHex fuel n d h.1)
    | inr e ↦ rw e h
  ]

  insert-AreHex :
      (k : String) (e : CacheEntry R) (d : Dict (CacheEntry R))
      → IsHex k
      → AreHex d
      → AreHex (insert k e d)
  unfolding insert
  insert-AreHex k e [] digits h = (digits, tt)
  insert-AreHex k e ((j, w) ∷ d) digits h = elim (Bool-cases (str_eq j k)) [
    | inl same ↦ rw same h
    | inr other ↦ rw other (h.0, insert-AreHex k e d digits h.1)
  ]

  delete-AreHex : (k : String) (d : Dict (CacheEntry R)) → AreHex d → AreHex (delete k d)
  unfolding delete
  delete-AreHex k [] h = tt
  delete-AreHex k ((j, w) ∷ d) h = elim (Bool-cases (str_eq j k)) [
    | inl same ↦ rw same (delete-AreHex k d h.1)
    | inr other ↦ rw other (h.0, delete-AreHex k d h.1)
  ]

  drop_expired-AreHex : (now : ℕ) (d : Dict (CacheEntry R)) → AreHex d → AreHex (drop_expired now d)
  unfolding drop_expired
  drop_expired-AreHex now [] h = tt
  drop_expired-AreHex now ((k, e) ∷ d) h = elim (Bool-cases (is_expired now e)) [
    | inl old ↦ rw old (drop_expired-AreHex now d h.1)
    | inr live ↦ rw live (h.0, drop_expired-AreHex now d h.1)
  ]

  drop_none :
      (query_type : String) (d : Dict (CacheEntry R))
      → AreHex d
      → drop_matching (λ k. starts_with k (query_type ++ ":")) d ≡ d
  unfolding drop_matching
  drop_none query_type [] h = refl
  drop_none query_type ((k, e) ∷ d) h =
      rw (IsHex-starts_with k query_type h.0) (ap (λ l. (k, e) ∷ l) (drop_none query_type d h.1))

  invalidate-AreHex :
      (query_type : String) (c : QueryCache R) → AreHex c.cache → invalidate (some query_type) c ≡ c
  unfolding invalidate
  invalidate-AreHex query_type c h =
      ap (λ d. record c { cache = d }) (drop_none query_type c.cache h)

  get-AreHex :
      (now : ℕ) (key : String) (c : QueryCache R)
      → IsHex key
      → AreHex c.cache
      → AreHex (get now key c).1.cache
  unfolding get miss move_to_end
  get-AreHex now key c digits h = elim (Option-cases (lookup key c.cache)) [
    | inl e ↦ rw (e, get) h
    | inr (entry, e) ↦ elim (Bool-cases (is_expired now entry)) [
      | inl old ↦ rw (e, get, old) (delete-AreHex key c.cache h)
      | inr live ↦
          rw (e, get, live)
            (insert-AreHex key (touch entry) (delete key c.cache) digits
              (delete-AreHex key c.cache h))
    ]
  ]

  set-AreHex :
      (now : ℕ) (key query_type : String) (result : R) (c : QueryCache R)
      → IsHex key
      → AreHex c.cache
      → AreHex (after_set c (set now key query_type result c)).cache
  unfolding set after_set
  set-AreHex now key query_type result c digits h =
      let kept = evict-AreHex (length c.cache) c.max_size c.cache h in
      elim (Option-cases (evict (length c.cache) c.max_size c.cache)) [
        | inl e ↦ rw (e, set) tt
        | inr (d, e) ↦ rw (e, set) (insert-AreHex key _ d digits (subst (λ o. AreKeptHex o) e kept))
      ]

module _ {P R : Type 0} (md5 : String → String) (dumps : P → String) where
  call_cache-AreHex :
      (call : CacheCall P R) (c : QueryCache R)
      → ((text : String) → IsHex (md5 text))
      → AreHex c.cache
      → AreHex (call_cache md5 dumps call c).cache
  unfolding call_cache invalidate cleanup_expired generate_key set
  call_cache-AreHex (get_call now query_type params) c hex h =
      get-AreHex now (generate_key md5 dumps query_type params) c (hex _) h
  call_cache-AreHex (set_call now query_type params result) c hex h =
      set-AreHex now (generate_key md5 dumps query_type params) query_type result c (hex _) h
  call_cache-AreHex (invalidate_call none) c hex h = tt
  call_cache-AreHex (invalidate_call (some query_type)) c hex h =
      subst (λ c'. AreHex c'.cache) (sym (invalidate-AreHex query_type c h)) h
  call_cache-AreHex (cleanup_call now) c hex h = drop_expired-AreHex now c.cache h

  call_all-AreHex :
      (calls : List (CacheCall P R)) (c : QueryCache R)
      → ((text : String) → IsHex (md5 text))
      → AreHex c.cache
      → AreHex (call_all md5 dumps calls c).cache
  unfolding call_all
  call_all-AreHex [] c hex h = h
  call_all-AreHex (call ∷ calls) c hex h =
      call_all-AreHex calls (call_cache md5 dumps call c) hex (call_cache-AreHex call c hex h)

  -- With `hexdigest` printing hexadecimal digits only: after any calls on a new cache, of queries of
  -- any types, an `invalidate` of any one query type leaves the cache as it is, with all its entries.
  pub invalidate_removes_nothing :
      (max_size : ℕ) (calls : List (CacheCall P R)) (query_type : String)
      → ((text : String) → IsHex (md5 text))
      → let c = call_all md5 dumps calls (new_cache max_size) in invalidate (some query_type) c ≡ c
  invalidate_removes_nothing max_size calls query_type hex =
      invalidate-AreHex query_type (call_all md5 dumps calls (new_cache max_size))
        (call_all-AreHex calls (new_cache max_size) hex tt)
