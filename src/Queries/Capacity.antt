-- ===== src/Queries/Capacity.antt =====
-- The bound of the cache, and what a result that was set answers.
use log_librarian.Prelude.{
  ◌∙◌, ℕ, zero, suc, ◌+◌, ◌<◌, ◌≤◌, ◌≡◌, refl, ap, String, false, none, some, [], ◌∷◌, arith, leb,
  length, Bool-cases, inl, inr,
}
use log_librarian.Prelude.Dict.{Dict, lookup, insert, lookup-insert, str_eq_refl}
use log_librarian.Queries.Cache.{CacheEntry, QueryCache, get_ttl, is_expired, get, evict, set}

module _ {R : Type 0} where
  length-insert-le :
      (k : String) (e : CacheEntry R) (d : Dict (CacheEntry R))
      → length (insert k e d) ≤ length d + 1
  unfolding insert
  length-insert-le k e [] = omega arith
  length-insert-le k e ((j, w) ∷ d) = ground (arith, length-insert-le k e d)

  -- With room for one entry, and fuel for the whole cache, the loop ends with room for one more.
  evict_makes_room :
      (fuel n : ℕ) (d : Dict (CacheEntry R))
      → 0 < n
      → length d ≤ fuel
      → (kept : Dict (CacheEntry R)) × (evict fuel n d ≡ some kept) × (length kept < n)
  unfolding evict
  evict_makes_room fuel n [] h f = ([], ground (arith, h), omega (arith, h))
  evict_makes_room zero n (e ∷ d) h f = absurd (omega arith)
  evict_makes_room (suc fuel) n (e ∷ d) h f =
      let rest = evict_makes_room fuel n d h (omega arith) in
      elim (Bool-cases (leb n (length (e ∷ d)))) [
        | inl full ↦ (rest.0, rw full (rest.1), rest.2)
        | inr room ↦ (e ∷ d, rw room refl, ground arith)
      ]

  fresh_is_live :
      (now later : ℕ) (query_type : String) (result : R)
      → later ≤ now + get_ttl query_type
      → is_expired later
          (record { result = result; created_at = now; ttl = get_ttl query_type; hit_count = 0 })
        ≡ false
  unfolding is_expired
  fresh_is_live now later query_type result h = ground (arith, h)

  get_found :
      (later : ℕ) (key : String) (e : CacheEntry R) (c : QueryCache R)
      → lookup key c.cache ≡ some e
      → is_expired later e ≡ false
      → (get later key c).0 ≡ some e.result
  unfolding get
  get_found later key e c found live = rw (found, get, live) refl

  -- Where the cache may hold an entry, `set` returns, the cache it leaves is no larger than its
  -- bound however many entries it had before, and until the end of the type's time to live a `get`
  -- of the same key answers the result that was set.
  pub set_then_get :
      (now later : ℕ) (key query_type : String) (result : R) (c : QueryCache R)
      → 0 < c.max_size
      → later ≤ now + get_ttl query_type
      → (c' : QueryCache R) × (set now key query_type result c ≡ some c')
        × (length c'.cache ≤ c.max_size)
        × ((get later key c').0 ≡ some result)
  unfolding set
  set_then_get now later key query_type result c h t =
      let (kept, e, room) = evict_makes_room (length c.cache) c.max_size c.cache h (omega arith) in
      let entry : CacheEntry R = record {
        result = result;
        created_at = now;
        ttl = get_ttl query_type;
        hit_count = 0;
      } in
      let c' : QueryCache R = record c { cache = insert key entry kept } in
      (
        c',
        rw (e, set) refl,
        omega (arith, room, length-insert-le key entry kept),
        get_found later key entry c' (lookup-insert key key entry kept ∙ rw (str_eq_refl key) refl)
            (fresh_is_live now later query_type result t),
      )

  zero_evicts : (fuel : ℕ) (d : Dict (CacheEntry R)) → length d ≤ fuel → evict fuel 0 d ≡ none
  unfolding evict
  zero_evicts fuel [] f = refl
  zero_evicts zero (e ∷ d) f = absurd (omega arith)
  zero_evicts (suc fuel) (e ∷ d) f = ground (arith, zero_evicts fuel d (omega arith))

  -- A cache whose `max_size` is zero raises on every `set`, whatever it holds.
  pub zero_size_raises :
      (now : ℕ) (key query_type : String) (result : R) (c : QueryCache R)
      → c.max_size ≡ 0
      → set now key query_type result c ≡ none
  unfolding set
  zero_size_raises now key query_type result c h =
      let e =
        ap (λ n. evict (length c.cache) n c.cache) h
        ∙ zero_evicts (length c.cache) c.cache (omega arith) in
      rw (e, set) refl
