-- ===== src/Tenants/Columns.antt =====
-- What the calls leave of the columns `key_hash` and `is_active` of the keys.
use log_librarian.Prelude.{
  ◌∙◌, ℕ, ◌≡◌, refl, sym, ap, String, Bool, false, ◌||◌, ◌&&◌, Option, none, some, List, [], ◌∷◌,
  All, arith, str_eq, Bool-cases, inl, inr,
}
use mathlib.Core.Path.{subst}
use log_librarian.Tenants.Tables.{ApiKey, Tenant, Tables, any_row, update_rows}
use log_librarian.Tenants.Accounts.{
  TenantCreate, TenantUpdate, create_tenant, update_tenant, delete_tenant,
}
use log_librarian.Tenants.Keys.{
  ApiKeyCreate, is_known, is_valid, new_key, mark_used, accept, find_key, create_api_key,
  validate_api_key, revoke_api_key,
}
use log_librarian.Tenants.Calls.{
  Call, tenant_created, tenant_updated, tenant_deleted, key_created, key_validated, key_revoked,
  step, tables_or,
}

module _ {R : Type 0} where
  pub any_row-update :
      (test chosen : R → Bool) (change : R → R) (rows : List R)
      → ((r : R) → test (change r) ≡ test r)
      → any_row test (update_rows chosen change rows) ≡ any_row test rows
  unfolding any_row update_rows
  any_row-update test chosen change [] h = refl
  any_row-update test chosen change (r ∷ rows) h = elim (Bool-cases (chosen r)) [
    | inl e ↦ rw (e, h r, any_row-update test chosen change rows h) refl
    | inr e ↦ rw (e, any_row-update test chosen change rows h) refl
  ]

  pub All-update :
      (P : R → Type 0) (chosen : R → Bool) (change : R → R) (rows : List R)
      → ((r : R) → P r → P (change r))
      → All P rows
      → All P (update_rows chosen change rows)
  unfolding update_rows
  All-update P chosen change [] keep h = tt
  All-update P chosen change (r ∷ rows) keep h = elim (Bool-cases (chosen r)) [
    | inl e ↦ rw e (keep r h.0, All-update P chosen change rows keep h.1)
    | inr e ↦ rw e (h.0, All-update P chosen change rows keep h.1)
  ]

-- The key is stored under the hash.
abbrev pub has_hash : String → ApiKey → Bool
has_hash hash k = str_eq k.key_hash hash

-- No two keys have the same hash.
abbrev pub IsDistinct : List ApiKey → Type 0
IsDistinct [] = Unit
IsDistinct (k ∷ ks) = (any_row (has_hash k.key_hash) ks ≡ false) × IsDistinct ks

pub IsDistinct-update :
    (chosen : ApiKey → Bool) (change : ApiKey → ApiKey) (ks : List ApiKey)
    → ((k : ApiKey) → (change k).key_hash ≡ k.key_hash)
    → IsDistinct ks
    → IsDistinct (update_rows chosen change ks)
unfolding update_rows
IsDistinct-update chosen change [] same h = tt
IsDistinct-update chosen change (k ∷ ks) same h =
    let tail =
      any_row-update (has_hash k.key_hash) chosen change ks
        (λ r. ap (λ i. str_eq i k.key_hash) (same r))
      ∙ h.0 in
    let rest = IsDistinct-update chosen change ks same h.1 in
    elim (Bool-cases (chosen k)) [
      | inl e ↦ rw e (
        subst (λ i. any_row (has_hash i) (update_rows chosen change ks) ≡ false) (sym (same k))
            tail,
        rest,
      )
      | inr e ↦ rw e (tail, rest)
    ]

-- No row passes a test that implies another that none passes.
any_row-weaken :
    {R : Type 0} (test other : R → Bool) (rows : List R)
    → any_row (λ r. other r || test r) rows ≡ false
    → any_row test rows ≡ false
unfolding any_row
any_row-weaken test other [] h = refl
any_row-weaken test other (r ∷ rows) h = ground (arith, any_row-weaken test other rows, h)

keys-create_tenant :
    (now : ℕ) (random : String) (t : TenantCreate) (db : Tables)
    → (tables_or (create_tenant now random t db) db).api_keys ≡ db.api_keys
unfolding create_tenant tables_or
keys-create_tenant now random t db = ground arith

keys-update_tenant :
    (now : ℕ) (id : String) (u : TenantUpdate) (db : Tables)
    → (tables_or (update_tenant now id u db) db).api_keys ≡ db.api_keys
unfolding update_tenant tables_or
keys-update_tenant now id u db = ground arith

accept-keeps :
    (P : List ApiKey → Type 0)
    → ((chosen : ApiKey → Bool) (now : ℕ) (ks : List ApiKey)
        → P ks
        → P (update_rows chosen (λ k. record k { last_used_at = some now }) ks))
    → (now : ℕ) (row : Option (ApiKey × Tenant)) (db : Tables) → P db.api_keys
    → P (accept now row db).1.api_keys
unfolding accept mark_used
accept-keeps P used now none db h = h
accept-keeps P used now (some (k, t)) db h = elim (Bool-cases (is_valid now k t)) [
  | inl e ↦ rw (e, accept) (used (λ r. str_eq r.id k.id) now db.api_keys h)
  | inr e ↦ rw (e, accept) h
]

module _ (sha256 : String → String) where
  create-keeps :
      (P : List ApiKey → Type 0)
      → ((k : ApiKey) (ks : List ApiKey)
          → any_row (has_hash k.key_hash) ks ≡ false
          → P ks
          → P (k ∷ ks))
      → (now : ℕ) (random secret tenant_id : String) (d : ApiKeyCreate) (db : Tables)
      → P db.api_keys
      → P (step sha256 (key_created now random secret tenant_id d) db).api_keys
  unfolding step create_api_key is_known
  create-keeps P new now random secret tenant_id d db h =
      let key = new_key sha256 now random secret tenant_id d in
      elim (Bool-cases (is_known key.id key.key_hash db.api_keys)) [
        | inl e ↦ rw (e, step, create_api_key) h
        | inr e ↦
            rw (e, step, create_api_key)
              (new key db.api_keys
                (any_row-weaken (has_hash key.key_hash) (λ k. str_eq k.id key.id) db.api_keys e) h)
      ]

  -- A predicate of the keys that a new key with an unknown hash has, and that a change of the other
  -- columns, or a revocation, keeps, is kept by every call.
  pub step-keeps :
      (P : List ApiKey → Type 0)
      → ((k : ApiKey) (ks : List ApiKey)
          → any_row (has_hash k.key_hash) ks ≡ false
          → P ks
          → P (k ∷ ks))
      → ((chosen : ApiKey → Bool) (now : ℕ) (ks : List ApiKey)
          → P ks
          → P (update_rows chosen (λ k. record k { last_used_at = some now }) ks))
      → ((chosen : ApiKey → Bool) (ks : List ApiKey)
          → P ks
          → P (update_rows chosen (λ k. record k { is_active = false }) ks))
      → (c : Call) (db : Tables) → P db.api_keys
      → P (step sha256 c db).api_keys
  unfolding step
  step-keeps P new used revoked (tenant_created now random t) db h =
      subst P (sym (keys-create_tenant now random t db)) h
  step-keeps P new used revoked (tenant_updated now id u) db h =
      subst P (sym (keys-update_tenant now id u db)) h
  step-keeps P new used revoked (tenant_deleted now id) db h = unfold delete_tenant in h
  step-keeps P new used revoked (key_created now random secret tenant_id d) db h =
      create-keeps P new now random secret tenant_id d db h
  step-keeps P new used revoked (key_validated now key) db h =
      unfold validate_api_key in
      accept-keeps P used now (find_key (sha256 key) db.api_keys db.tenants) db h
  step-keeps P new used revoked (key_revoked id tenant_id) db h =
      unfold revoke_api_key in
      revoked (λ k. str_eq k.id id && str_eq k.tenant_id tenant_id) db.api_keys h
