-- ===== src/Tenants/Keys.antt =====
-- The API keys of `TenantDatabaseMixin`. SHA-256 and the random parts of a key are arguments.
use Prim.Native.String.{◌++◌}
use log_librarian.Prelude.{
  ℕ, ◌+◌, ◌*◌, String, Bool, true, false, ◌&&◌, ◌||◌, Option, none, some, List, [], ◌∷◌, ltb, ◌==◌,
  str_eq, if◌then◌else◌,
}
use log_librarian.Tenants.Tables.{
  TenantRole, super_admin, TenantStatus, active, suspended, trial, Tenant, ApiKey, Tables,
  TenantContext, any_row, update_rows, count_rows,
}
use log_librarian.Tenants.Accounts.{find_tenant}

pub record ApiKeyCreate : Type 0 where
  pub name : String
  pub role : TenantRole
  pub expires_in_days : Option ℕ

-- `if key_data.expires_in_days: now + timedelta(days=...)`
unfoldable pub expiry : ℕ → Option ℕ → Option ℕ
expiry now none = none
expiry now (some days) = if days == 0 then none else some (now + days * 86400)

-- The constraints of the table: the id is its primary key, and the hash is unique.
unfoldable pub is_known : String → String → List ApiKey → Bool
unfolding any_row
is_known id hash ks = any_row (λ k. str_eq k.id id || str_eq k.key_hash hash) ks

abbrev pub api_key_of : String → String
api_key_of secret = "ll_" ++ secret

unfoldable pub expired : Option ℕ → ℕ → Bool
expired none now = false
expired (some t) now = ltb t now

unfoldable pub is_suspended : TenantStatus → Bool
is_suspended suspended = true
is_suspended active = false
is_suspended trial = false

unfoldable pub is_super : TenantRole → Bool
is_super super_admin = true
is_super _ = false

-- The join of `validate_api_key`: the first key with the hash that has a tenant.
unfoldable pub find_key : String → List ApiKey → List Tenant → Option (ApiKey × Tenant)
unfolding find_tenant
find_key hash [] ts = none
find_key hash (k ∷ ks) ts =
    let rest = find_key hash ks ts in
    if str_eq k.key_hash hash
    then elim (find_tenant k.tenant_id ts) [ none ↦ rest | some t ↦ some (k, t) ]
    else rest

unfoldable pub context_of : ApiKey → Tenant → TenantContext
unfolding is_super
context_of k t = record {
  tenant_id = k.tenant_id;
  tenant_name = t.name;
  role = k.role;
  api_key_id = k.id;
  is_super_admin = is_super k.role;
}

unfoldable pub mark_used : ℕ → String → Tables → Tables
unfolding update_rows
mark_used now id db = record db {
  api_keys =
      update_rows (λ k. str_eq k.id id) (λ k. record k { last_used_at = some now }) db.api_keys;
}

-- The tests of `validate_api_key` on the row that it found, in their order.
unfoldable pub is_valid : ℕ → ApiKey → Tenant → Bool
unfolding expired is_suspended
is_valid now k t =
    if k.is_active
    then if expired k.expires_at now then false else if is_suspended t.status then false else true
    else false

unfoldable pub accept : ℕ → Option (ApiKey × Tenant) → Tables → Option TenantContext × Tables
unfolding is_valid mark_used context_of
accept now none db = (none, db)
accept now (some (k, t)) db =
    if is_valid now k t then (some (context_of k t), mark_used now k.id db) else (none, db)

module _ (sha256 : String → String) where
  abbrev pub new_key : ℕ → String → String → String → ApiKeyCreate → ApiKey
  new_key now random secret tenant_id key_data = record {
    id = "key_" ++ random;
    tenant_id = tenant_id;
    name = key_data.name;
    key_hash = sha256 (api_key_of secret);
    role = key_data.role;
    created_at = now;
    expires_at = expiry now key_data.expires_in_days;
    last_used_at = none;
    is_active = true;
  }

  -- `create_api_key`, the random parts of the id and of the key given; none where it raises.
  unfoldable pub create_api_key :
      ℕ → String → String → String → ApiKeyCreate → Tables → Option (ApiKey × String × Tables)
  unfolding expiry is_known
  create_api_key now random secret tenant_id key_data db =
      let key = new_key now random secret tenant_id key_data in
      if is_known key.id key.key_hash db.api_keys
      then none
      else some (key, api_key_of secret, record db { api_keys = key ∷ db.api_keys })

  -- `validate_api_key`
  unfoldable pub validate_api_key : ℕ → String → Tables → Option TenantContext × Tables
  unfolding find_key accept
  validate_api_key now api_key db = accept now (find_key (sha256 api_key) db.api_keys db.tenants) db

-- `revoke_api_key`
unfoldable pub revoke_api_key : String → String → Tables → Bool × Tables
unfolding update_rows count_rows
revoke_api_key key_id tenant_id db =
    let chosen : ApiKey → Bool = λ k. str_eq k.id key_id && str_eq k.tenant_id tenant_id in
    (
      ltb 0 (count_rows chosen db.api_keys),
      record db { api_keys = update_rows chosen (λ k. record k { is_active = false }) db.api_keys },
    )
