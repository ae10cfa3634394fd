-- ===== src/Tenants/Calls.antt =====
-- Sequences of calls of the tenant database; a call that raises leaves the tables as they were.
use log_librarian.Prelude.{ℕ, String, Option, none, some, List, [], ◌∷◌}
use log_librarian.Tenants.Tables.{Tables}
use log_librarian.Tenants.Accounts.{
  TenantCreate, TenantUpdate, create_tenant, update_tenant, delete_tenant,
}
use log_librarian.Tenants.Keys.{ApiKeyCreate, create_api_key, validate_api_key, revoke_api_key}

pub data Call : Type 0 where
  tenant_created : ℕ → String → TenantCreate → Call
  tenant_updated : ℕ → String → TenantUpdate → Call
  tenant_deleted : ℕ → String → Call
  key_created : ℕ → String → String → String → ApiKeyCreate → Call
  key_validated : ℕ → String → Call
  key_revoked : String → String → Call

unfoldable pub tables_or {ℓ} : {A : Type ℓ} → Option (A × Tables) → Tables → Tables
tables_or none db = db
tables_or (some r) db = r.1

module _ (sha256 : String → String) where
  unfoldable pub step : Call → Tables → Tables
  unfolding tables_or create_tenant update_tenant delete_tenant validate_api_key revoke_api_key
  step (tenant_created now random t) db = tables_or (create_tenant now random t db) db
  step (tenant_updated now id u) db = tables_or (update_tenant now id u db) db
  step (tenant_deleted now id) db = (delete_tenant now id db).1
  step (key_created now random secret tenant_id d) db =
      elim (create_api_key sha256 now random secret tenant_id d db) [ none ↦ db | some r ↦ r.2 ]
  step (key_validated now key) db = (validate_api_key sha256 now key db).1
  step (key_revoked id tenant_id) db = (revoke_api_key id tenant_id db).1

  unfoldable pub run : List Call → Tables → Tables
  unfolding step
  run [] db = db
  run (c ∷ cs) db = run cs (step c db)
