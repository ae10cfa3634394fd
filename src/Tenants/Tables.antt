-- ===== src/Tenants/Tables.antt =====
-- The data of librarian/tenants.py, and the two tables of its schema, each as the list of its rows.
-- No query depends on the order of the rows. Times are whole seconds.
use log_librarian.Prelude.{
  ℕ, suc, String, Bool, false, ◌||◌, Option, List, [], ◌∷◌, str_eq, if◌then◌else◌,
}

pub data TenantRole : Type 0 where
  tenant_user tenant_admin super_admin : TenantRole

pub data TenantStatus : Type 0 where
  active suspended trial : TenantStatus

-- A row of `tenants`, and the model `Tenant`, which has the same fields.
pub record Tenant : Type 0 where
  pub id : String
  pub name : String
  pub contact_email : String
  pub max_agents : ℕ
  pub status : TenantStatus
  pub created_at : ℕ
  pub updated_at : ℕ

-- A row of `api_keys`.
pub record ApiKey : Type 0 where
  pub id : String
  pub tenant_id : String
  pub name : String
  pub key_hash : String
  pub role : TenantRole
  pub created_at : ℕ
  pub expires_at : Option ℕ
  pub last_used_at : Option ℕ
  pub is_active : Bool

pub record Tables : Type 0 where
  pub tenants : List Tenant
  pub api_keys : List ApiKey

pub record TenantContext : Type 0 where
  pub tenant_id : String
  pub tenant_name : String
  pub role : TenantRole
  pub api_key_id : String
  pub is_super_admin : Bool

-- `can_see_tenant`
unfoldable pub can_see_tenant : TenantContext → String → Bool
can_see_tenant c target = c.is_super_admin || str_eq c.tenant_id target

module _ {R : Type 0} where
  -- A unique column: if some row passes the test.
  unfoldable pub any_row : (R → Bool) → List R → Bool
  any_row test [] = false
  any_row test (r ∷ rows) = test r || any_row test rows

  -- `UPDATE ... SET ... WHERE ...`: the rows, and `cursor.rowcount`.
  unfoldable pub update_rows : (R → Bool) → (R → R) → List R → List R
  update_rows test change [] = []
  update_rows test change (r ∷ rows) =
      let rest = update_rows test change rows in if test r then change r ∷ rest else r ∷ rest

  unfoldable pub count_rows : (R → Bool) → List R → ℕ
  count_rows test [] = 0
  count_rows test (r ∷ rows) = let rest = count_rows test rows in if test r then suc rest else rest
