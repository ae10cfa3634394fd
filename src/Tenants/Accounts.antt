-- ===== src/Tenants/Accounts.antt =====
-- The tenant operations of `TenantDatabaseMixin`. The clock and the random part of an id are
-- arguments.
use Prim.Native.String.{◌++◌}
use log_librarian.Prelude.{
  ℕ, String, Bool, true, false, not, ◌&&◌, ◌||◌, Option, none, some, List, [], ◌∷◌, ltb, str_eq,
  if◌then◌else◌,
}
use log_librarian.Tenants.Tables.{
  Tenant, TenantStatus, suspended, Tables, any_row, update_rows, count_rows,
}

pub record TenantCreate : Type 0 where
  pub name : String
  pub contact_email : String
  pub max_agents : ℕ
  pub status : TenantStatus

pub record TenantUpdate : Type 0 where
  pub name : Option String
  pub contact_email : Option String
  pub max_agents : Option ℕ
  pub status : Option TenantStatus

-- `SELECT * FROM tenants WHERE id = ?`
unfoldable pub find_tenant : String → List Tenant → Option Tenant
find_tenant id [] = none
find_tenant id (t ∷ ts) = let rest = find_tenant id ts in if str_eq t.id id then some t else rest

unfoldable pub get_tenant : String → Tables → Option Tenant
unfolding find_tenant
get_tenant id db = find_tenant id db.tenants

-- The constraints of the table: the id is its primary key, and the name is unique.
unfoldable pub is_taken : String → String → List Tenant → Bool
unfolding any_row
is_taken id name ts = any_row (λ t. str_eq t.id id || str_eq t.name name) ts

-- `create_tenant`; none where it raises a `ValueError`.
unfoldable pub create_tenant : ℕ → String → TenantCreate → Tables → Option (Tenant × Tables)
unfolding is_taken
create_tenant now random tenant db =
    let created : Tenant = record {
      id = "tenant_" ++ random;
      name = tenant.name;
      contact_email = tenant.contact_email;
      max_agents = tenant.max_agents;
      status = tenant.status;
      created_at = now;
      updated_at = now;
    } in
    if is_taken ("tenant_" ++ random) tenant.name db.tenants
    then none
    else some (created, record db { tenants = created ∷ db.tenants })

or_old {ℓ} : {A : Type ℓ} → Option A → A → A
or_old none a = a
or_old (some b) a = b

is_given {ℓ} : {A : Type ℓ} → Option A → Bool
is_given none = false
is_given (some a) = true

-- If the update names a column.
unfoldable pub has_updates : TenantUpdate → Bool
unfolding is_given
has_updates u =
    is_given u.name || is_given u.contact_email || is_given u.max_agents || is_given u.status

unfoldable pub change_tenant : ℕ → TenantUpdate → Tenant → Tenant
unfolding or_old
change_tenant now u t = record t {
  name = or_old u.name t.name;
  contact_email = or_old u.contact_email t.contact_email;
  max_agents = or_old u.max_agents t.max_agents;
  status = or_old u.status t.status;
  updated_at = now;
}

-- If a row of another tenant has the new name.
unfoldable pub name_clashes : String → Option String → List Tenant → Bool
unfolding any_row
name_clashes id none ts = false
name_clashes id (some name) ts = any_row (λ t. not (str_eq t.id id) && str_eq t.name name) ts

-- `update_tenant`; none where it raises an `IntegrityError`, which needs a row to change.
unfoldable pub update_tenant : ℕ → String → TenantUpdate → Tables → Option (Option Tenant × Tables)
unfolding get_tenant has_updates change_tenant name_clashes update_rows any_row
update_tenant now id u db =
    let db' : Tables = record db {
      tenants = update_rows (λ t. str_eq t.id id) (change_tenant now u) db.tenants;
    } in
    if has_updates u
    then if any_row (λ t. str_eq t.id id) db.tenants && name_clashes id u.name db.tenants
      then none
      else some (get_tenant id db', db')
    else some (get_tenant id db, db)

-- `delete_tenant`
unfoldable pub delete_tenant : ℕ → String → Tables → Bool × Tables
unfolding update_rows count_rows
delete_tenant now id db = (
  ltb 0 (count_rows (λ t. str_eq t.id id) db.tenants),
  record db {
    tenants =
        update_rows (λ t. str_eq t.id id) (λ t. record t { status = suspended; updated_at = now })
          db.tenants;
  },
)
