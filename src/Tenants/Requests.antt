-- ===== src/Tenants/Requests.antt =====
-- The dependencies of librarian/tenants.py that authenticate a request by its headers.
use text.Mathlib.Text.{starts_with}
use log_librarian.Prelude.{
  ℕ, zero, suc, String, Bool, true, false, Option, none, some, if◌then◌else◌, str_eq,
}
use log_librarian.Tenants.Tables.{
  TenantRole, tenant_user, tenant_admin, super_admin, TenantContext, Tables,
}
use log_librarian.Tenants.Keys.{validate_api_key}

-- What a dependency gives the route, or the status of the `HTTPException` that it raises.
pub data Authenticated (A : Type 0) : Type 0 where
  granted : A → Authenticated A
  denied : ℕ → Authenticated A

-- `s[n:]`
unfoldable pub drop_chars : ℕ → String → String
drop_chars zero s = s
drop_chars (suc n) String.[] = ""
drop_chars (suc n) (String.◌∷◌ c s) = drop_chars n s

-- The key of an `Authorization` header; an empty one is none.
unfoldable pub bearer_key : Option String → Option String
unfolding drop_chars
bearer_key none = none
bearer_key (some h) =
    if starts_with h "Bearer "
    then if str_eq (drop_chars 7 h) "" then none else some (drop_chars 7 h)
    else none

-- The header `X-API-Key`, if it is not empty, before `Authorization`.
unfoldable pub header_key : Option String → Option String → Option String
unfolding bearer_key
header_key none authorization = bearer_key authorization
header_key (some key) authorization = if str_eq key "" then bearer_key authorization else some key

unfoldable pub or_denied : Option TenantContext → Authenticated (Option TenantContext)
or_denied none = denied 401
or_denied (some c) = granted (some c)

module _ (sha256 : String → String) where
  -- The lookup of `get_optional_tenant`, for the key that the headers have.
  unfoldable pub authenticate :
      ℕ → Option String → Tables → Authenticated (Option TenantContext) × Tables
  unfolding validate_api_key or_denied
  authenticate now none db = (granted none, db)
  authenticate now (some key) db =
      let (context, db') = validate_api_key sha256 now key db in (or_denied context, db')

  -- `get_optional_tenant`
  unfoldable pub get_optional_tenant :
      ℕ → Option String → Option String → Tables → Authenticated (Option TenantContext) × Tables
  unfolding authenticate header_key
  get_optional_tenant now x_api_key authorization db =
      authenticate now (header_key x_api_key authorization) db

unfoldable pub require_context : Authenticated (Option TenantContext) → Authenticated TenantContext
require_context (denied status) = denied status
require_context (granted none) = denied 401
require_context (granted (some c)) = granted c

-- `require_tenant`
unfoldable pub require_tenant :
    (String → String)
    → ℕ
    → Option String
    → Option String
    → Tables
    → Authenticated TenantContext × Tables
unfolding get_optional_tenant require_context
require_tenant sha256 now x_api_key authorization db =
    let (r, db') = get_optional_tenant sha256 now x_api_key authorization db in
    (require_context r, db')

-- `require_super_admin`
unfoldable pub require_super_admin : Authenticated TenantContext → Authenticated TenantContext
require_super_admin (denied status) = denied status
require_super_admin (granted c) = if c.is_super_admin then granted c else denied 403

unfoldable pub is_admin : TenantRole → Bool
is_admin tenant_user = false
is_admin tenant_admin = true
is_admin super_admin = true

-- `require_tenant_admin`
unfoldable pub require_tenant_admin : Authenticated TenantContext → Authenticated TenantContext
unfolding is_admin
require_tenant_admin (denied status) = denied status
require_tenant_admin (granted c) = if is_admin c.role then granted c else denied 403
