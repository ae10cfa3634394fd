-- ===== src/Tenants/Examples.antt =====
-- The theorems on API keys at concrete calls, and runs of the code.
use log_librarian.Prelude.{◌≡◌, refl, String, false, none, some, List, [], ◌∷◌}
use log_librarian.Tenants.Tables.{tenant_user, active, Tenant, ApiKey, Tables}
use log_librarian.Tenants.Accounts.{get_tenant}
use log_librarian.Tenants.Keys.{
  ApiKeyCreate, new_key, expiry, expired, is_suspended, is_super, find_key, create_api_key,
  validate_api_key,
}
use log_librarian.Tenants.Calls.{
  Call, tenant_created, tenant_deleted, key_created, key_validated, key_revoked, step, run,
}
use log_librarian.Tenants.Requests.{denied, require_tenant, require_super_admin}
use log_librarian.Tenants.RoundTrip.{validate-create}
use log_librarian.Tenants.Revocation.{no_tables, revoked_stays_refused}

-- A hash that tells texts apart.
abbrev hash_of : String → String
hash_of s = s

abbrev acme : Tenant
acme = record {
  id = "tenant_01";
  name = "Acme";
  contact_email = "ops@acme.example";
  max_agents = 10;
  status = active;
  created_at = 100;
  updated_at = 100;
}

abbrev one_tenant : Tables
one_tenant = record { tenants = acme ∷ []; api_keys = [] }

abbrev for_week : ApiKeyCreate
for_week = record { name = "ci"; role = tenant_user; expires_in_days = some 7 }

abbrev made : ApiKey
made = new_key hash_of 200 "a1" "s3cret" "tenant_01" for_week

abbrev with_key : Tables
with_key = record one_tenant { api_keys = made ∷ [] }

acme_found : get_tenant "tenant_01" one_tenant ≡ some acme
unfolding get_tenant
acme_found = refl

acme_awake : is_suspended acme.status ≡ false
unfolding is_suspended
acme_awake = refl

key_made :
    create_api_key hash_of 200 "a1" "s3cret" "tenant_01" for_week one_tenant
    ≡ some (made, "ll_s3cret", with_key)
unfolding create_api_key
key_made = refl

key_fresh : expired (expiry 200 (some 7)) 5000 ≡ false
unfolding expired expiry
key_fresh = refl

validate-create_example :
    (validate_api_key hash_of 5000 "ll_s3cret" with_key).0
    ≡ some (record {
      tenant_id = "tenant_01";
      tenant_name = "Acme";
      role = tenant_user;
      api_key_id = made.id;
      is_super_admin = is_super tenant_user;
    })
validate-create_example =
    validate-create hash_of 200 5000 "a1" "s3cret" "tenant_01" for_week acme one_tenant with_key
      made "ll_s3cret" acme_found acme_awake key_made key_fresh

-- A tenant user's key is no super admin's.
denied_lem :
    require_super_admin (require_tenant hash_of 5000 none (some "Bearer ll_s3cret") with_key).0
    ≡ denied 403
unfolding require_super_admin require_tenant validate_api_key expiry
denied_lem = refl

abbrev setup : List Call
setup =
    tenant_created 100 "01" (record {
      name = "Acme";
      contact_email = "ops@acme.example";
      max_agents = 10;
      status = active;
    })
    ∷ key_created 200 "a1" "s3cret" "tenant_01" for_week
    ∷ key_created 210 "a2" "other" "tenant_01" for_week
    ∷ []

abbrev later_calls : List Call
later_calls =
    key_created 300 "a3" "s3cret" "tenant_01" for_week
    ∷ key_validated 310 "ll_other"
    ∷ tenant_deleted 320 "tenant_01"
    ∷ []

setup_found :
    find_key
      (hash_of "ll_s3cret")
      (run hash_of setup no_tables).api_keys
      (run hash_of setup no_tables).tenants
    ≡ some (made, acme)
unfolding run find_key create_api_key
setup_found = refl

revoked_stays_refused_example :
    (validate_api_key hash_of 400 "ll_s3cret" (
      run hash_of later_calls
        (step hash_of (key_revoked made.id made.tenant_id) (run hash_of setup no_tables)))).0
    ≡ none
revoked_stays_refused_example =
    revoked_stays_refused hash_of setup later_calls "ll_s3cret" made acme 400 setup_found
