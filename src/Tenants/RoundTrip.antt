-- ===== src/Tenants/RoundTrip.antt =====
-- How a key that was created is validated.
use log_librarian.Prelude.{
  ◌∙◌, ℕ, ◌≡◌, refl, ap, String, true, false, Option, none, some, List, ◌∷◌, arith, str_eq,
  Bool-cases, inl, inr,
}
use mathlib.Core.Path.{subst}
use log_librarian.Prelude.Dict.{str_eq_refl}
use log_librarian.Tenants.Tables.{Tenant, ApiKey, Tables}
use log_librarian.Tenants.Accounts.{find_tenant, get_tenant}
use log_librarian.Tenants.Keys.{
  ApiKeyCreate, new_key, expiry, is_known, expired, is_suspended, is_super, find_key, is_valid,
  context_of, create_api_key, accept, validate_api_key,
}

found_first :
    (hash : String) (k : ApiKey) (ks : List ApiKey) (ts : List Tenant) (t : Tenant)
    → k.key_hash ≡ hash
    → find_tenant k.tenant_id ts ≡ some t
    → find_key hash (k ∷ ks) ts ≡ some (k, t)
unfolding find_key
found_first hash k ks ts t h e = rw (ap (λ i. str_eq i hash) h ∙ str_eq_refl hash, find_key, e) refl

valid_key :
    (now : ℕ) (k : ApiKey) (t : Tenant)
    → k.is_active ≡ true
    → expired k.expires_at now ≡ false
    → is_suspended t.status ≡ false
    → is_valid now k t ≡ true
unfolding is_valid
valid_key now k t a e s = ground arith

accepted :
    (now : ℕ) (k : ApiKey) (t : Tenant) (db : Tables)
    → is_valid now k t ≡ true
    → (accept now (some (k, t)) db).0 ≡ some (context_of k t)
unfolding accept
accepted now k t db h = rw (h, accept) refl

module _ (sha256 : String → String) where
  -- What a creation returned is accepted, if it returned.
  abbrev IsAccepted :
      ℕ → Tenant → ApiKeyCreate → String → Option (ApiKey × String × Tables) → Type 0
  IsAccepted later t key_data tenant_id none = Unit
  IsAccepted later t key_data tenant_id (some (key, api_key, db)) =
      (validate_api_key sha256 later api_key db).0
      ≡ some (record {
        tenant_id = tenant_id;
        tenant_name = t.name;
        role = key_data.role;
        api_key_id = key.id;
        is_super_admin = is_super key_data.role;
      })

  create-IsAccepted :
      (now later : ℕ) (random secret tenant_id : String) (key_data : ApiKeyCreate) (t : Tenant)
      (db : Tables)
      → get_tenant tenant_id db ≡ some t
      → is_suspended t.status ≡ false
      → expired (expiry now key_data.expires_in_days) later ≡ false
      → IsAccepted later t key_data tenant_id
          (create_api_key sha256 now random secret tenant_id key_data db)
  unfolding create_api_key validate_api_key context_of get_tenant
  create-IsAccepted now later random secret tenant_id key_data t db found awake fresh =
      let key = new_key sha256 now random secret tenant_id key_data in
      elim (Bool-cases (is_known key.id key.key_hash db.api_keys)) [
        | inl e ↦ rw (e, create_api_key) tt
        | inr e ↦
            rw (e, create_api_key, found_first key.key_hash key db.api_keys db.tenants t refl found)
              (accepted later key t (record db { api_keys = key ∷ db.api_keys })
                (valid_key later key t refl fresh awake))
      ]

  -- For a tenant that is not suspended, a key that `create_api_key` returns is accepted by
  -- `validate_api_key` until the time of its expiry, if it has one; the context has the tenant's id
  -- and name, and the id and the role of the key.
  pub validate-create :
      (now later : ℕ) (random secret tenant_id : String) (key_data : ApiKeyCreate) (t : Tenant)
      (db db' : Tables) (key : ApiKey) (api_key : String)
      → get_tenant tenant_id db ≡ some t
      → is_suspended t.status ≡ false
      → create_api_key sha256 now random secret tenant_id key_data db ≡ some (key, api_key, db')
      → expired (expiry now key_data.expires_in_days) later ≡ false
      → (validate_api_key sha256 later api_key db').0
        ≡ some (record {
          tenant_id = tenant_id;
          tenant_name = t.name;
          role = key_data.role;
          api_key_id = key.id;
          is_super_admin = is_super key_data.role;
        })
  validate-create now later random secret tenant_id key_data t db db' key api_key found awake made
        fresh =
      subst (λ r. IsAccepted later t key_data tenant_id r) made
        (create-IsAccepted now later random secret tenant_id key_data t db found awake fresh)
