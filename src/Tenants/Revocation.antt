-- ===== src/Tenants/Revocation.antt =====
-- What becomes of a key that was revoked.
use log_librarian.Prelude.{
  ◌∙◌, ℕ, ◌≡◌, refl, sym, ap, String, Bool, true, false, ◌&&◌, none, some, List, [], ◌∷◌, All,
  arith, str_eq, eq_iff, Bool-cases, Option-cases, inl, inr,
}
use mathlib.Core.Path.{subst}
use log_librarian.Prelude.Dict.{str_eq_refl}
use log_librarian.Tenants.Tables.{ApiKey, Tenant, Tables, any_row, update_rows}
use log_librarian.Tenants.Accounts.{find_tenant}
use log_librarian.Tenants.Keys.{is_valid, accept, find_key, validate_api_key, revoke_api_key}
use log_librarian.Tenants.Calls.{Call, key_revoked, step, run}
use log_librarian.Tenants.Columns.{
  has_hash, IsDistinct, IsDistinct-update, any_row-update, All-update, step-keeps,
}

-- The key is not stored under the hash, or is not active.
abbrev IsDead : String → ApiKey → Type 0
IsDead hash k = (has_hash hash k && k.is_active) ≡ false

-- A key is stored under the hash, and such a key is not active.
abbrev IsRevoked : String → List ApiKey → Type 0
IsRevoked hash ks = (any_row (has_hash hash) ks ≡ true) × All (IsDead hash) ks

-- A key with the hash that is not active is not accepted.
dead_key :
    (hash : String) (k : ApiKey) (t : Tenant) (now : ℕ) (db : Tables)
    → str_eq k.key_hash hash ≡ true
    → IsDead hash k
    → (accept now (some (k, t)) db).0 ≡ none
unfolding accept is_valid
dead_key hash k t now db e h = ground (arith, e, h)

dead_found :
    (hash : String) (ks : List ApiKey) (ts : List Tenant) (now : ℕ) (db : Tables)
    → All (IsDead hash) ks
    → (accept now (find_key hash ks ts) db).0 ≡ none
unfolding find_key
dead_found hash [] ts now db h = unfold accept in refl
dead_found hash (k ∷ ks) ts now db h = elim (Bool-cases (str_eq k.key_hash hash)) [
  | inl e ↦ elim (Option-cases (find_tenant k.tenant_id ts)) [
    | inl gone ↦ rw (e, gone) (dead_found hash ks ts now db h.1)
    | inr (t, there) ↦ rw (e, there) (dead_key hash k t now db e h.0)
  ]
  | inr e ↦ rw e (dead_found hash ks ts now db h.1)
]

absent-IsDead :
    (hash : String) (ks : List ApiKey) → any_row (has_hash hash) ks ≡ false → All (IsDead hash) ks
unfolding any_row
absent-IsDead hash [] h = tt
absent-IsDead hash (k ∷ ks) h = (ground (arith, h), absent-IsDead hash ks (ground (arith, h)))

absent_found :
    (hash : String) (ks : List ApiKey) (ts : List Tenant)
    → any_row (has_hash hash) ks ≡ false
    → find_key hash ks ts ≡ none
unfolding any_row find_key
absent_found hash [] ts h = refl
absent_found hash (k ∷ ks) ts h = ground (arith, h, absent_found hash ks ts)

cons_other :
    (hash : String) (k : ApiKey) (ks : List ApiKey)
    → has_hash hash k ≡ false
    → IsRevoked hash ks
    → IsRevoked hash (k ∷ ks)
unfolding any_row
cons_other hash k ks e h = (ground (arith, e, h.0), (ground (arith, e), h.1))

cons_same :
    (hash : String) (k : ApiKey) (ks : List ApiKey)
    → has_hash hash k ≡ true
    → k.is_active ≡ false
    → All (IsDead hash) ks
    → IsRevoked hash (k ∷ ks)
unfolding any_row
cons_same hash k ks e a h = (ground (arith, e), (ground (arith, a), h))

abbrev deactivate : ApiKey → ApiKey
deactivate k = record k { is_active = false }

IsDead-deactivate : (hash : String) (k : ApiKey) → IsDead hash k → IsDead hash (deactivate k)
IsDead-deactivate hash k h = ground arith

-- Keys of which the one that a hash finds is deactivated, among others, are revoked for the hash.
deactivate-IsRevoked :
    (hash : String) (chosen : ApiKey → Bool) (ks : List ApiKey) (ts : List Tenant) (k : ApiKey)
    (t : Tenant)
    → chosen k ≡ true
    → IsDistinct ks
    → find_key hash ks ts ≡ some (k, t)
    → IsRevoked hash (update_rows chosen deactivate ks)
unfolding find_key update_rows
deactivate-IsRevoked hash chosen [] ts k t c d found = absurd (ground (arith, found))
deactivate-IsRevoked hash chosen (j ∷ ks) ts k t c d found =
    elim (Bool-cases (str_eq j.key_hash hash)) [
      | inr other ↦
          let rest =
            deactivate-IsRevoked hash chosen ks ts k t c d.1
              (subst (λ r. r ≡ some (k, t)) (rw other refl) found) in
          elim (Bool-cases (chosen j)) [
            | inl e ↦
                rw e (cons_other hash (deactivate j) (update_rows chosen deactivate ks) other rest)
            | inr e ↦ rw e (cons_other hash j (update_rows chosen deactivate ks) other rest)
          ]
      | inl same ↦
          let alone : any_row (has_hash hash) ks ≡ false =
            subst (λ i. any_row (has_hash i) ks ≡ false) ((eq_iff j.key_hash hash).0 same) d.0 in
          elim (Option-cases (find_tenant j.tenant_id ts)) [
            | inl gone ↦
                let nothing : none ≡ some (k, t) =
                  sym (absent_found hash ks ts alone) ∙ sym (rw (same, gone) refl) ∙ found in
                absurd (ground (arith, nothing))
            | inr (t', there) ↦
                let same_row : some (j, t') ≡ some (k, t) = sym (rw (same, there) refl) ∙ found in
                let is_chosen : chosen j ≡ true =
                  ap (λ r. elim r [ none ↦ true | some x ↦ chosen x.0 ]) same_row ∙ c in
                rw is_chosen (
                  cons_same hash (deactivate j) (update_rows chosen deactivate ks) same refl (
                    All-update (IsDead hash) chosen deactivate ks (IsDead-deactivate hash)
                      (absent-IsDead hash ks alone)))
          ]
    ]

new-IsRevoked :
    (hash : String) (k : ApiKey) (ks : List ApiKey)
    → any_row (has_hash k.key_hash) ks ≡ false
    → IsRevoked hash ks
    → IsRevoked hash (k ∷ ks)
new-IsRevoked hash k ks new h = elim (Bool-cases (str_eq k.key_hash hash)) [
  | inl same ↦
      let absent : any_row (has_hash hash) ks ≡ false =
        subst (λ i. any_row (has_hash i) ks ≡ false) ((eq_iff k.key_hash hash).0 same) new in
      absurd (ground (arith, absent, h.0))
  | inr other ↦ cons_other hash k ks other h
]

update-IsRevoked :
    (hash : String) (chosen : ApiKey → Bool) (change : ApiKey → ApiKey) (ks : List ApiKey)
    → ((k : ApiKey) → has_hash hash (change k) ≡ has_hash hash k)
    → ((k : ApiKey) → IsDead hash k → IsDead hash (change k))
    → IsRevoked hash ks
    → IsRevoked hash (update_rows chosen change ks)
update-IsRevoked hash chosen change ks same keep h = (
  any_row-update (has_hash hash) chosen change ks same ∙ h.0,
  All-update (IsDead hash) chosen change ks keep h.1,
)

abbrev pub no_tables : Tables
no_tables = record { tenants = []; api_keys = [] }

module _ (sha256 : String → String) where
  step-IsDistinct :
      (c : Call) (db : Tables) → IsDistinct db.api_keys → IsDistinct (step sha256 c db).api_keys
  step-IsDistinct =
      step-keeps sha256 IsDistinct (λ k ks new d. (new, d))
        (λ chosen now ks d. IsDistinct-update chosen _ ks (λ k. refl) d)
        (λ chosen ks d. IsDistinct-update chosen _ ks (λ k. refl) d)

  step-IsRevoked :
      (hash : String) (c : Call) (db : Tables)
      → IsRevoked hash db.api_keys
      → IsRevoked hash (step sha256 c db).api_keys
  step-IsRevoked hash =
      step-keeps sha256 (IsRevoked hash) (new-IsRevoked hash)
        (λ chosen now ks h. update-IsRevoked hash chosen _ ks (λ k. refl) (λ k d. d) h)
        (λ chosen ks h.
          update-IsRevoked hash chosen deactivate ks (λ k. refl) (IsDead-deactivate hash) h)

  run-IsDistinct :
      (cs : List Call) (db : Tables)
      → IsDistinct db.api_keys
      → IsDistinct (run sha256 cs db).api_keys
  unfolding run
  run-IsDistinct [] db d = d
  run-IsDistinct (c ∷ cs) db d = run-IsDistinct cs (step sha256 c db) (step-IsDistinct c db d)

  run-IsRevoked :
      (hash : String) (cs : List Call) (db : Tables)
      → IsRevoked hash db.api_keys
      → IsRevoked hash (run sha256 cs db).api_keys
  unfolding run
  run-IsRevoked hash [] db h = h
  run-IsRevoked hash (c ∷ cs) db h =
      run-IsRevoked hash cs (step sha256 c db) (step-IsRevoked hash c db h)

  revoke-IsRevoked :
      (hash : String) (db : Tables) (k : ApiKey) (t : Tenant)
      → IsDistinct db.api_keys
      → find_key hash db.api_keys db.tenants ≡ some (k, t)
      → IsRevoked hash (step sha256 (key_revoked k.id k.tenant_id) db).api_keys
  unfolding step revoke_api_key
  revoke-IsRevoked hash db k t d found =
      deactivate-IsRevoked hash (λ r. str_eq r.id k.id && str_eq r.tenant_id k.tenant_id)
        db.api_keys db.tenants k t (rw (str_eq_refl k.id, str_eq_refl k.tenant_id) refl) d found

  validate-IsRevoked :
      (now : ℕ) (api_key : String) (db : Tables)
      → IsRevoked (sha256 api_key) db.api_keys
      → (validate_api_key sha256 now api_key db).0 ≡ none
  unfolding validate_api_key
  validate-IsRevoked now api_key db h =
      dead_found (sha256 api_key) db.api_keys db.tenants now db h.1

  -- Take tables that any calls have led to from empty ones, and a key that finds a row there. Once
  -- that row's key is revoked, no later `validate_api_key` accepts the key, whatever calls come
  -- between: updates, new keys with any random parts, revocations, and validations at any time.
  pub revoked_stays_refused :
      (before after : List Call) (api_key : String) (k : ApiKey) (t : Tenant) (now : ℕ)
      → find_key
          (sha256 api_key)
          (run sha256 before no_tables).api_keys
          (run sha256 before no_tables).tenants
        ≡ some (k, t)
      → (validate_api_key sha256 now api_key (
          run sha256 after
            (step sha256 (key_revoked k.id k.tenant_id) (run sha256 before no_tables)))).0
        ≡ none
  revoked_stays_refused before after api_key k t now found =
      let hash = sha256 api_key in
      let db = run sha256 before no_tables in
      let db' = step sha256 (key_revoked k.id k.tenant_id) db in
      validate-IsRevoked now api_key (run sha256 after db') (
        run-IsRevoked hash after db'
          (revoke-IsRevoked hash db k t (run-IsDistinct before no_tables tt) found))
