-- ===== src/Postgres/Tenants.antt =====
-- internal/adapters/postgres/tenants.go (migration 0003). The credential's hash is SHA-256, which
-- is a parameter.
use ledgerops.Prelude.{
  String, ◌||◌, Option, none, some, [], ◌∷◌, ◌++◌, ◌==◌, find, any, if◌then◌else◌, Result, ok, err,
}
use ledgerops.Domain.Violation.{new_tenant_not_found}
use ledgerops.Domain.Tenant.{Tenant}
use ledgerops.Ports.Vocabulary.{Error, violation, infrastructure}
use ledgerops.Postgres.Tables.{Db, TenantRow}

abbrev pub tenant_from_row : TenantRow → Tenant
tenant_from_row r = record { tenant_id = r.tenant_id; name = r.name; credential = "" }

-- `ByName`
unfoldable pub by_name : String → Db → Result Error Tenant
by_name name db = elim (find (λ (r : TenantRow). r.name == name) db.tenants) [
  | none ↦ err (violation (new_tenant_not_found name))
  | some r ↦ ok (tenant_from_row r)
]

-- `ByID`
unfoldable pub by_id : String → Db → Result Error Tenant
by_id tenant_id db = elim (find (λ (r : TenantRow). r.tenant_id == tenant_id) db.tenants) [
  | none ↦ err (violation (new_tenant_not_found tenant_id))
  | some r ↦ ok (tenant_from_row r)
]

-- `Create`: the id, the name and the hash are each unique.
unfoldable pub create : (String → String) → Tenant → Db → Result Error (Unit {0} × Db)
create sha256_hex tenant db =
    let hash = sha256_hex tenant.credential in
    if any
      (λ r. r.tenant_id == tenant.tenant_id || r.name == tenant.name || r.credential_hash == hash)
      db.tenants
    then err infrastructure
    else ok (
      tt,
      record db {
        tenants =
            db.tenants
            ++ record { tenant_id = tenant.tenant_id; name = tenant.name; credential_hash = hash }
              ∷ [];
      },
    )

-- The resolver of `NewTenantKeyResolver`: the tenant that a credential's hash belongs to.
unfoldable pub resolve_tenant_key : String → Db → Option String
resolve_tenant_key hash db = elim (find (λ (r : TenantRow). r.credential_hash == hash) db.tenants) [
  | none ↦ none
  | some r ↦ some r.tenant_id
]
