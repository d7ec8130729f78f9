-- ===== src/App/Provisioning.antt =====
-- `ProvisionTenant` of internal/app/usecases.go. SHA-256 is a parameter.
use Prim.Native.String.{◌++◌}
use ledgerops.Prelude.{String, Bool, true, false, none, some}
use ledgerops.Domain.Violation.{tenant_not_found}
use ledgerops.Domain.Tenant.{provision_tenant}
use ledgerops.Ports.Shell.{
  found_or, Shell, pure, decide, ◌>>=◌, ◌>>◌, statement, query, next_id, with_unit_of_work,
}
use ledgerops.Postgres.Tenants

-- `tenantNameAlreadyTaken`
unfoldable pub tenant_name_already_taken : String → Shell Bool
tenant_name_already_taken name w =
    found_or (λ _. true) (λ kind. elim kind [ tenant_not_found ↦ some false | _ ↦ none ])
      (query (Tenants.by_name name) w)

pub record ProvisionedTenant : Type 0 where
  pub tenant_id : String
  pub name : String
  pub tenant_key : String

unfoldable pub provision : (String → String) → String → Shell ProvisionedTenant
unfolding tenant_name_already_taken
provision sha256_hex name = with_unit_of_work (do
  already_taken ← tenant_name_already_taken name
  id ← next_id
  key ← next_id
  tenant ← decide (provision_tenant ("tnt_" ++ id) name ("tk_" ++ key) already_taken)
  statement (Tenants.create sha256_hex tenant)
  pure
      (record { tenant_id = tenant.tenant_id; name = tenant.name; tenant_key = tenant.credential }))
