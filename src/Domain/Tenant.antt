-- ===== src/Domain/Tenant.antt =====
-- internal/domain/tenant.go: the tenant aggregate.
use ledgerops.Prelude.{String, Bool, if◌then◌else◌, Result, ok, err}
use ledgerops.Domain.Violation.{Violation, new_tenant_already_exists}

pub record Tenant : Type 0 where
  pub tenant_id : String
  pub name : String
  pub credential : String

unfoldable pub new_tenant : String → String → String → Result Violation Tenant
new_tenant tenant_id name credential =
    ok (record { tenant_id = tenant_id; name = name; credential = credential })

unfoldable pub provision_tenant : String → String → String → Bool → Result Violation Tenant
unfolding new_tenant
provision_tenant tenant_id name credential name_already_taken =
    if name_already_taken
    then err (new_tenant_already_exists name)
    else new_tenant tenant_id name credential
