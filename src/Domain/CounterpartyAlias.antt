-- ===== src/Domain/CounterpartyAlias.antt =====
-- internal/domain/counterparty_alias.go: tenant-scoped names of other tenants' accounts.
pub mod Laws
use ledgerops.Prelude.{String, Bool, not, ◌||◌, ◌==◌, Result, ok, ◌>>=◌, ◌>>◌, refuse_if}
use ledgerops.Domain.Violation.{Violation, new_tenant_link_not_found, new_counterparty_not_found}
use ledgerops.Domain.TenantLink.{TenantLink, is_active}

pub record CounterpartyAlias : Type 0 where
  pub tenant_id : String
  pub alias : String
  pub tenant_link_id : String
  pub target_tenant_id : String
  pub target_account_id : String

unfoldable pub register_counterparty_alias :
    String → String → TenantLink → Bool → String → String → Result Violation CounterpartyAlias
register_counterparty_alias tenant_id alias link link_found target_tenant_id target_account_id = do
  refuse_if (not link_found || not (is_active link.status)) new_tenant_link_not_found
  ok (record {
    tenant_id = tenant_id;
    alias = alias;
    tenant_link_id = link.link_id;
    target_tenant_id = target_tenant_id;
    target_account_id = target_account_id;
  })

unfoldable pub resolve_counterparty :
    String
    → String
    → CounterpartyAlias
    → Bool
    → TenantLink
    → Bool
    → Result Violation (String × String)
resolve_counterparty tenant_id alias snapshot alias_found link link_found = do
  refuse_if
      (not alias_found || not (snapshot.tenant_id == tenant_id) || not (snapshot.alias == alias))
      new_counterparty_not_found
  refuse_if (not link_found || not (is_active link.status)) new_counterparty_not_found
  ok (snapshot.target_tenant_id, snapshot.target_account_id)
