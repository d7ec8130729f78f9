-- ===== src/Domain/CounterpartyAlias/Laws.antt =====
-- An alias resolves to what it was registered for, in its owner's namespace and while its link is
-- active (internal/domain/counterparty_alias.go).
use ledgerops.Prelude.{String, ◌≡◌, true, eq_refl, ok, err, arith, List}
use ledgerops.Domain.Violation.{new_counterparty_not_found, new_tenant_link_not_found}
use ledgerops.Domain.TenantLink.{TenantLink, active, revoke_tenant_link}
use ledgerops.Domain.TenantLink.Laws.{revoke_tenant_link_ends}
use ledgerops.Domain.CounterpartyAlias.{
  CounterpartyAlias, register_counterparty_alias, resolve_counterparty,
}

-- A registered alias resolves to its target as long as the link that it names is active.
pub resolve-register :
    (tenant_id alias : String) (link now : TenantLink) (target account : String)
    {registered : CounterpartyAlias}
    → register_counterparty_alias tenant_id alias link true target account ≡ ok registered
    → now.status ≡ active
    → resolve_counterparty tenant_id alias registered true now true ≡ ok (target, account)
unfolding register_counterparty_alias resolve_counterparty
resolve-register tenant_id alias link now target account h e =
    ground (arith, eq_refl tenant_id, eq_refl alias)

-- Once its link is revoked, an alias resolves to nothing, and none is registered against it.
pub resolve-revoke :
    (tenant_id alias target account link_id : String) (links : List TenantLink)
    (snapshot : CounterpartyAlias) {ended : TenantLink}
    → revoke_tenant_link link_id links ≡ ok ended
    → (resolve_counterparty tenant_id alias snapshot true ended true
        ≡ err new_counterparty_not_found)
      × (register_counterparty_alias tenant_id alias ended true target account
          ≡ err new_tenant_link_not_found)
unfolding register_counterparty_alias resolve_counterparty
resolve-revoke tenant_id alias target account link_id links snapshot h =
    ground (arith, revoke_tenant_link_ends link_id links h)
