-- ===== src/App/Links.antt =====
-- `AuthorizeTenantPair`, `RegisterCounterpartyAlias` and `RevokeTenantLink` of
-- internal/app/usecases.go.
use Prim.Native.String.{◌++◌}
use ledgerops.Prelude.{String, Bool, true, false, Option, none, some, List, [], ◌∷◌, ◌==◌, any}
use ledgerops.Domain.Violation.{tenant_not_found, tenant_link_not_found}
use ledgerops.Domain.TenantLink.{TenantLink, revoked, authorize_tenant_pair, revoke_tenant_link}
use ledgerops.Domain.CounterpartyAlias.{CounterpartyAlias, register_counterparty_alias}
use ledgerops.Ports.Shell.{
  found_or, Shell, pure, decide, ◌>>=◌, ◌>>◌, statement, query, next_id, with_unit_of_work,
}
use ledgerops.Postgres.Tenants
use ledgerops.Postgres.TenantLinks
use ledgerops.Postgres.CounterpartyAliases

-- Whether one tenant is provisioned: the body of the loop of `provisionedTenants`.
unfoldable pub is_provisioned : String → Shell Bool
is_provisioned tenant_id w =
    found_or (λ _. true) (λ kind. elim kind [ tenant_not_found ↦ some false | _ ↦ none ])
      (query (Tenants.by_id tenant_id) w)

-- `provisionedTenants`: those of the ids that name a tenant.
unfoldable pub provisioned_tenants : List String → Shell (List String)
unfolding is_provisioned
provisioned_tenants [] = pure []
provisioned_tenants (id ∷ ids) = do
  found ← is_provisioned id
  known ← provisioned_tenants ids
  pure (elim found [ true ↦ id ∷ known | false ↦ known ])

-- `activeLinkSnapshot`
unfoldable pub active_link_snapshot : String → String → Shell (List TenantLink)
active_link_snapshot a b = do
  found ← query (TenantLinks.active_by_pair a b)
  pure (elim found [ none ↦ [] | some link ↦ link ∷ [] ])

unfoldable pub authorize : String → String → Shell TenantLink
unfolding provisioned_tenants active_link_snapshot
authorize tenant_a tenant_b = with_unit_of_work (do
  known ← provisioned_tenants (tenant_a ∷ tenant_b ∷ [])
  existing ← active_link_snapshot tenant_a tenant_b
  id ← next_id
  link ← decide (
      authorize_tenant_pair ("lnk_" ++ id) tenant_a tenant_b existing
        (λ t. any (λ k. k == t) known))
  statement (TenantLinks.create link)
  pure link)

-- The zero value that a lookup returns beside `false`.
abbrev pub no_link : TenantLink
no_link = record { link_id = ""; tenant_a = ""; tenant_b = ""; status = revoked }

abbrev pub or_no_link : Option TenantLink → TenantLink × Bool
or_no_link none = (no_link, false)
or_no_link (some link) = (link, true)

unfoldable pub register_alias : String → String → String → String → Shell CounterpartyAlias
register_alias tenant_id alias target_tenant_id target_account_id = with_unit_of_work (do
  found ← query (TenantLinks.active_by_pair tenant_id target_tenant_id)
  registered ← decide (
      register_counterparty_alias tenant_id alias (or_no_link found).0 (or_no_link found).1
        target_tenant_id target_account_id)
  statement (CounterpartyAliases.create registered)
  pure registered)

-- `tenantLinkSnapshot`
unfoldable pub tenant_link_snapshot : String → Shell (List TenantLink)
tenant_link_snapshot link_id w =
    found_or (λ link. link ∷ []) (λ kind. elim kind [ tenant_link_not_found ↦ some [] | _ ↦ none ])
      (query (TenantLinks.by_id link_id) w)

unfoldable pub revoke : String → Shell (Unit {0})
unfolding tenant_link_snapshot
revoke link_id = with_unit_of_work (do
  existing ← tenant_link_snapshot link_id
  ended ← decide (revoke_tenant_link link_id existing)
  statement (TenantLinks.revoke ended.link_id))
