-- ===== src/Postgres/CounterpartyAliases.antt =====
-- internal/adapters/postgres/counterparty_aliases.go (migration 0005).
use ledgerops.Prelude.{
  String, true, not, ◌&&◌, ◌||◌, Option, none, some, [], ◌∷◌, ◌++◌, ◌==◌, find, any, if◌then◌else◌,
  Result, ok, err,
}
use ledgerops.Domain.Violation.{Violation}
use ledgerops.Domain.TenantLink.{authorize_tenant_pair}
use ledgerops.Domain.CounterpartyAlias.{CounterpartyAlias, register_counterparty_alias}
use ledgerops.Ports.Vocabulary.{Error, violation, infrastructure}
use ledgerops.Postgres.Tables.{Db}
use ledgerops.Postgres.Accounts.{has_key}

-- `reconstructCounterpartyAlias`: a stored row through the domain's constructors.
unfoldable pub reconstruct : CounterpartyAlias → Result Violation CounterpartyAlias
reconstruct r =
    elim (authorize_tenant_pair r.tenant_link_id "placeholder-a" "placeholder-b" []
      (λ t. t == "placeholder-a" || t == "placeholder-b")) [
        | err v ↦ err v
        | ok placeholder_link ↦
            register_counterparty_alias r.tenant_id r.alias placeholder_link true r.target_tenant_id
              r.target_account_id
      ]

-- `Create`: one alias for each name of a tenant; the link, both tenants and the target account exist.
unfoldable pub create : CounterpartyAlias → Db → Result Error (Unit {0} × Db)
create alias db =
    if any (λ r. r.tenant_id == alias.tenant_id && r.alias == alias.alias) db.counterparty_aliases
      || not (any (λ r. r.link_id == alias.tenant_link_id) db.tenant_links)
      || not (any (λ r. r.tenant_id == alias.tenant_id) db.tenants)
      || not (any (λ r. r.tenant_id == alias.target_tenant_id) db.tenants)
      || not (any (has_key alias.target_tenant_id alias.target_account_id) db.accounts)
    then err infrastructure
    else ok (tt, record db { counterparty_aliases = db.counterparty_aliases ++ alias ∷ [] })

-- `ByTenantAndAlias`
unfoldable pub by_tenant_and_alias : String → String → Db → Result Error (Option CounterpartyAlias)
unfolding reconstruct
by_tenant_and_alias tenant_id alias db =
    elim (find (λ (r : CounterpartyAlias). r.tenant_id == tenant_id && r.alias == alias)
      db.counterparty_aliases) [
        | none ↦ ok none
        | some r ↦ elim (reconstruct r) [ ok a ↦ ok (some a) | err v ↦ err (violation v) ]
      ]
