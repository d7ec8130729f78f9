-- ===== src/Http/Tenants.antt =====
-- Handlers of internal/adapters/http/handlers.go that the operator calls: tenants and their links.
use ledgerops.Prelude.{String, ◌||◌, Option, some, List, [], ◌∷◌, if◌then◌else◌}
use ledgerops.Domain.TenantLink.{TenantLink, TenantLinkStatus, active, revoked}
use ledgerops.Ports.Shell.{Shell, pure, ◌>>=◌, query}
use ledgerops.Postgres.Tenants
use ledgerops.App.Provisioning.{provision}
use ledgerops.App.Links.{authorize, revoke}
use ledgerops.App.Coordinator.Process.{shell}
use ledgerops.Http.Wire.{
  text, Json, scalar, Response, Site, Handler, write_json, malformed_request, run, decode_texts,
}
use ledgerops.Http.Status.{answer}
use ledgerops.Http.Auth.{Deps, read_only}
use ledgerops.Http.Accounts.{is_empty}

abbrev pub provision_fields : Deps → Option (List String) → Site → Response × Site
provision_fields deps (some (name ∷ [])) s =
    if is_empty name
    then malformed_request s
    else answer (run (shell (provision deps.sha256_hex name)) s) (λ provisioned. write_json 201 (
        ("tenant_id", scalar (text provisioned.tenant_id))
        ∷ ("name", scalar (text provisioned.name))
        ∷ ("tenant_key", scalar (text provisioned.tenant_key))
        ∷ []))
provision_fields deps _ s = malformed_request s

-- `provisionTenantHandler`
unfoldable pub provision_tenant_handler : Deps → Handler
unfolding provision
provision_tenant_handler deps req = provision_fields deps (decode_texts ("name" ∷ []) req.body)

abbrev pub link_status_text : TenantLinkStatus → String
link_status_text active = "active"
link_status_text revoked = "revoked"

-- `tenantLinkWire`
abbrev pub tenant_link_wire : TenantLink → List (String × Json)
tenant_link_wire link =
    ("link_id", scalar (text link.link_id))
    ∷ ("tenant_a", scalar (text link.tenant_a))
    ∷ ("tenant_b", scalar (text link.tenant_b))
    ∷ ("status", scalar (text (link_status_text link.status)))
    ∷ []

-- `resolveProvisionedTenantID`
unfoldable pub resolve_provisioned_tenant_id : String → Shell String
resolve_provisioned_tenant_id name =
    read_only (do tenant ← query (Tenants.by_name name); pure tenant.tenant_id)

-- `authorizeTenantPairHandler`, from the names of the pair.
abbrev pub authorize_fields : Option (List String) → Site → Response × Site
authorize_fields (some (a ∷ b ∷ [])) s =
    if is_empty a || is_empty b
    then malformed_request s
    else answer (run (shell (resolve_provisioned_tenant_id a)) s) (λ tenant_a s1.
      answer (run (shell (resolve_provisioned_tenant_id b)) s1) (λ tenant_b s2.
        answer (run (shell (authorize tenant_a tenant_b)) s2)
          (λ link. write_json 201 (tenant_link_wire link))))
authorize_fields _ s = malformed_request s

unfoldable pub authorize_tenant_pair_handler : Handler
unfolding authorize resolve_provisioned_tenant_id
authorize_tenant_pair_handler req =
    authorize_fields (decode_texts ("tenant_a" ∷ "tenant_b" ∷ []) req.body)

-- `revokeTenantLinkHandler`
unfoldable pub revoke_tenant_link_handler : Handler
unfolding revoke
revoke_tenant_link_handler req s = answer (run (shell (revoke req.url_param)) s) (λ _.
    write_json 200
      (("link_id", scalar (text req.url_param)) ∷ ("status", scalar (text "revoked")) ∷ []))
