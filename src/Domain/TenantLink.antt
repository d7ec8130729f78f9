-- ===== src/Domain/TenantLink.antt =====
-- internal/domain/tenant_link.go: standing authorizations between two tenants.
pub mod Laws
use ledgerops.Prelude.{
  String, Bool, true, false, not, ◌&&◌, Option, none, some, List, ◌==◌, str_ltb, if◌then◌else◌,
  find, any, Result, ok, err, ◌>>=◌, ◌>>◌, refuse_if,
}
use ledgerops.Domain.Violation.{
  Violation, new_tenant_not_found, new_tenant_link_already_exists, new_tenant_link_not_found,
}

pub data TenantLinkStatus : Type 0 where
  active revoked : TenantLinkStatus

abbrev pub is_active : TenantLinkStatus → Bool
is_active active = true
is_active revoked = false

pub record TenantLink : Type 0 where
  pub link_id : String
  pub tenant_a : String
  pub tenant_b : String
  pub status : TenantLinkStatus

unfoldable pub canonicalize_pair : String → String → String × String
canonicalize_pair tenant_a tenant_b =
    if str_ltb tenant_b tenant_a then (tenant_b, tenant_a) else (tenant_a, tenant_b)

-- The loop's test: an active link for the canonical pair.
abbrev pub covers : String → String → TenantLink → Bool
covers canonical_a canonical_b existing =
    is_active existing.status
    && existing.tenant_a == canonical_a
    && existing.tenant_b == canonical_b

-- `knownTenants` is the set of the provisioned ids, as its test.
unfoldable pub authorize_tenant_pair :
    String → String → String → List TenantLink → (String → Bool) → Result Violation TenantLink
unfolding canonicalize_pair
authorize_tenant_pair link_id tenant_a tenant_b existing_links known_tenants = do
  let (canonical_a, canonical_b) = canonicalize_pair tenant_a tenant_b
  refuse_if (not (known_tenants canonical_a)) (new_tenant_not_found canonical_a)
  refuse_if (not (known_tenants canonical_b)) (new_tenant_not_found canonical_b)
  refuse_if (any (covers canonical_a canonical_b) existing_links) new_tenant_link_already_exists
  ok (record { link_id = link_id; tenant_a = canonical_a; tenant_b = canonical_b; status = active })

unfoldable pub revoke_tenant_link : String → List TenantLink → Result Violation TenantLink
revoke_tenant_link link_id existing_links =
    elim (find (λ (existing : TenantLink). existing.link_id == link_id) existing_links) [
      | some existing ↦ ok (record existing { status = revoked })
      | none ↦ err new_tenant_link_not_found
    ]
