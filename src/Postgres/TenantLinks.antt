-- ===== src/Postgres/TenantLinks.antt =====
-- internal/adapters/postgres/tenant_links.go (migration 0004).
use ledgerops.Prelude.{
  String, Bool, not, ◌&&◌, ◌||◌, Option, none, some, List, [], ◌∷◌, ◌++◌, ◌==◌, find, any,
  if◌then◌else◌, Result, ok, err,
}
use ledgerops.Domain.Violation.{Violation, new_tenant_link_not_found}
use ledgerops.Domain.TenantLink.{
  TenantLink, revoked, is_active, authorize_tenant_pair, revoke_tenant_link,
}
use ledgerops.Ports.Vocabulary.{Error, violation, infrastructure}
use ledgerops.Postgres.Tables.{Db}

-- `reconstructTenantLink`: a stored row through the domain's constructors.
unfoldable pub reconstruct : TenantLink → Result Violation TenantLink
reconstruct r =
    elim (authorize_tenant_pair r.link_id r.tenant_a r.tenant_b []
      (λ t. t == r.tenant_a || t == r.tenant_b)) [
        | err v ↦ err v
        | ok link ↦ if is_active r.status then ok link else revoke_tenant_link r.link_id (link ∷ [])
      ]

abbrev pub read_back : TenantLink → Result Error TenantLink
read_back r = elim (reconstruct r) [ ok link ↦ ok link | err v ↦ err (violation v) ]

-- `Create`: the id is unique, and so is the pair of an active link.
unfoldable pub create : TenantLink → Db → Result Error (Unit {0} × Db)
create link db =
    if any
        (λ r.
          r.link_id == link.link_id
          || (is_active r.status
              && is_active link.status
              && r.tenant_a == link.tenant_a
              && r.tenant_b == link.tenant_b))
        db.tenant_links
      || not (any (λ t. t.tenant_id == link.tenant_a) db.tenants)
      || not (any (λ t. t.tenant_id == link.tenant_b) db.tenants)
    then err infrastructure
    else ok (tt, record db { tenant_links = db.tenant_links ++ link ∷ [] })

abbrev pub active_for : String → String → TenantLink → Bool
active_for a b r =
    is_active r.status
    && ((r.tenant_a == a && r.tenant_b == b) || (r.tenant_a == b && r.tenant_b == a))

-- `ActiveByPair`
unfoldable pub active_by_pair : String → String → Db → Result Error (Option TenantLink)
unfolding reconstruct
active_by_pair a b db = elim (find (active_for a b) db.tenant_links) [
  | none ↦ ok none
  | some r ↦ elim (read_back r) [ ok link ↦ ok (some link) | err e ↦ err e ]
]

-- `ByID`
unfoldable pub by_id : String → Db → Result Error TenantLink
unfolding reconstruct
by_id link_id db = elim (find (λ (r : TenantLink). r.link_id == link_id) db.tenant_links) [
  | none ↦ err (violation new_tenant_link_not_found)
  | some r ↦ read_back r
]

abbrev pub revoke_where : String → List TenantLink → List TenantLink
revoke_where link_id [] = []
revoke_where link_id (r ∷ rows) =
    (if r.link_id == link_id then record r { status = revoked } else r) ∷ revoke_where link_id rows

-- `Revoke`
unfoldable pub revoke : String → Db → Result Error (Unit {0} × Db)
revoke link_id db =
    if any (λ r. r.link_id == link_id) db.tenant_links
    then ok (tt, record db { tenant_links = revoke_where link_id db.tenant_links })
    else err (violation new_tenant_link_not_found)
