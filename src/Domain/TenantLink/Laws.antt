-- ===== src/Domain/TenantLink/Laws.antt =====
-- Pairs are unordered, and a revoked link authorizes nothing (internal/domain/tenant_link.go and
-- internal/domain/counterparty_alias.go).
use ledgerops.Prelude.{
  String, ◌≡◌, refl, Bool, true, false, List, [], ◌∷◌, ◌++◌, eq_iff, eq_refl, compare-flip, ok, err,
  arith, any, any-append_hit,
}
use text.Mathlib.TextEquality.{path_by_compare}
use ledgerops.Domain.Violation.{new_tenant_link_already_exists}
use ledgerops.Domain.TenantLink.{
  TenantLink, active, revoked, covers, canonicalize_pair, authorize_tenant_pair, revoke_tenant_link,
}

-- The order in which a caller names a pair does not matter.
pub canonicalize_pair_comm : (a b : String) → canonicalize_pair a b ≡ canonicalize_pair b a
unfolding canonicalize_pair
canonicalize_pair_comm a b = ground (arith, compare-flip a b, path_by_compare a b)

-- Authorizing a pair of tenants has the same answer in either order.
pub authorize_tenant_pair_comm :
    (link_id a b : String) (links : List TenantLink) (known : String → Bool)
    → authorize_tenant_pair link_id a b links known ≡ authorize_tenant_pair link_id b a links known
unfolding authorize_tenant_pair
authorize_tenant_pair_comm link_id a b links known = rw (canonicalize_pair_comm a b) refl

-- What a granted authorization is.
pub record Authorized (link_id a b : String) (links : List TenantLink) (known : String → Bool)
    (link : TenantLink) : Type 0 where
  pub id : link.link_id ≡ link_id
  pub pair : ◌≡◌ {A = String × String} (link.tenant_a, link.tenant_b) (canonicalize_pair a b)
  pub status : link.status ≡ active
  pub fresh : any (covers link.tenant_a link.tenant_b) links ≡ false
  pub known_a : known link.tenant_a ≡ true
  pub known_b : known link.tenant_b ≡ true

pub authorize_tenant_pair-Authorized :
    (link_id a b : String) (links : List TenantLink) (known : String → Bool) {link : TenantLink}
    → authorize_tenant_pair link_id a b links known ≡ ok link
    → Authorized link_id a b links known link
unfolding authorize_tenant_pair
authorize_tenant_pair-Authorized link_id a b links known h = ground arith

-- Once a pair is authorized, it is refused a second time, in the other order, and whatever links
-- stand before the first.
pub authorize_twice :
    (link_id other a b : String) (links before : List TenantLink) (known : String → Bool)
    {link : TenantLink}
    → authorize_tenant_pair link_id a b links known ≡ ok link
    → authorize_tenant_pair other b a (before ++ link ∷ links) known
      ≡ err new_tenant_link_already_exists
unfolding authorize_tenant_pair
authorize_twice link_id other a b links before known {link} h =
    let x = authorize_tenant_pair-Authorized link_id a b links known h in
    rw (canonicalize_pair_comm b a) (
      ground (
        arith,
        x.pair,
        x.known_a,
        x.known_b,
        any-append_hit (covers link.tenant_a link.tenant_b) before links link
            (ground (arith, x.status, eq_refl link.tenant_a, eq_refl link.tenant_b)),
      ))

-- Revoking a link ends it and changes nothing else of it.
pub revoke_tenant_link_ends :
    (link_id : String) (links : List TenantLink) {link : TenantLink}
    → revoke_tenant_link link_id links ≡ ok link
    → (link.status ≡ revoked) × (link.link_id ≡ link_id)
unfolding revoke_tenant_link
revoke_tenant_link_ends link_id [] h = cc
revoke_tenant_link_ends link_id (x ∷ xs) {link} h =
    ground (arith, eq_iff x.link_id link_id, revoke_tenant_link_ends link_id xs {link = link})
