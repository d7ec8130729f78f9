-- ===== src/Domain.antt =====
-- internal/domain: the pure core.
pub mod Violation
pub mod Money
pub mod Account
pub mod Posting
pub mod Post
pub mod Tenant
pub mod TenantLink
pub mod CounterpartyAlias
