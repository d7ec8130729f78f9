-- ===== src/Http.antt =====
-- internal/adapters/http: the driving adapter.
pub mod Amount
pub mod Wire
pub mod Auth
pub mod Status
pub mod Metrics
pub mod Accounts
pub mod Tenants
pub mod Transfers
pub mod Books
pub mod Testonly
pub mod Router
pub mod Server
pub mod Steady
