-- ===== src/Postgres.antt =====
-- internal/adapters/postgres: the tables of the migrations, and the repositories over them.
pub mod Tables
pub mod Accounts
pub mod Transactions
pub mod Balances
pub mod Idempotency
pub mod Tenants
pub mod TenantLinks
pub mod CounterpartyAliases
pub mod TransferStates
