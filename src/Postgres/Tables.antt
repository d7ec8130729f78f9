-- ===== src/Postgres/Tables.antt =====
-- The tables of internal/adapters/postgres/migrations, as lists of rows in the order of insertion.
-- `bigint` columns are integers in the range of `int64`; instants are numbers of nanoseconds.
use ledgerops.Prelude.{ℕ, ◌*◌, ◌/◌, String, Bool, List}
use ledgerops.Prelude.Int.{ℤ}
use ledgerops.Domain.Account.{AccountKind}
use ledgerops.Domain.TenantLink.{TenantLink}
use ledgerops.Domain.CounterpartyAlias.{CounterpartyAlias}
use ledgerops.Ports.Vocabulary.{Claim, TransferState}

-- An instant as a `timestamptz` keeps it: in microseconds, without what the driver drops.
abbrev pub stored_at : ℕ → ℕ
stored_at t = t / 1000 * 1000

pub record AccountRow : Type 0 where
  pub tenant_id : String
  pub id : String
  pub kind : AccountKind
  pub balance_minor : ℤ
  pub currency : String

pub record TransactionRow : Type 0 where
  pub tenant_id : String
  pub id : String
  pub recorded_at : ℕ

pub record EntryRow : Type 0 where
  pub tenant_id : String
  pub transaction_id : String
  pub account_id : String
  pub counterparty_id : String
  pub amount_minor : ℤ
  pub currency : String
  pub recorded_at : ℕ
  pub sequence : ℕ

pub record TenantRow : Type 0 where
  pub tenant_id : String
  pub name : String
  pub credential_hash : String

-- The database, with the collation by which it orders texts.
pub record Db : Type 0 where
  pub accounts : List AccountRow
  pub transactions : List TransactionRow
  pub entries : List EntryRow
  pub idempotency_keys : List Claim
  pub tenants : List TenantRow
  pub tenant_links : List TenantLink
  pub counterparty_aliases : List CounterpartyAlias
  pub transfer_states : List TransferState
  pub collation : String → String → Bool
