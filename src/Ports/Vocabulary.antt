-- ===== src/Ports/Vocabulary.antt =====
-- internal/app/ports/ports.go: the vocabulary of the effects, and the shell's errors
-- (internal/app/usecases.go, internal/app/transfer_coordinator.go).
use ledgerops.Prelude.{ℕ, String, Bool, true, false}
use ledgerops.Domain.Violation.{Money, Violation}
use ledgerops.Domain.Posting.{Entry}

-- What `errors.As` and `errors.Is` tell apart. Wrapping by `%w` keeps it, and the added text is
-- not modelled. `infrastructure` is every other error.
pub data Error : Type 0 where
  violation : Violation → Error
  idempotency_key_conflict idempotency_key_claim_conflict : Error
  transfer_not_found simulated_transient_fault : Error
  infrastructure out_of_fuel : Error

pub record TenantScope : Type 0 where
  pub tenant_id : String
  pub scoped : Bool

abbrev pub scoped_to_tenant : String → TenantScope
scoped_to_tenant tenant_id = record { tenant_id = tenant_id; scoped = true }

abbrev pub unscoped : TenantScope
unscoped = record { tenant_id = ""; scoped = false }

pub record AccountKey : Type 0 where
  pub tenant_id : String
  pub account_id : String

pub record TenantEntry : Type 0 where
  pub tenant_id : String
  pub entry : Entry

pub record Claim : Type 0 where
  pub key : String
  pub fingerprint : String
  pub transaction_id : String

-- The top-level status of a transfer, and the status of a leg.
pub data TransferStatus : Type 0 where
  pending retrying settled reversed reversal_failed : TransferStatus

pub data LegStatus : Type 0 where
  leg_pending leg_posted leg_reversed : LegStatus

pub record TransferState : Type 0 where
  pub transfer_id : String
  pub tenant_id : String
  pub idempotency_key : String
  pub status : TransferStatus
  pub leg1_status : LegStatus
  pub leg2_status : LegStatus
  pub leg3_status : LegStatus
  pub leg1_attempts : ℕ
  pub leg2_attempts : ℕ
  pub leg3_attempts : ℕ
  pub next_attempt_at : ℕ
  pub reason : String
  pub counterparty_tenant_id : String
  pub target_account_id : String
  pub amount : Money
