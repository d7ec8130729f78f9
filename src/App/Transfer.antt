-- ===== src/App/Transfer.antt =====
-- `PostTransfer` and `CreateAccount` of internal/app/usecases.go.
pub mod Steps
pub mod Writes
pub mod Sound
pub mod Keeps
pub mod Seen
pub mod Safe
pub mod Replay
use ledgerops.Prelude.{
  ℕ, zero, suc, String, Bool, true, false, not, Option, none, some, List, [], ◌∷◌, ◌==◌,
  if◌then◌else◌, Result, ok, err,
}
use ledgerops.Prelude.Int.{pos}
use ledgerops.Domain.Violation.{Money, Violation, ViolationKind, unknown_account}
use ledgerops.Domain.Money.{new_money}
use ledgerops.Domain.Account.{Account, AccountKind}
use ledgerops.Domain.Posting.{TransferCommand, Posting}
use ledgerops.Domain.Post.{post, open_account}
use ledgerops.Ports.Vocabulary.{
  Error, violation, infrastructure, out_of_fuel, idempotency_key_conflict,
  idempotency_key_claim_conflict, Claim,
}
use ledgerops.Ports.Shell.{
  found_or, World, Shell, pure, raise_if, lift, decide, ◌>>=◌, ◌>>◌, statement, query, clock,
  next_id, begin, rollback, commit, with_unit_of_work,
}
use ledgerops.Postgres.Accounts
use ledgerops.Postgres.Transactions
use ledgerops.Postgres.Idempotency

pub record TransferRequest : Type 0 where
  pub from : String
  pub to : String
  pub amount : Money
  pub idempotency_key : String
  pub fingerprint : String
  pub tenant_id : String

-- `Result`: the posting, and whether it was there before.
pub record Answer : Type 0 where
  pub posting : Posting
  pub replayed : Bool

abbrev pub ledger_currency : String
ledger_currency = "USD"

abbrev pub command_of : TransferRequest → TransferCommand
command_of cmd = record {
  from = cmd.from;
  to = cmd.to;
  amount = cmd.amount;
  tenant_id = cmd.tenant_id;
}

-- A key that is claimed: refuse another request's, and re-render the stored transaction.
unfoldable pub replay : TransferRequest → Claim → Shell Answer
replay cmd c = do
  raise_if (not (c.fingerprint == cmd.fingerprint)) idempotency_key_conflict
  posting ← query (Transactions.get cmd.tenant_id c.transaction_id)
  pure (record { posting = posting; replayed = true })

-- The writes of a movement, and the claim of its key.
unfoldable pub write_movement : TransferRequest → String → Posting → Shell Answer
write_movement cmd transaction_id posting = do
  Transactions.append cmd.tenant_id posting
  Accounts.apply_deltas cmd.tenant_id posting.deltas
  Idempotency.claim cmd.idempotency_key cmd.fingerprint transaction_id
  pure (record { posting = posting; replayed = false })

-- The decision on locked snapshots.
unfoldable pub decide_movement : TransferRequest → List Account → Shell Answer
unfolding write_movement
decide_movement cmd snapshots = do
  now ← clock
  transaction_id ← next_id
  posting ← decide (post (command_of cmd) snapshots now transaction_id)
  write_movement cmd transaction_id posting

-- Read, decide and write, for a key that is not claimed.
unfoldable pub record_movement : TransferRequest → Shell Answer
unfolding decide_movement
record_movement cmd = do
  snapshots ← Accounts.lock_for_update cmd.tenant_id (cmd.from ∷ cmd.to ∷ [])
  decide_movement cmd snapshots

-- What a lookup of the key leads to.
abbrev pub answer_or_record : TransferRequest → Option Claim → Shell Answer
answer_or_record cmd (some c) = replay cmd c
answer_or_record cmd none = record_movement cmd

-- One unit of work of `PostTransfer`, up to its commit.
unfoldable pub attempt : TransferRequest → Shell Answer
unfolding replay record_movement
attempt cmd = do found ← query (Idempotency.lookup cmd.idempotency_key); answer_or_record cmd found

-- `PostTransfer`: an attempt that lost the race for its key starts again from the top.
abbrev pub lost_race : Result Error Answer → Bool
lost_race (err idempotency_key_claim_conflict) = true
lost_race _ = false

unfoldable pub post_transfer : ℕ → TransferRequest → Shell Answer
unfolding attempt
post_transfer zero cmd w = (err out_of_fuel, w)
post_transfer (suc fuel) cmd w =
    let (r, w') = with_unit_of_work (attempt cmd) w in
    let again = post_transfer fuel cmd w' in if lost_race r then again else (r, w')

-- `accountAlreadyOpen`
unfoldable pub account_already_open : String → String → Shell Bool
account_already_open tenant_id account_id w =
    found_or (λ _. true) (λ kind. elim kind [ unknown_account ↦ some false | _ ↦ none ])
      (query (Accounts.get tenant_id account_id) w)

unfoldable pub create_account : String → String → AccountKind → Shell (Unit {0})
unfolding account_already_open
create_account tenant_id account_id kind = do
  opening_balance ← decide (new_money (pos 0) ledger_currency)
  with_unit_of_work (do
    already_open ← account_already_open tenant_id account_id
    account ← decide (open_account tenant_id account_id kind opening_balance already_open)
    statement (Accounts.create tenant_id account))
