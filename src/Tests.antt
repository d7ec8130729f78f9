-- ===== src/Tests.antt =====
-- A small ledger, and runs of the code on it.
mod Core
mod Effects
mod Edge
mod System
use ledgerops.Prelude.{
  All, ℕ, ◌*◌, ◌<◌, ◌≤◌, ◌^◌, String, ◌≡◌, refl, ◌≢◌, ◌⊎◌, inl, ◌↔◌, Bool, true, false, some, none,
  List, [], ◌∷◌, arith, ok, err, map, eq_iff,
}
use ledgerops.Prelude.Int
use ledgerops.Prelude.Int64
use ledgerops.Domain.Money
use ledgerops.Domain.Account
use ledgerops.Domain.Posting
use ledgerops.Domain.Post
use ledgerops.Domain.TenantLink
use ledgerops.Postgres.TransferStates
use ledgerops.Ports.Shell
use ledgerops.Postgres.Idempotency
use ledgerops.Postgres.Transactions
use ledgerops.App.Transfer
use ledgerops.Prelude.Int.{ℤ, pos, negsuc, ◌+ℤ◌, ◌≤ℤ◌}
use ledgerops.Domain.Violation.{
  Money, new_insufficient_funds, unbalanced, new_violation, invalid_amount,
  new_tenant_link_already_exists, new_counterparty_not_found, new_tenant_link_not_found,
}
use ledgerops.Domain.Account.{Account, wallet, system}
use ledgerops.Domain.Posting.{TransferCommand, Posting}
use ledgerops.Domain.Post.{post}
use ledgerops.Domain.Post.Rules.{exact_sum, delta_of, post_conserves}
use ledgerops.Domain.Post.Decision.{
  Admissible, posting_of, post_accepts_iff, post_overdraft, post_ne_unbalanced,
}
use ledgerops.Domain.TenantLink.{
  TenantLink, active, revoked, authorize_tenant_pair, revoke_tenant_link,
}
use ledgerops.Domain.TenantLink.Laws.{authorize_twice, authorize_tenant_pair_comm}
use ledgerops.Domain.CounterpartyAlias.{
  CounterpartyAlias, register_counterparty_alias, resolve_counterparty,
}
use ledgerops.Domain.CounterpartyAlias.Laws.{resolve-register, resolve-revoke}
use ledgerops.Ports.Vocabulary.{
  idempotency_key_conflict, TransferState, pending, leg_posted, leg_pending,
}
use ledgerops.Ports.Shell.{World, done, failed, lost, statement, with_unit_of_work}
use ledgerops.Ports.Shell.Laws.{Quiet-statement}
use ledgerops.Ports.Shell.Invariant.{Holds}
use ledgerops.Ports.Shell.Atomic.{Nothing, Everything, with_unit_of_work_atomic}
use ledgerops.Postgres.Tables.{Db, AccountRow, EntryRow}
use ledgerops.Postgres.Accounts
use ledgerops.Postgres.Accounts.{deduped_sorted}
use ledgerops.Postgres.TransferStates.{claim_one}
use ledgerops.Postgres.TransferStates.Claims.{claim_one_exclusive}
use ledgerops.Books.Sound.{IsSound}
use ledgerops.App.Transfer.{TransferRequest, post_transfer}
use ledgerops.App.Transfer.Replay.{post_transfer_conflict}
use ledgerops.App.Reading.{drifted_accounts}
use ledgerops.Postgres.Balances.{Balances}
use ledgerops.App.Coordinator.Process.{Process}
use ledgerops.App.Coordinator.Attempt.{attempt_leg}
use ledgerops.App.Coordinator.Attempt.Leased.{attempt_leg_leased}
use ledgerops.App.Transfer.Safe.{post_transfer-IsSound}
use ledgerops.App.Coordinator.Movements.{second, backoff_for_attempt}
use ledgerops.App.Coordinator.Movements.Backoff.{backoff_for_attempt_bounds}

abbrev pub usd : ℕ → Money
usd n = record { minor_units = pos n; currency = "USD" }

abbrev pub alice_row : AccountRow
alice_row = record {
  tenant_id = "t";
  id = "alice";
  kind = wallet;
  balance_minor = pos 100;
  currency = "USD";
}

abbrev pub float_row : AccountRow
float_row = record {
  tenant_id = "t";
  id = "float";
  kind = system;
  balance_minor = negsuc 99;
  currency = "USD";
}

abbrev pub first_entries : List EntryRow
first_entries =
    record {
      tenant_id = "t";
      transaction_id = "x0";
      account_id = "float";
      counterparty_id = "alice";
      amount_minor = negsuc 99;
      currency = "USD";
      recorded_at = 1;
      sequence = 0;
    }
    ∷ record {
      tenant_id = "t";
      transaction_id = "x0";
      account_id = "alice";
      counterparty_id = "float";
      amount_minor = pos 100;
      currency = "USD";
      recorded_at = 1;
      sequence = 1;
    }
    ∷ []

abbrev pub due_transfer : TransferState
due_transfer = record {
  transfer_id = "xfr_1";
  tenant_id = "t";
  idempotency_key = "k0";
  status = pending;
  leg1_status = leg_posted;
  leg2_status = leg_pending;
  leg3_status = leg_pending;
  leg1_attempts = 0;
  leg2_attempts = 0;
  leg3_attempts = 0;
  next_attempt_at = 5;
  reason = "";
  counterparty_tenant_id = "";
  target_account_id = "bob";
  amount = usd 7;
}

abbrev pub books : Db
books = record {
  accounts = alice_row ∷ float_row ∷ [];
  transactions = record { tenant_id = "t"; id = "x0"; recorded_at = 1 } ∷ [];
  entries = first_entries;
  idempotency_keys = [];
  tenants = record { tenant_id = "t"; name = "T"; credential_hash = "" } ∷ [];
  tenant_links = [];
  counterparty_aliases = [];
  transfer_states = due_transfer ∷ [];
  collation = λ a b. false;
}

abbrev pub world : World
world = record {
  committed = books;
  db = books;
  outages = [];
  rivals = [];
  now = 10;
  ids = λ n. "x1";
  minted = 0;
}

-- A rival that takes the key while the first attempt waits.
abbrev pub take_key : Db → Db
take_key d = record d {
  idempotency_keys =
      record { key = "k"; fingerprint = "f"; transaction_id = "x0" } ∷ d.idempotency_keys;
}

abbrev pub contested : World
contested = record world { rivals = take_key ∷ []; outages = done ∷ done ∷ [] }

abbrev pub pay : TransferRequest
pay = record {
  from = "alice";
  to = "float";
  amount = usd 30;
  idempotency_key = "k";
  fingerprint = "f";
  tenant_id = "t";
}

-- What the accounts hold after a request.
abbrev pub balances_after : TransferRequest → World → List ℤ
unfolding post_transfer with_unit_of_work Shell.begin statement Idempotency.lookup
    Accounts.lock_for_update Money.new_money Account.new_account Shell.clock Shell.next_id post
    Money.is_positive Account.apply Int64.add64 Int64.wrap64 Int.◌+ℤ◌ Int64.neg64 Transfer.attempt
    Transfer.decide_movement Transfer.record_movement Transfer.replay Transfer.write_movement
    Money.add Money.negate Post.find_account Posting.entries_sum_to_zero Posting.new_entry
    Posting.new_transaction Shell.commit Shell.rollback Accounts.apply_delta Accounts.apply_deltas
    Accounts.build_account deduped_sorted Accounts.lock_each Accounts.lock_one
    Idempotency.await_rival Idempotency.claim Idempotency.insert_claim Transactions.append
    Transactions.entry_from_row Transactions.get Transactions.insert_entries
    Transactions.insert_entry Transactions.insert_transaction Int.◌-ℤ◌
balances_after cmd w =
    map (λ (r : AccountRow). r.balance_minor) (post_transfer 2 cmd w).1.committed.accounts

-- A payment, as it is committed, and the payment of a rival that won the race for its key.
pay_books : balances_after pay world ≡ pos 70 ∷ negsuc 69 ∷ []
unfolding balances_after
pay_books = refl

lost_race_replays : balances_after pay contested ≡ pos 100 ∷ negsuc 99 ∷ []
unfolding balances_after
lost_race_replays = refl

books-IsSound : IsSound books
unfolding Int.◌+ℤ◌
books-IsSound = record {
  unique = (refl, (refl, tt));
  stored = (refl, (refl, tt));
  covered = (λ _. omega arith, (λ w. ground arith, tt));
  balanced = refl;
  owned = (refl, (refl, tt));
  ranged = ((omega arith, omega arith), tt);
}

contested-Holds : Holds IsSound contested
contested-Holds = record {
  committed = books-IsSound;
  rivals = (
    λ d h. record {
      unique = h.unique;
      stored = h.stored;
      covered = h.covered;
      balanced = h.balanced;
      owned = h.owned;
      ranged = h.ranged;
    },
    tt,
  );
}

post_transfer-IsSound_example : Holds IsSound (post_transfer 2 pay contested).1
post_transfer-IsSound_example =
    post_transfer-IsSound 2 pay contested (omega arith, omega arith) contested-Holds

-- Two snapshots, and a movement between them.
abbrev pub alice : Account
alice = record { id = "alice"; kind = wallet; balance = usd 100; tenant_id = "t" }

abbrev pub bob : Account
bob = record { id = "bob"; kind = wallet; balance = usd 0; tenant_id = "t" }

abbrev pub snapshots : List Account
snapshots = alice ∷ bob ∷ []

abbrev pub to_bob : ℕ → TransferCommand
to_bob n = record { from = "alice"; to = "bob"; amount = usd n; tenant_id = "t" }
