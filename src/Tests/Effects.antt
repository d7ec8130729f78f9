-- ===== src/Tests/Effects.antt =====
-- The store, the use cases and the coordinator at work on the small ledger.
use ledgerops.Prelude.{All, ◌≡◌, refl, ◌⊎◌, ◌↔◌, false, some, none, [], ◌∷◌, arith, ok, err, eq_iff}
use ledgerops.Domain.Money
use ledgerops.Postgres.TransferStates
use ledgerops.Ports.Shell
use ledgerops.Ports.Vocabulary.{idempotency_key_conflict}
use ledgerops.Ports.Shell.{World, done, failed, lost, statement, with_unit_of_work}
use ledgerops.Ports.Shell.Laws.{Quiet-statement}
use ledgerops.Ports.Shell.Atomic.{Nothing, Everything, with_unit_of_work_atomic}
use ledgerops.Postgres.Tables.{Db}
use ledgerops.Postgres.Accounts
use ledgerops.Postgres.Accounts.{lock_for_update}
use ledgerops.Postgres.Accounts.LockOrder.{lock_for_update_comm}
use ledgerops.Postgres.TransferStates.{claim_one}
use ledgerops.Postgres.TransferStates.Claims.{claim_one_exclusive}
use ledgerops.App.Transfer.{post_transfer}
use ledgerops.App.Transfer.Replay.{post_transfer_conflict}
use ledgerops.App.Reading.{drifted_accounts}
use ledgerops.Books.Drift.{IsKept, IsStored, verified_drift_iff}
use ledgerops.Prelude.Int.{negsuc}
use ledgerops.Ports.Vocabulary.{unscoped}
use ledgerops.Postgres.Balances.{Balances, computed_balances}
use ledgerops.App.Coordinator.Process.{Process}
use ledgerops.App.Coordinator.Attempt.{attempt_leg}
use ledgerops.App.Coordinator.Attempt.Leased.{attempt_leg_leased}
use ledgerops.App.Coordinator.Movements.{backoff_for_attempt, round_float, bit_length}
use ledgerops.App.Coordinator.Movements.Backoff.{HasDelay, backoff_for_attempt_bounds}
use ledgerops.Tests.{usd, due_transfer, books, world, pay, alice, bob, snapshots}

lock_for_update_comm_example :
    lock_for_update "t" ("float" ∷ "alice" ∷ []) world
    ≡ lock_for_update "t" ("alice" ∷ "float" ∷ []) world
lock_for_update_comm_example = lock_for_update_comm "t" "float" "alice" world

-- A unit of work whose commit is lost.
with_unit_of_work_atomic_example :
    Nothing
      (record world { outages = done ∷ done ∷ lost ∷ [] })
      (with_unit_of_work
        (statement (Accounts.create "t" bob))
        (record world { outages = done ∷ done ∷ lost ∷ [] }))
    ⊎ Everything
        (statement (Accounts.create "t" bob))
        (record world { outages = done ∷ done ∷ lost ∷ [] })
        (with_unit_of_work
          (statement (Accounts.create "t" bob))
          (record world { outages = done ∷ done ∷ lost ∷ [] }))
with_unit_of_work_atomic_example =
    with_unit_of_work_atomic (statement (Accounts.create "t" bob))
      (Quiet-statement (Accounts.create "t" bob))
      (record world { outages = done ∷ done ∷ lost ∷ [] })

-- A claim of the due transfer, and the next one.
abbrev claimed_world : World
claimed_world = record world {
  db = record books { transfer_states = record due_transfer { next_attempt_at = 15000 } ∷ [] };
}

first_claim :
    claim_one "xfr_1" 15000 world
    ≡ (ok (some (record due_transfer { next_attempt_at = 15010 })), claimed_world)
unfolding claim_one statement Shell.clock TransferStates.get TransferStates.scan
    TransferStates.is_due Money.new_money
first_claim = refl

claim_one_exclusive_example :
    claim_one "xfr_1" 15 (record claimed_world { now = 14000 })
    ≡ (ok none, record claimed_world { now = 14000 })
claim_one_exclusive_example =
    claim_one_exclusive "xfr_1" 15000 world first_claim (record claimed_world { now = 14000 }) refl
      refl (omega arith) 15

-- The third delay, without jitter and with the most of it.
third_delay : backoff_for_attempt 3 0 ≡ some 3200000000
unfolding backoff_for_attempt round_float bit_length
third_delay = refl

longest_delay : backoff_for_attempt 3 9007199254740991 ≡ some 4800000000
unfolding backoff_for_attempt round_float bit_length
longest_delay = refl

backoff_for_attempt_bounds_example : HasDelay 3 5
backoff_for_attempt_bounds_example =
    backoff_for_attempt_bounds 3 5 (omega arith) (omega arith) (omega arith)

-- The key of the first transaction, used again by another request.
abbrev claimed_books : Db
claimed_books = record books {
  idempotency_keys = record { key = "k"; fingerprint = "other"; transaction_id = "x0" } ∷ [];
}

abbrev claimed_key : World
claimed_key = record world { committed = claimed_books; db = books }

post_transfer_conflict_example :
    post_transfer 1 pay claimed_key
    ≡ (err idempotency_key_conflict, record claimed_key { db = claimed_books })
post_transfer_conflict_example =
    post_transfer_conflict pay claimed_key refl refl 0 (λ h. ground (arith, eq_iff "other" "f"))

-- The accounts of the small ledger, against what their entries add up to.
abbrev computed_sums : Balances
computed_sums =
    (record { tenant_id = "t"; account_id = "alice" }, usd 100)
    ∷ (
      record { tenant_id = "t"; account_id = "float" },
      record { minor_units = negsuc 99; currency = "USD" },
    )
    ∷ []

sums_computed : computed_balances unscoped books ≡ ok computed_sums
unfolding computed_balances Money.new_money
sums_computed = refl

alice-IsKept : IsKept books.entries alice
unfolding Money.new_money
alice-IsKept = record { entries_in = (λ _. refl, (λ _. refl, tt)); legal = refl }

bob-IsKept : IsKept books.entries bob
unfolding Money.new_money
bob-IsKept = record { entries_in = (λ _. refl, (λ _. refl, tt)); legal = refl }

verified_drift_iff_example :
    (drifted_accounts snapshots computed_sums ≡ ok []) ↔ All (IsStored books.entries) snapshots
verified_drift_iff_example =
    verified_drift_iff books snapshots sums_computed (alice-IsKept, (bob-IsKept, tt))

-- The transfer while another caller's lease runs, as the ticker finds it.
abbrev leased_process : Process
leased_process = record {
  world = record claimed_world { committed = claimed_world.db; now = 24 };
  counts = [];
  leg_faults = [];
  skip_forward_crash = [];
  skip_reversal_crash = [];
  scheduled = [];
  reversal_failures = 0;
  jitter = λ n. 0;
  drawn = 0;
  tries = 2;
}

leased_found :
    TransferStates.get "xfr_1" leased_process.world.committed
    ≡ ok (some (record due_transfer { next_attempt_at = 15000 }))
unfolding TransferStates.get TransferStates.scan Money.new_money
leased_found = refl

attempt_leg_leased_example : attempt_leg "xfr_1" 2 false leased_process ≡ (ok tt, leased_process)
attempt_leg_leased_example =
    attempt_leg_leased "xfr_1" 2 false leased_process refl leased_found (omega arith)
