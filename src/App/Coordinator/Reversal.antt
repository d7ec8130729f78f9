-- ===== src/App/Coordinator/Reversal.antt =====
-- The writes of an attempt's outcome, and the reversals, of internal/app/transfer_coordinator.go.
use ledgerops.Prelude.{
  ℕ, ◌+◌, String, Bool, true, false, Option, none, some, List, [], ◌∷◌, if◌then◌else◌, Result, ok,
  err,
}
use ledgerops.Domain.Violation.{new_unknown_account}
use ledgerops.Domain.Account.{Account, is_wallet}
use ledgerops.Ports.Vocabulary.{
  Error, violation, simulated_transient_fault, Claim, scoped_to_tenant, TransferState,
  TransferStatus, retrying, reversed, reversal_failed, LegStatus, leg_pending, leg_posted,
}
use ledgerops.Ports.Shell
use ledgerops.Ports.Shell.{Shell, statement, query, with_unit_of_work}
use ledgerops.Postgres.Accounts
use ledgerops.Postgres.Idempotency
use ledgerops.Postgres.TransferStates
use ledgerops.App.Transfer.{post_transfer, Answer}
use ledgerops.App.Coordinator.Movements.{
  Movement, transfer_reversal_leg_key, leg_fingerprint, reverse_leg1_movement,
  reverse_leg2_movement, backoff_for_attempt, reason_retry_budget_exhausted,
  reason_leg1_reversal_retry_budget_exhausted, reason_leg2_reversal_retry_budget_exhausted,
}
use ledgerops.App.Coordinator.Process.{
  Task, leg1_reversal, leg2_then_leg1_reversal, Process, Saga, return, fail, shell, ◌>>=◌, ◌>>◌,
  record_failed_reversal_attempt, consume_fault, consume_reversal_crash_simulation, draw_jitter,
  clock, after,
}

-- `advanceAfterLegOutcome`
unfoldable pub advance_after_leg_outcome : String → TransferStatus → ℕ → String → Shell (Unit {0})
advance_after_leg_outcome transfer_id status next_attempt_at reason =
    with_unit_of_work (
      statement
        (TransferStates.advance_after_leg_outcome transfer_id status next_attempt_at reason))

-- `legPostedStatus`
abbrev pub posted_if_found : Option Claim → LegStatus
posted_if_found none = leg_pending
posted_if_found (some _) = leg_posted

unfoldable pub leg_posted_status : String → Shell LegStatus
leg_posted_status key =
    Shell.◌>>=◌ (query (Idempotency.lookup key)) (λ found. Shell.pure (posted_if_found found))

-- `walletAccountID`: the first wallet of the tenant.
abbrev pub first_wallet : List Account → Shell String
first_wallet [] = Shell.raise (violation (new_unknown_account "wallet"))
first_wallet (a ∷ accounts) =
    let rest = first_wallet accounts in if is_wallet a.kind then Shell.pure a.id else rest

unfoldable pub wallet_account_id : String → Shell String
wallet_account_id tenant_id =
    with_unit_of_work
      (Shell.◌>>=◌ (query (Accounts.get_all (scoped_to_tenant tenant_id))) first_wallet)

-- The call of `PostTransfer` that a leg and a reversal make.
unfoldable pub post_movement : Movement → TransferState → Saga Answer
unfolding leg_fingerprint
post_movement m s p =
    shell
      (post_transfer p.tries (record {
        from = m.from;
        to = m.to;
        amount = s.amount;
        idempotency_key = m.key;
        fingerprint = leg_fingerprint m.from m.to s.amount;
        tenant_id = m.tenant_id;
      }))
      p

-- `postLeg1Reversal`, after its test that leg 1 has posted.
unfoldable pub compensate_leg1 : String → TransferState → Saga (Unit {0})
unfolding wallet_account_id reverse_leg1_movement transfer_reversal_leg_key consume_fault
    post_movement
compensate_leg1 transfer_id s = do
  wallet ← shell (wallet_account_id s.tenant_id)
  faulty ← consume_fault (transfer_reversal_leg_key transfer_id 1)
  if faulty
      then fail simulated_transient_fault
      else (post_movement (reverse_leg1_movement s wallet) s >> return tt)

abbrev pub compensate_if_posted : String → TransferState → LegStatus → Saga (Unit {0})
compensate_if_posted transfer_id s leg_posted = compensate_leg1 transfer_id s
compensate_if_posted transfer_id s _ = return tt

unfoldable pub post_leg1_reversal : String → TransferState → Saga (Unit {0})
unfolding leg_posted_status compensate_leg1
post_leg1_reversal transfer_id s = do
  leg1 ← shell (with_unit_of_work (leg_posted_status s.idempotency_key))
  compensate_if_posted transfer_id s leg1

-- `postLeg2Reversal`
unfoldable pub post_leg2_reversal : TransferState → Saga (Unit {0})
unfolding reverse_leg2_movement transfer_reversal_leg_key consume_fault post_movement
post_leg2_reversal s = do
  faulty ← consume_fault (transfer_reversal_leg_key s.transfer_id 2)
  if faulty
      then fail simulated_transient_fault
      else (post_movement (reverse_leg2_movement s) s >> return tt)

-- `markReversalFailed`: the observer is called once the status is written.
unfoldable pub count_reversal_failure : Saga (Unit {0})
count_reversal_failure p = (ok tt, record p { reversal_failures = p.reversal_failures + 1 })

unfoldable pub mark_reversal_failed : String → String → Saga (Unit {0})
unfolding advance_after_leg_outcome count_reversal_failure
mark_reversal_failed transfer_id reason = do
  now ← clock
  shell (advance_after_leg_outcome transfer_id reversal_failed now reason)
  count_reversal_failure

-- `handleReversalFailure`
abbrev pub reschedule_or_give_up : String → Error → String → Task → Option ℕ → Saga (Unit {0})
reschedule_or_give_up transfer_id post_err exhausted_reason retry none =
    mark_reversal_failed transfer_id exhausted_reason >> fail post_err
reschedule_or_give_up transfer_id post_err exhausted_reason retry (some delay) =
    after delay retry >> fail post_err

unfoldable pub handle_reversal_failure : String → ℕ → Error → String → Task → Saga (Unit {0})
unfolding record_failed_reversal_attempt draw_jitter backoff_for_attempt mark_reversal_failed after
handle_reversal_failure transfer_id leg post_err exhausted_reason retry = do
  failed_attempts ← record_failed_reversal_attempt transfer_id leg
  jitter ← draw_jitter
  reschedule_or_give_up transfer_id post_err exhausted_reason retry
      (backoff_for_attempt failed_attempts jitter)

-- `attemptLeg1Reversal`, which `reverseLeg1` calls.
abbrev pub leg1_reversal_outcome :
    String → TransferState → Result Error (Unit {0}) × Process → Result Error (Unit {0}) × Process
leg1_reversal_outcome transfer_id s (err e, p) =
    handle_reversal_failure transfer_id 1 e reason_leg1_reversal_retry_budget_exhausted
      (leg1_reversal transfer_id s) p
leg1_reversal_outcome transfer_id s (ok _, p) =
    shell (advance_after_leg_outcome transfer_id reversed p.world.now reason_retry_budget_exhausted)
      p

unfoldable pub attempt_leg1_reversal : String → TransferState → Saga (Unit {0})
unfolding post_leg1_reversal handle_reversal_failure advance_after_leg_outcome
attempt_leg1_reversal transfer_id s p =
    leg1_reversal_outcome transfer_id s (post_leg1_reversal transfer_id s p)

-- `reverseLeg2ThenLeg1`
abbrev pub crash_or_continue : String → TransferState → Bool → Saga (Unit {0})
crash_or_continue transfer_id s true = do
  now ← clock
  shell (advance_after_leg_outcome transfer_id retrying now reason_retry_budget_exhausted)
crash_or_continue transfer_id s false = attempt_leg1_reversal transfer_id s

abbrev pub leg2_reversal_outcome :
    String
    → TransferState
    → Bool
    → Result Error (Unit {0}) × Process
    → Result Error (Unit {0}) × Process
leg2_reversal_outcome transfer_id s is_inline_path (err e, p) =
    handle_reversal_failure transfer_id 2 e reason_leg2_reversal_retry_budget_exhausted
      (leg2_then_leg1_reversal transfer_id s is_inline_path) p
leg2_reversal_outcome transfer_id s true (ok _, p) =
    (consume_reversal_crash_simulation transfer_id >>= crash_or_continue transfer_id s) p
leg2_reversal_outcome transfer_id s false (ok _, p) = attempt_leg1_reversal transfer_id s p

unfoldable pub reverse_leg2_then_leg1 : String → TransferState → Bool → Saga (Unit {0})
unfolding post_leg2_reversal handle_reversal_failure consume_reversal_crash_simulation
    attempt_leg1_reversal advance_after_leg_outcome
reverse_leg2_then_leg1 transfer_id s is_inline_path p =
    leg2_reversal_outcome transfer_id s is_inline_path (post_leg2_reversal s p)
