-- ===== src/App/Coordinator/Steady/Reversing.antt =====
-- The reversals of internal/app/transfer_coordinator.go keep the process steady.
use ledgerops.Prelude.{
  ℕ, String, Bool, true, false, Option, none, some, List, [], ◌∷◌, if◌then◌else◌, Result, ok, err,
}
use ledgerops.Domain.Account.{Account, is_wallet}
use ledgerops.Ports.Vocabulary.{
  Error, simulated_transient_fault, scoped_to_tenant, TransferState, TransferStatus, LegStatus,
  leg_pending, leg_posted, leg_reversed,
}
use ledgerops.Ports.Shell.{query, statement, with_unit_of_work}
use ledgerops.Ports.Shell.Safety.{Safe-bind, Safe-query, Safe-pure, Safe-raise, Safe-statement}
use ledgerops.Postgres.Accounts
use ledgerops.Postgres.Idempotency
use ledgerops.Postgres.TransferStates
use ledgerops.Books.Sound.{IsSound}
use ledgerops.Books.Recorded.{advance-IsSound}
use ledgerops.App.Transfer.Keeps.{Keeps}
use ledgerops.App.Keeping.{IsSafe, if-IsSafe, unit-Keeps}
use ledgerops.App.Coordinator.Movements.{
  backoff_for_attempt, transfer_reversal_leg_key, reverse_leg1_movement, reverse_leg2_movement,
  reason_retry_budget_exhausted,
}
use ledgerops.App.Coordinator.Process.{
  Task, leg1_reversal, leg2_then_leg1_reversal, Process, return, fail, shell, ◌>>◌,
  record_failed_reversal_attempt, consume_fault, consume_reversal_crash_simulation, draw_jitter,
  clock, after,
}
use ledgerops.App.Coordinator.Reversal.{
  advance_after_leg_outcome, leg_posted_status, first_wallet, wallet_account_id, post_movement,
  compensate_leg1, compensate_if_posted, post_leg1_reversal, post_leg2_reversal,
  count_reversal_failure, mark_reversal_failed, reschedule_or_give_up, handle_reversal_failure,
  leg1_reversal_outcome, attempt_leg1_reversal, crash_or_continue, leg2_reversal_outcome,
  reverse_leg2_then_leg1,
}
use ledgerops.App.Coordinator.Steady.{
  InRange, TaskInRange, Steady, SagaKeeps, return-SagaKeeps, fail-SagaKeeps, shell-SagaKeeps,
  bind-SagaKeeps, if-SagaKeeps, clock-SagaKeeps, draw_jitter-SagaKeeps,
  record_failed_reversal_attempt-SagaKeeps, consume_fault-SagaKeeps, consume_reversal-SagaKeeps,
  after-SagaKeeps, post_movement-SagaKeeps,
}

pub advance-SagaKeeps :
    (id : String) (status : TransferStatus) (at : ℕ) (reason : String)
    → SagaKeeps (shell (advance_after_leg_outcome id status at reason))
unfolding advance_after_leg_outcome
advance-SagaKeeps id status at reason =
    shell-SagaKeeps
      (with_unit_of_work (statement (TransferStates.advance_after_leg_outcome id status at reason)))
      (unit-Keeps _ (Safe-statement IsSound _ (advance-IsSound id status at reason)))

pub leg_posted_status-IsSafe : (key : String) → IsSafe (leg_posted_status key)
unfolding leg_posted_status
leg_posted_status-IsSafe key =
    Safe-bind IsSound (query (Idempotency.lookup key)) _ (Safe-query IsSound _)
      (λ found. Safe-pure IsSound _)

first_wallet-IsSafe : (accounts : List Account) → IsSafe (first_wallet accounts)
first_wallet-IsSafe [] = Safe-raise IsSound _
first_wallet-IsSafe (a ∷ accounts) =
    if-IsSafe (is_wallet a.kind) _ _ (Safe-pure IsSound a.id) (first_wallet-IsSafe accounts)

pub wallet_account_id-Keeps : (t : String) → Keeps (wallet_account_id t)
unfolding wallet_account_id
wallet_account_id-Keeps t = unit-Keeps _ (
    Safe-bind IsSound (query (Accounts.get_all (scoped_to_tenant t))) _ (Safe-query IsSound _)
      first_wallet-IsSafe)

-- A fault, or a movement of the transfer's amount.
pub fault_or_move-SagaKeeps :
    (faulty : Bool) (m : _) (s : TransferState)
    → InRange s
    → SagaKeeps {A = Unit {0}}
        (if faulty then fail simulated_transient_fault else (post_movement m s >> return tt))
fault_or_move-SagaKeeps faulty m s r =
    if-SagaKeeps faulty (fail simulated_transient_fault) (post_movement m s >> return tt)
      (fail-SagaKeeps simulated_transient_fault)
      (bind-SagaKeeps (post_movement m s) _ (post_movement-SagaKeeps m s r)
        (λ a. return-SagaKeeps tt))

compensate_leg1-SagaKeeps :
    (id : String) (s : TransferState) → InRange s → SagaKeeps (compensate_leg1 id s)
unfolding compensate_leg1
compensate_leg1-SagaKeeps id s r =
    bind-SagaKeeps (shell (wallet_account_id s.tenant_id)) _
      (shell-SagaKeeps (wallet_account_id s.tenant_id) (wallet_account_id-Keeps s.tenant_id))
      (λ wallet.
        bind-SagaKeeps (consume_fault (transfer_reversal_leg_key id 1)) _
          (consume_fault-SagaKeeps (transfer_reversal_leg_key id 1))
          (λ faulty. fault_or_move-SagaKeeps faulty (reverse_leg1_movement s wallet) s r))

compensate_if_posted-SagaKeeps :
    (id : String) (s : TransferState) (leg1 : LegStatus)
    → InRange s
    → SagaKeeps (compensate_if_posted id s leg1)
compensate_if_posted-SagaKeeps id s leg_posted r = compensate_leg1-SagaKeeps id s r
compensate_if_posted-SagaKeeps id s leg_pending r = return-SagaKeeps tt
compensate_if_posted-SagaKeeps id s leg_reversed r = return-SagaKeeps tt

post_leg1_reversal-SagaKeeps :
    (id : String) (s : TransferState) → InRange s → SagaKeeps (post_leg1_reversal id s)
unfolding post_leg1_reversal
post_leg1_reversal-SagaKeeps id s r =
    bind-SagaKeeps (shell (with_unit_of_work (leg_posted_status s.idempotency_key))) _
      (shell-SagaKeeps (with_unit_of_work (leg_posted_status s.idempotency_key))
        (unit-Keeps _ (leg_posted_status-IsSafe s.idempotency_key)))
      (λ leg1. compensate_if_posted-SagaKeeps id s leg1 r)

post_leg2_reversal-SagaKeeps : (s : TransferState) → InRange s → SagaKeeps (post_leg2_reversal s)
unfolding post_leg2_reversal
post_leg2_reversal-SagaKeeps s r =
    bind-SagaKeeps (consume_fault (transfer_reversal_leg_key s.transfer_id 2)) _
      (consume_fault-SagaKeeps (transfer_reversal_leg_key s.transfer_id 2))
      (λ faulty. fault_or_move-SagaKeeps faulty (reverse_leg2_movement s) s r)

count-SagaKeeps : SagaKeeps count_reversal_failure
unfolding count_reversal_failure
count-SagaKeeps = record { at = λ p h. record { books = h.books; tasks = h.tasks } }

mark_reversal_failed-SagaKeeps : (id reason : String) → SagaKeeps (mark_reversal_failed id reason)
unfolding mark_reversal_failed
mark_reversal_failed-SagaKeeps id reason = bind-SagaKeeps clock _ clock-SagaKeeps (λ now.
    bind-SagaKeeps (shell (advance_after_leg_outcome id _ now reason)) _
      (advance-SagaKeeps id _ now reason) (λ _. count-SagaKeeps))

reschedule-SagaKeeps :
    (id : String) (e : Error) (reason : String) (retry : Task) (delay : Option ℕ)
    → TaskInRange retry
    → SagaKeeps (reschedule_or_give_up id e reason retry delay)
reschedule-SagaKeeps id e reason retry none r =
    bind-SagaKeeps (mark_reversal_failed id reason) _ (mark_reversal_failed-SagaKeeps id reason)
      (λ _. fail-SagaKeeps e)
reschedule-SagaKeeps id e reason retry (some delay) r =
    bind-SagaKeeps (after delay retry) _ (after-SagaKeeps delay retry r) (λ _. fail-SagaKeeps e)

handle_reversal_failure-SagaKeeps :
    (id : String) (leg : ℕ) (e : Error) (reason : String) (retry : Task)
    → TaskInRange retry
    → SagaKeeps (handle_reversal_failure id leg e reason retry)
unfolding handle_reversal_failure
handle_reversal_failure-SagaKeeps id leg e reason retry r =
    bind-SagaKeeps (record_failed_reversal_attempt id leg) _
      (record_failed_reversal_attempt-SagaKeeps id leg)
      (λ failed.
        bind-SagaKeeps draw_jitter _ draw_jitter-SagaKeeps
          (λ jitter. reschedule-SagaKeeps id e reason retry (backoff_for_attempt failed jitter) r))

leg1_outcome-Steady :
    (id : String) (s : TransferState) (r : Result Error (Unit {0}) × Process)
    → InRange s
    → Steady r.1
    → Steady (leg1_reversal_outcome id s r).1
leg1_outcome-Steady id s (err e, p) r h =
    (handle_reversal_failure-SagaKeeps id 1 e _ (leg1_reversal id s) r).at p h
leg1_outcome-Steady id s (ok _, p) r h =
    (advance-SagaKeeps id _ p.world.now reason_retry_budget_exhausted).at p h

pub attempt_leg1_reversal-SagaKeeps :
    (id : String) (s : TransferState) → InRange s → SagaKeeps (attempt_leg1_reversal id s)
unfolding attempt_leg1_reversal
attempt_leg1_reversal-SagaKeeps id s r = record {
  at = λ p h.
      leg1_outcome-Steady id s (post_leg1_reversal id s p) r
        ((post_leg1_reversal-SagaKeeps id s r).at p h);
}

crash_or_continue-SagaKeeps :
    (id : String) (s : TransferState) (crash : Bool)
    → InRange s
    → SagaKeeps (crash_or_continue id s crash)
crash_or_continue-SagaKeeps id s true r =
    bind-SagaKeeps clock _ clock-SagaKeeps (λ now. advance-SagaKeeps id _ now _)
crash_or_continue-SagaKeeps id s false r = attempt_leg1_reversal-SagaKeeps id s r

leg2_outcome-Steady :
    (id : String) (s : TransferState) (inline : Bool) (r : Result Error (Unit {0}) × Process)
    → InRange s
    → Steady r.1
    → Steady (leg2_reversal_outcome id s inline r).1
leg2_outcome-Steady id s inline (err e, p) r h =
    (handle_reversal_failure-SagaKeeps id 2 e _ (leg2_then_leg1_reversal id s inline) r).at p h
leg2_outcome-Steady id s true (ok _, p) r h =
    (bind-SagaKeeps (consume_reversal_crash_simulation id) _ (consume_reversal-SagaKeeps id)
        (λ crash. crash_or_continue-SagaKeeps id s crash r)).at
      p h
leg2_outcome-Steady id s false (ok _, p) r h = (attempt_leg1_reversal-SagaKeeps id s r).at p h

pub reverse_leg2_then_leg1-SagaKeeps :
    (id : String) (s : TransferState) (inline : Bool)
    → InRange s
    → SagaKeeps (reverse_leg2_then_leg1 id s inline)
unfolding reverse_leg2_then_leg1
reverse_leg2_then_leg1-SagaKeeps id s inline r = record {
  at = λ p h.
      leg2_outcome-Steady id s inline (post_leg2_reversal s p) r
        ((post_leg2_reversal-SagaKeeps s r).at p h);
}
