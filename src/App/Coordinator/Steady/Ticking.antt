-- ===== src/App/Coordinator/Steady/Ticking.antt =====
-- A tick, a goroutine that wakes up, `SendTransfer` and `GetTransfer` of
-- internal/app/transfer_coordinator.go keep the process steady.
use Prim.Native.String.{◌++◌}
use ledgerops.Prelude.{
  ℕ, String, ◌≡◌, refl, ap, ◌∙◌, Bool, true, false, ◌||◌, Option, none, some, List, [], ◌∷◌, eqb,
  Result, ok, err, length,
}
use ledgerops.Ports.Vocabulary.{Error, TransferState}
use ledgerops.Ports.Shell.{query, clock}
use ledgerops.Ports.Shell.Safety.{Safe-bind, Safe-query, Safe-pure, Safe-clock}
use ledgerops.Postgres.Idempotency
use ledgerops.Postgres.TransferStates
use ledgerops.Books.Sound.{IsSound}
use ledgerops.App.Transfer.Keeps.{Keeps}
use ledgerops.App.Keeping.{IsSafe, if-IsSafe, unit-Keeps}
use ledgerops.App.Coordinator.Movements.{
  leg_reverse_key, retry_batch_limit, inline_attempt_grace_window,
}
use ledgerops.App.Coordinator.Process.{
  Task, forward_legs_from, leg1_reversal, leg2_then_leg1_reversal, Process, shell, ignore,
}
use ledgerops.App.Coordinator.Reversal.{
  leg_posted_status, attempt_leg1_reversal, reverse_leg2_then_leg1,
}
use ledgerops.App.Coordinator.Attempt.{claim_transfer, attempt_leg}
use ledgerops.App.Coordinator.Ticker.{
  is_retrying, is_posted, leg2_is_reversed, reversal_pending, next_leg_of, next_leg_for,
  reverse_if_claimed, resume_leg1_reversal, attempt_if_advanced, attempt_next, attempt_if_due,
  reverse_or_attempt, attempt_due_legs, due_transfer_ids, attempt_each, process_due_transfers,
  process_due_transfers_once, trigger_forward_legs, run_task,
}
use ledgerops.App.Coordinator.Steady.{
  InRange, TaskInRange, Steady, SagaKeeps, return-SagaKeeps, shell-SagaKeeps, bind-SagaKeeps,
  bind-SagaKeeps_on, ignore-SagaKeeps, if-Steady, after-SagaKeeps,
}
use ledgerops.App.Coordinator.Steady.Reversing.{
  leg_posted_status-IsSafe, attempt_leg1_reversal-SagaKeeps, reverse_leg2_then_leg1-SagaKeeps,
}
use ledgerops.App.Coordinator.Steady.Attempting.{
  claim_transfer-Keeps, claim_transfer-ranged, attempt_leg-SagaKeeps,
  attempt_forward_legs_from-SagaKeeps,
}

leg2_is_reversed-IsSafe : (found : Option TransferState) → IsSafe (leg2_is_reversed found)
leg2_is_reversed-IsSafe none = Safe-pure IsSound false
leg2_is_reversed-IsSafe (some s) =
    if-IsSafe (is_retrying s.status) _ _
      (Safe-bind IsSound (query (Idempotency.lookup (leg_reverse_key s.idempotency_key 2))) _
        (Safe-query IsSound _) (λ found. Safe-pure IsSound _))
      (Safe-pure IsSound false)

reversal_pending-Keeps : (id : String) → Keeps (reversal_pending id)
unfolding reversal_pending
reversal_pending-Keeps id = unit-Keeps _ (
    Safe-bind IsSound (query (TransferStates.get id)) _ (Safe-query IsSound _)
      leg2_is_reversed-IsSafe)

next_leg_of-IsSafe : (found : Option TransferState) → IsSafe (next_leg_of found)
next_leg_of-IsSafe none = Safe-pure IsSound 0
next_leg_of-IsSafe (some s) =
    Safe-bind IsSound (leg_posted_status (s.idempotency_key ++ ":leg2")) _
      (leg_posted_status-IsSafe (s.idempotency_key ++ ":leg2"))
      (λ leg2.
        if-IsSafe (is_posted leg2) _ _
          (Safe-bind IsSound (leg_posted_status (s.idempotency_key ++ ":leg3")) _
            (leg_posted_status-IsSafe (s.idempotency_key ++ ":leg3")) (λ leg3. Safe-pure IsSound _))
          (Safe-pure IsSound 2))

next_leg_for-Keeps : (id : String) → Keeps (next_leg_for id)
unfolding next_leg_for
next_leg_for-Keeps id =
    unit-Keeps _ (
      Safe-bind IsSound (query (TransferStates.get id)) _ (Safe-query IsSound _) next_leg_of-IsSafe)

reverse_if_claimed-SagaKeeps :
    (id : String) (claimed : Option TransferState)
    → ((s : TransferState) → claimed ≡ some s → InRange s)
    → SagaKeeps (reverse_if_claimed id claimed)
reverse_if_claimed-SagaKeeps id none k = return-SagaKeeps tt
reverse_if_claimed-SagaKeeps id (some s) k = attempt_leg1_reversal-SagaKeeps id s (k s refl)

resume_leg1_reversal-SagaKeeps : (id : String) → SagaKeeps (resume_leg1_reversal id)
unfolding resume_leg1_reversal
resume_leg1_reversal-SagaKeeps id =
    bind-SagaKeeps_on (shell (claim_transfer id)) (reverse_if_claimed id)
      (shell-SagaKeeps (claim_transfer id) (claim_transfer-Keeps id))
      (λ p h claimed e.
        reverse_if_claimed-SagaKeeps id claimed
          (λ s c. claim_transfer-ranged id p.world h.books (e ∙ ap ok c)))

attempt_if_advanced-Steady :
    (id : String) (leg : ℕ) (r : Result Error ℕ × Process)
    → Steady r.1
    → Steady (attempt_if_advanced id leg r).1
attempt_if_advanced-Steady id leg (err e, p) h = h
attempt_if_advanced-Steady id leg (ok next, p) h =
    if-Steady (eqb next 0 || eqb next leg) (ok tt, p) (ignore (attempt_leg id next false) p) h
      ((attempt_leg-SagaKeeps id next false).at p h)

attempt_next-SagaKeeps : (id : String) (leg : ℕ) → SagaKeeps (attempt_next id leg)
unfolding attempt_next
attempt_next-SagaKeeps id leg =
    bind-SagaKeeps (ignore (attempt_leg id leg false))
      (λ _ p. attempt_if_advanced id leg (shell (next_leg_for id) p))
      (ignore-SagaKeeps (attempt_leg id leg false) (attempt_leg-SagaKeeps id leg false))
      (λ _. record {
        at = λ p h.
            attempt_if_advanced-Steady id leg (shell (next_leg_for id) p)
              ((shell-SagaKeeps (next_leg_for id) (next_leg_for-Keeps id)).at p h);
      })

attempt_if_due-Steady :
    (id : String) (r : Result Error ℕ × Process) → Steady r.1 → Steady (attempt_if_due id r).1
attempt_if_due-Steady id (err e, p) h = h
attempt_if_due-Steady id (ok leg, p) h =
    if-Steady (eqb leg 0) (ok tt, p) (attempt_next id leg p) h
      ((attempt_next-SagaKeeps id leg).at p h)

reverse_or_attempt-Steady :
    (id : String) (r : Result Error Bool × Process)
    → Steady r.1
    → Steady (reverse_or_attempt id r).1
reverse_or_attempt-Steady id (ok true, p) h = (resume_leg1_reversal-SagaKeeps id).at p h
reverse_or_attempt-Steady id (ok false, p) h =
    attempt_if_due-Steady id (shell (next_leg_for id) p)
      ((shell-SagaKeeps (next_leg_for id) (next_leg_for-Keeps id)).at p h)
reverse_or_attempt-Steady id (err e, p) h =
    attempt_if_due-Steady id (shell (next_leg_for id) p)
      ((shell-SagaKeeps (next_leg_for id) (next_leg_for-Keeps id)).at p h)

attempt_due_legs-SagaKeeps : (id : String) → SagaKeeps (attempt_due_legs id)
unfolding attempt_due_legs
attempt_due_legs-SagaKeeps id = record {
  at = λ p h.
      reverse_or_attempt-Steady id (shell (reversal_pending id) p)
        ((shell-SagaKeeps (reversal_pending id) (reversal_pending-Keeps id)).at p h);
}

attempt_each-SagaKeeps : (ids : List String) → SagaKeeps (attempt_each ids)
attempt_each-SagaKeeps [] = return-SagaKeeps tt
attempt_each-SagaKeeps (id ∷ ids) =
    bind-SagaKeeps (attempt_due_legs id) _ (attempt_due_legs-SagaKeeps id)
      (λ _. attempt_each-SagaKeeps ids)

due_transfer_ids-Keeps : (limit : ℕ) → Keeps (due_transfer_ids limit)
unfolding due_transfer_ids
due_transfer_ids-Keeps limit =
    unit-Keeps _ (Safe-bind IsSound clock _ (Safe-clock IsSound) (λ now. Safe-query IsSound _))

process_due_transfers-SagaKeeps : (limit : ℕ) → SagaKeeps (process_due_transfers limit)
unfolding process_due_transfers
process_due_transfers-SagaKeeps limit =
    bind-SagaKeeps (shell (due_transfer_ids limit)) _
      (shell-SagaKeeps (due_transfer_ids limit) (due_transfer_ids-Keeps limit))
      (λ ids.
        bind-SagaKeeps (attempt_each ids) _ (attempt_each-SagaKeeps ids)
          (λ _. return-SagaKeeps (length ids)))

pub process_due_transfers_once-SagaKeeps : SagaKeeps process_due_transfers_once
unfolding process_due_transfers_once
process_due_transfers_once-SagaKeeps = process_due_transfers-SagaKeeps retry_batch_limit

pub trigger_forward_legs-SagaKeeps : (id : String) → SagaKeeps (trigger_forward_legs id)
unfolding trigger_forward_legs
trigger_forward_legs-SagaKeeps id =
    after-SagaKeeps inline_attempt_grace_window (forward_legs_from id 2) tt

pub run_task-SagaKeeps : (task : Task) → TaskInRange task → SagaKeeps (run_task task)
unfolding run_task
run_task-SagaKeeps (forward_legs_from id leg) r = attempt_forward_legs_from-SagaKeeps id leg
run_task-SagaKeeps (leg1_reversal id s) r =
    ignore-SagaKeeps (attempt_leg1_reversal id s) (attempt_leg1_reversal-SagaKeeps id s r)
run_task-SagaKeeps (leg2_then_leg1_reversal id s inline) r =
    ignore-SagaKeeps (reverse_leg2_then_leg1 id s inline)
      (reverse_leg2_then_leg1-SagaKeeps id s inline r)
