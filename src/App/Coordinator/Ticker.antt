-- ===== src/App/Coordinator/Ticker.antt =====
-- The retry ticker, and the goroutines that wake up, of internal/app/transfer_coordinator.go.
use Prim.Native.String.{◌++◌}
use ledgerops.Prelude.{
  ℕ, String, Bool, true, false, Option, none, some, List, [], ◌∷◌, eqb, length, if◌then◌else◌,
  Result, ok, err, ◌||◌,
}
use ledgerops.Ports.Vocabulary.{
  Error, Claim, TransferState, TransferStatus, retrying, LegStatus, leg_posted,
}
use ledgerops.Ports.Shell.{Shell, pure, ◌>>=◌, query, clock, with_unit_of_work}
use ledgerops.Postgres.Idempotency
use ledgerops.Postgres.TransferStates
use ledgerops.App.Coordinator.Movements.{
  leg_reverse_key, retry_batch_limit, inline_attempt_grace_window,
}
use ledgerops.App.Coordinator.Process
use ledgerops.App.Coordinator.Process.{
  Task, forward_legs_from, leg1_reversal, leg2_then_leg1_reversal, Scheduled, Process, Saga, shell,
  ignore, ignored, after,
}
use ledgerops.App.Coordinator.Reversal.{
  leg_posted_status, attempt_leg1_reversal, reverse_leg2_then_leg1,
}
use ledgerops.App.Coordinator.Attempt.{claim_transfer, attempt_leg, attempt_forward_legs_from}

-- `reversalPending`
abbrev pub is_retrying : TransferStatus → Bool
is_retrying retrying = true
is_retrying _ = false

abbrev pub is_found : Option Claim → Bool
is_found none = false
is_found (some _) = true

abbrev pub leg2_is_reversed : Option TransferState → Shell Bool
leg2_is_reversed none = pure false
leg2_is_reversed (some s) =
    if is_retrying s.status
    then (do
      found ← query (Idempotency.lookup (leg_reverse_key s.idempotency_key 2))
      pure (is_found found))
    else pure false

unfoldable pub reversal_pending : String → Shell Bool
unfolding leg_reverse_key
reversal_pending transfer_id =
    with_unit_of_work (query (TransferStates.get transfer_id) >>= leg2_is_reversed)

-- `nextLegFor`: 0 where there is nothing left to do.
abbrev pub is_posted : LegStatus → Bool
is_posted leg_posted = true
is_posted _ = false

abbrev pub next_leg_of : Option TransferState → Shell ℕ
next_leg_of none = pure 0
next_leg_of (some s) = do
  leg2 ← leg_posted_status (s.idempotency_key ++ ":leg2")
  if is_posted leg2
      then (do
        leg3 ← leg_posted_status (s.idempotency_key ++ ":leg3")
        pure (if is_posted leg3 then 0 else 3))
      else pure 2

unfoldable pub next_leg_for : String → Shell ℕ
unfolding leg_posted_status
next_leg_for transfer_id =
    with_unit_of_work (query (TransferStates.get transfer_id) >>= next_leg_of)

-- `resumeLeg1Reversal`
abbrev pub reverse_if_claimed : String → Option TransferState → Saga (Unit {0})
reverse_if_claimed transfer_id none = Process.return tt
reverse_if_claimed transfer_id (some s) = attempt_leg1_reversal transfer_id s

unfoldable pub resume_leg1_reversal : String → Saga (Unit {0})
unfolding claim_transfer attempt_leg1_reversal
resume_leg1_reversal transfer_id =
    Process.◌>>=◌ (shell (claim_transfer transfer_id)) (reverse_if_claimed transfer_id)

-- The second half of `attemptDueLegs`: the leg after the one that was attempted.
abbrev pub attempt_if_advanced :
    String → ℕ → Result Error ℕ × Process → Result Error (Unit {0}) × Process
attempt_if_advanced transfer_id leg (err e, p) = (ok tt, p)
attempt_if_advanced transfer_id leg (ok next, p) =
    if eqb next 0 || eqb next leg then (ok tt, p) else ignore (attempt_leg transfer_id next false) p

unfoldable pub attempt_next : String → ℕ → Saga (Unit {0})
unfolding next_leg_for attempt_leg
attempt_next transfer_id leg =
    Process.◌>>◌ (ignore (attempt_leg transfer_id leg false))
      (λ p. attempt_if_advanced transfer_id leg (shell (next_leg_for transfer_id) p))

abbrev pub attempt_if_due : String → Result Error ℕ × Process → Result Error (Unit {0}) × Process
attempt_if_due transfer_id (err e, p) = (ok tt, p)
attempt_if_due transfer_id (ok leg, p) =
    if eqb leg 0 then (ok tt, p) else attempt_next transfer_id leg p

-- `attemptDueLegs`
abbrev pub reverse_or_attempt :
    String → Result Error Bool × Process → Result Error (Unit {0}) × Process
reverse_or_attempt transfer_id (ok true, p) = ignore (resume_leg1_reversal transfer_id) p
reverse_or_attempt transfer_id (ok false, p) =
    attempt_if_due transfer_id (shell (next_leg_for transfer_id) p)
reverse_or_attempt transfer_id (err e, p) =
    attempt_if_due transfer_id (shell (next_leg_for transfer_id) p)

unfoldable pub attempt_due_legs : String → Saga (Unit {0})
unfolding reversal_pending next_leg_for attempt_next resume_leg1_reversal
attempt_due_legs transfer_id p =
    reverse_or_attempt transfer_id (shell (reversal_pending transfer_id) p)

-- `dueTransferIDs`
unfoldable pub due_transfer_ids : ℕ → Shell (List String)
due_transfer_ids batch_limit =
    with_unit_of_work (clock >>= λ now. query (TransferStates.claim_due now batch_limit))

-- `processDueTransfers`
abbrev pub attempt_each : List String → Saga (Unit {0})
attempt_each [] = Process.return tt
attempt_each (id ∷ ids) = Process.◌>>◌ (attempt_due_legs id) (attempt_each ids)

unfoldable pub process_due_transfers : ℕ → Saga ℕ
unfolding due_transfer_ids attempt_due_legs
process_due_transfers batch_limit =
    Process.◌>>=◌ (shell (due_transfer_ids batch_limit))
      (λ ids. Process.◌>>◌ (attempt_each ids) (Process.return (length ids)))

-- `ProcessDueTransfersOnce`
unfoldable pub process_due_transfers_once : Saga ℕ
unfolding process_due_transfers
process_due_transfers_once = process_due_transfers retry_batch_limit

-- `TriggerForwardLegs`
unfoldable pub trigger_forward_legs : String → Saga (Unit {0})
unfolding after
trigger_forward_legs transfer_id =
    after inline_attempt_grace_window (forward_legs_from transfer_id 2)

-- What a goroutine does when it wakes up.
unfoldable pub run_task : Task → Saga (Unit {0})
unfolding attempt_forward_legs_from attempt_leg1_reversal reverse_leg2_then_leg1
run_task (forward_legs_from transfer_id leg) = attempt_forward_legs_from transfer_id leg
run_task (leg1_reversal transfer_id s) = ignore (attempt_leg1_reversal transfer_id s)
run_task (leg2_then_leg1_reversal transfer_id s is_inline_path) =
    ignore (reverse_leg2_then_leg1 transfer_id s is_inline_path)
