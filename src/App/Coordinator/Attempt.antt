-- ===== src/App/Coordinator/Attempt.antt =====
-- One attempt of a leg, and what follows its failure, of internal/app/transfer_coordinator.go.
pub mod Leased
use ledgerops.Prelude.{
  ℕ, ◌+◌, String, Bool, true, false, ◌&&◌, Option, none, some, eqb, if◌then◌else◌, Result, ok, err,
}
use ledgerops.Ports.Vocabulary.{
  Error, simulated_transient_fault, TransferState, pending, retrying, settled,
}
use ledgerops.Ports.Shell
use ledgerops.Ports.Shell.{World, Shell, begin, commit, rollback}
use ledgerops.Postgres.TransferStates
use ledgerops.App.Coordinator.Movements.{
  Movement, transfer_leg_key, leg_movement, backoff_for_attempt, claim_lease_duration,
}
use ledgerops.App.Coordinator.Process.{
  forward_legs_from, Process, Saga, return, fail, shell, ignore, ◌>>=◌, ◌>>◌, record_failed_attempt,
  consume_fault, consume_forward_crash_simulation, draw_jitter, clock, after,
}
use ledgerops.App.Coordinator.Reversal.{
  advance_after_leg_outcome, post_movement, attempt_leg1_reversal, reverse_leg2_then_leg1,
}

-- `claimTransfer`: its own unit of work, which commits only a claim.
abbrev pub settle_claim :
    Result Error (Option TransferState) × World → Result Error (Option TransferState) × World
settle_claim (ok (some s), w) = Shell.◌>>◌ commit (Shell.pure (some s)) w
settle_claim (ok none, w) = (ok none, rollback w)
settle_claim (err e, w) = (err e, rollback w)

unfoldable pub claim_transfer : String → Shell (Option TransferState)
unfolding rollback
claim_transfer transfer_id =
    Shell.◌>>=◌ begin
      (λ _ w. settle_claim (TransferStates.claim_one transfer_id claim_lease_duration w))

-- `recordLegSuccess`
unfoldable pub record_leg_success : String → ℕ → Saga (Unit {0})
unfolding advance_after_leg_outcome
record_leg_success transfer_id leg = do
  now ← clock
  shell (advance_after_leg_outcome transfer_id (if eqb leg 3 then settled else pending) now "")

-- `handleLegFailure` where attempts are left, or on a leg that has no reversal.
abbrev pub plus_delay : ℕ → Option ℕ → ℕ
plus_delay now none = now
plus_delay now (some delay) = now + delay

abbrev pub schedule_retry : String → ℕ → Option ℕ → Saga (Unit {0})
schedule_retry transfer_id leg none = return tt
schedule_retry transfer_id leg (some delay) = after delay (forward_legs_from transfer_id leg)

unfoldable pub retry_leg : String → ℕ → Error → Option ℕ → Saga (Unit {0})
unfolding advance_after_leg_outcome after
retry_leg transfer_id leg post_err backoff = do
  now ← clock
  shell (advance_after_leg_outcome transfer_id retrying (plus_delay now backoff) "")
  schedule_retry transfer_id leg backoff
  fail post_err

abbrev pub retry_or_reverse : String → ℕ → TransferState → Error → Bool → Option ℕ → Saga (Unit {0})
retry_or_reverse transfer_id leg s post_err is_inline_path (some delay) =
    retry_leg transfer_id leg post_err (some delay)
retry_or_reverse transfer_id leg s post_err is_inline_path none =
    if eqb leg 2
    then (attempt_leg1_reversal transfer_id s >> fail post_err)
    else if eqb leg 3
    then (reverse_leg2_then_leg1 transfer_id s is_inline_path >> fail post_err)
    else retry_leg transfer_id leg post_err none

-- `handleLegFailure`
unfoldable pub handle_leg_failure : String → ℕ → TransferState → Error → Bool → Saga (Unit {0})
unfolding record_failed_attempt draw_jitter backoff_for_attempt retry_leg
handle_leg_failure transfer_id leg s post_err is_inline_path = do
  failed_attempts ← record_failed_attempt transfer_id leg
  jitter ← draw_jitter
  retry_or_reverse transfer_id leg s post_err is_inline_path
      (backoff_for_attempt failed_attempts jitter)

-- The posting of a leg, or the fault that is armed for it.
unfoldable pub post_leg : String → ℕ → TransferState → Movement → Saga (Unit {0})
unfolding consume_fault transfer_leg_key post_movement
post_leg transfer_id leg s m = do
  faulty ← consume_fault (transfer_leg_key transfer_id leg)
  if faulty then fail simulated_transient_fault else (post_movement m s >> return tt)

abbrev pub leg_outcome :
    String
    → ℕ
    → TransferState
    → Bool
    → Result Error (Unit {0}) × Process
    → Result Error (Unit {0}) × Process
leg_outcome transfer_id leg s is_inline_path (err e, p) =
    handle_leg_failure transfer_id leg s e is_inline_path p
leg_outcome transfer_id leg s is_inline_path (ok _, p) = record_leg_success transfer_id leg p

abbrev pub move_leg : String → ℕ → TransferState → Bool → Result Error Movement → Saga (Unit {0})
move_leg transfer_id leg s is_inline_path (err e) = fail e
move_leg transfer_id leg s is_inline_path (ok m) =
    λ p. leg_outcome transfer_id leg s is_inline_path (post_leg transfer_id leg s m p)

-- A simulated crash gives the claim back.
abbrev pub crash_or_move : String → ℕ → TransferState → Bool → Bool → Saga (Unit {0})
crash_or_move transfer_id leg s is_inline_path true = do
  now ← clock
  shell (advance_after_leg_outcome transfer_id s.status now s.reason)
crash_or_move transfer_id leg s is_inline_path false =
    move_leg transfer_id leg s is_inline_path (leg_movement s leg)

abbrev pub attempt_claimed : String → ℕ → Bool → Option TransferState → Saga (Unit {0})
attempt_claimed transfer_id leg is_inline_path none = return tt
attempt_claimed transfer_id leg is_inline_path (some s) =
    (if eqb leg 2 && is_inline_path
      then consume_forward_crash_simulation transfer_id
      else return false)
    >>= crash_or_move transfer_id leg s is_inline_path

-- `attemptLeg`
unfoldable pub attempt_leg : String → ℕ → Bool → Saga (Unit {0})
unfolding claim_transfer consume_forward_crash_simulation advance_after_leg_outcome leg_movement
    post_leg handle_leg_failure record_leg_success
attempt_leg transfer_id leg is_inline_path = do
  claimed ← shell (claim_transfer transfer_id)
  attempt_claimed transfer_id leg is_inline_path claimed

-- `attemptForwardLegsFrom`
abbrev pub then_leg_3 :
    String → ℕ → Result Error (Unit {0}) × Process → Result Error (Unit {0}) × Process
then_leg_3 transfer_id leg (err e, p) = (ok tt, p)
then_leg_3 transfer_id leg (ok _, p) =
    if eqb leg 2 then ignore (attempt_leg transfer_id 3 true) p else (ok tt, p)

unfoldable pub attempt_forward_legs_from : String → ℕ → Saga (Unit {0})
unfolding attempt_leg
attempt_forward_legs_from transfer_id leg p =
    then_leg_3 transfer_id leg (attempt_leg transfer_id leg true p)
