-- ===== src/Http/Testonly.antt =====
-- internal/adapters/http/testonly_faults.go, and the operations of
-- internal/app/transfer_coordinator_testonly.go that only it calls.
use Prim.Native.String.{◌++◌}
use ledgerops.Prelude.{
  ℕ, zero, suc, ◌-◌, String, true, Option, none, some, List, [], ◌∷◌, ◌==◌, any, if◌then◌else◌,
  Result, ok, err,
}
use ledgerops.Prelude.Int.{ℤ, pos, negsuc, pos_part}
use ledgerops.Prelude.Decimal.{signed_decimal}
use ledgerops.Domain.Violation.{Money}
use ledgerops.Domain.Money.{new_money}
use ledgerops.Ports.Vocabulary.{Error, retrying, leg_pending, leg_posted}
use ledgerops.Ports.Shell.{Shell, pure, decide, ◌>>=◌, ◌>>◌, next_id, clock}
use ledgerops.App.Provisioning.{provision}
use ledgerops.App.Coordinator.Movements.{second}
use ledgerops.App.Coordinator.Process.{Process, shell, arm_fault}
use ledgerops.App.Coordinator.Sending.{create_transfer_state}
use ledgerops.App.Coordinator.Ticker.{process_due_transfers_once}
use ledgerops.Http.Wire.{
  number, flag, scalar, Member, Response, Site, Handler, write_json, error_body, run, members,
  text_field, number_field,
}
use ledgerops.Http.Auth.{Deps}

-- These handlers answer a bad body without a log field.
abbrev pub bad_body : Site → Response × Site
bad_body = write_json 400 (error_body "malformed_request")

abbrev pub done_body : Site → Response × Site
done_body = write_json 200 (("ok", scalar (flag true)) ∷ [])

abbrev pub change : (Process → Process) → Site → Site
change f s = record s { process = f s.process }

-- `legFaultRequest`: the transfer, the leg and the count, which is 1 unless it is positive.
pub record LegFault : Type 0 where
  pub transfer_id : String
  pub leg : ℤ
  pub fail_count : ℤ

abbrev pub leg_fault_request : Option (List Member) → Option LegFault
leg_fault_request none = none
leg_fault_request (some ms) = elim (text_field "transfer_id" ms) [
  | none ↦ none
  | some id ↦ elim (number_field "leg" ms) [
    | none ↦ none
    | some leg ↦ elim (number_field "fail_count" ms) [
      | none ↦ none
      | some n ↦ some (record { transfer_id = id; leg = leg; fail_count = n })
    ]
  ]
]

abbrev pub count_or_one : ℤ → ℕ
count_or_one (pos zero) = 1
count_or_one (pos (suc n)) = suc n
count_or_one (negsuc n) = 1

-- `InjectLegFaultCount` and `InjectReversalFaultCount`, on whatever number the request names.
unfoldable pub inject_leg_fault_count : LegFault → Process → Process
unfolding arm_fault signed_decimal
inject_leg_fault_count f =
    arm_fault (f.transfer_id ++ (":" ++ signed_decimal f.leg)) (count_or_one f.fail_count)

unfoldable pub inject_reversal_fault_count : LegFault → Process → Process
unfolding arm_fault signed_decimal
inject_reversal_fault_count f =
    arm_fault (f.transfer_id ++ (":reversal:" ++ signed_decimal f.leg)) (count_or_one f.fail_count)

abbrev pub inject : (LegFault → Process → Process) → Option LegFault → Site → Response × Site
inject f none s = bad_body s
inject f (some fault) s = done_body (change (f fault) s)

-- `injectLegFaultHandler` and `injectReversalFaultHandler`
unfoldable pub inject_leg_fault_handler : Handler
unfolding inject_leg_fault_count
inject_leg_fault_handler req = inject inject_leg_fault_count (leg_fault_request (members req.body))

unfoldable pub inject_reversal_fault_handler : Handler
unfolding inject_reversal_fault_count
inject_reversal_fault_handler req =
    inject inject_reversal_fault_count (leg_fault_request (members req.body))

-- A set of transfers.
abbrev pub mark : String → List String → List String
mark id marked = if any (λ m. m == id) marked then marked else id ∷ marked

-- `SimulateCrashBeforeForwardLegAttempt` and `SimulateCrashBeforeReversalAttempt`
unfoldable pub simulate_crash_before_forward_leg_attempt : String → Process → Process
simulate_crash_before_forward_leg_attempt id p = record p {
  skip_forward_crash = mark id p.skip_forward_crash;
}

unfoldable pub simulate_crash_before_reversal_attempt : String → Process → Process
simulate_crash_before_reversal_attempt id p = record p {
  skip_reversal_crash = mark id p.skip_reversal_crash;
}

abbrev pub transfer_id_request : Option (List Member) → Option String
transfer_id_request none = none
transfer_id_request (some ms) = text_field "transfer_id" ms

abbrev pub simulate : (String → Process → Process) → Option String → Site → Response × Site
simulate f none s = bad_body s
simulate f (some id) s = done_body (change (f id) s)

-- `simulateCrashBeforeForwardLegHandler` and `simulateCrashBeforeReversalHandler`
unfoldable pub simulate_crash_before_forward_leg_handler : Handler
unfolding simulate_crash_before_forward_leg_attempt
simulate_crash_before_forward_leg_handler req =
    simulate simulate_crash_before_forward_leg_attempt (transfer_id_request (members req.body))

unfoldable pub simulate_crash_before_reversal_handler : Handler
unfolding simulate_crash_before_reversal_attempt
simulate_crash_before_reversal_handler req =
    simulate simulate_crash_before_reversal_attempt (transfer_id_request (members req.body))

-- `runRetryTickerOnceHandler`. The text of an error is not modelled.
abbrev pub answer_tick : Result Error ℕ × Site → Response × Site
answer_tick (err e, s) = write_json 500 (error_body "tick_failed") s
answer_tick (ok claimed, s) = write_json 200 (("claimed", scalar (number (pos claimed))) ∷ []) s

unfoldable pub run_retry_ticker_once_handler : Handler
unfolding process_due_transfers_once
run_retry_ticker_once_handler req s = answer_tick (run process_due_transfers_once s)

-- One row of `seedTransfersDueForRetryHandler`, and the loop over them.
unfoldable pub seed_one : String → String → Money → ℕ → Shell (Unit {0})
unfolding create_transfer_state
seed_one sender counterparty amount now = do
  id ← next_id
  create_transfer_state (record {
    transfer_id = "xfr_testonly_seed_" ++ id;
    tenant_id = sender;
    idempotency_key = "testonly-seed-" ++ ("xfr_testonly_seed_" ++ id);
    status = retrying;
    leg1_status = leg_posted;
    leg2_status = leg_pending;
    leg3_status = leg_pending;
    leg1_attempts = 0;
    leg2_attempts = 0;
    leg3_attempts = 0;
    next_attempt_at = now - second;
    reason = "";
    counterparty_tenant_id = counterparty;
    target_account_id = "settlement";
    amount = amount;
  })

unfoldable pub seed_each : String → String → Money → ℕ → ℕ → Shell (Unit {0})
unfolding seed_one
seed_each sender counterparty amount now zero = pure tt
seed_each sender counterparty amount now (suc n) = do
  seed_one sender counterparty amount now
  seed_each sender counterparty amount now n

unfoldable pub seed_due : Deps → ℕ → Shell (Unit {0})
unfolding provision seed_each new_money
seed_due deps count = do
  id ← next_id
  sender ← provision deps.sha256_hex ("testonly-seed-sender-" ++ id)
  other ← next_id
  counterparty ← provision deps.sha256_hex ("testonly-seed-counterparty-" ++ other)
  amount ← decide (new_money (pos 1) "USD")
  now ← clock
  seed_each sender.tenant_id counterparty.tenant_id amount now count

abbrev pub answer_seeded : ℤ → Result Error (Unit {0}) × Site → Response × Site
answer_seeded count (err e, s) = write_json 500 (error_body "seed_failed") s
answer_seeded count (ok _, s) = write_json 200 (("seeded", scalar (number count)) ∷ []) s

abbrev pub seed_count : Option (List Member) → Option ℤ
seed_count none = none
seed_count (some ms) = number_field "count" ms

abbrev pub seed_or_refuse : Deps → Option ℤ → Site → Response × Site
seed_or_refuse deps none s = bad_body s
seed_or_refuse deps (some count) s =
    answer_seeded count (run (shell (seed_due deps (pos_part count))) s)

-- `seedTransfersDueForRetryHandler`
unfoldable pub seed_transfers_due_for_retry_handler : Deps → Handler
unfolding seed_due
seed_transfers_due_for_retry_handler deps req = seed_or_refuse deps (seed_count (members req.body))
