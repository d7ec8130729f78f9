-- ===== src/Http/Steady/Seam.antt =====
-- The handlers of internal/adapters/http/testonly_faults.go keep the process steady.
use Prim.Native.String.{◌++◌}
use ledgerops.Prelude.{
  ℕ, zero, suc, leb, String, Bool, true, false, ◌≡◌, Option, none, some, if◌then◌else◌, Result, ok,
  err, arith,
}
use ledgerops.Prelude.Int.{ℤ, pos, pos_part}
use ledgerops.Domain.Violation.{Money}
use ledgerops.Domain.Money.{new_money}
use ledgerops.Domain.Post.Rules.{IsRange}
use ledgerops.Ports.Vocabulary.{Error}
use ledgerops.Ports.Shell.{Shell, ◌>>=◌, next_id, clock}
use ledgerops.Ports.Shell.Laws.{Quiet-clock, Quiet-next_id}
use ledgerops.App.Transfer.Keeps.{Keeps, Keeps-bind, Keeps-Quiet}
use ledgerops.App.Provisioning.{provision}
use ledgerops.App.Keeping.{provision-Keeps, Keeps-decide}
use ledgerops.App.Coordinator.Process.{Process, shell, arm_fault}
use ledgerops.App.Coordinator.Ticker.{process_due_transfers_once}
use ledgerops.App.Coordinator.Steady.{Steady, shell-SagaKeeps}
use ledgerops.App.Coordinator.Steady.Ticking.{process_due_transfers_once-SagaKeeps}
use ledgerops.App.Coordinator.Steady.Sent.{create_transfer_state-Keeps}
use ledgerops.Http.Wire.{Site, run, members}
use ledgerops.Http.Auth.{Deps}
use ledgerops.Http.Testonly
use ledgerops.Http.Steady.{SiteSteady, ReplyKeeps}
use ledgerops.Http.Steady.Guards.{HandlerKeeps}

if-process : (b : Bool) (p q : Process) → Steady p → Steady q → Steady (if b then p else q)
if-process true p q h k = h
if-process false p q h k = k

arm_fault-Steady : (key : String) (n : ℕ) (p : Process) → Steady p → Steady (arm_fault key n p)
unfolding arm_fault
arm_fault-Steady key n p h =
    if-process (leb n 0) p _ h (record { books = h.books; tasks = h.tasks })

inject-ReplyKeeps :
    (f : Testonly.LegFault → Process → Process) (r : Option Testonly.LegFault)
    → ((l : Testonly.LegFault) (p : Process) → Steady p → Steady (f l p))
    → ReplyKeeps (Testonly.inject f r)
inject-ReplyKeeps f none k = record { at = λ s h. h }
inject-ReplyKeeps f (some l) k = record { at = λ s h. k l s.process h }

pub inject_leg-ReplyKeeps : HandlerKeeps Testonly.inject_leg_fault_handler
unfolding Testonly.inject_leg_fault_handler Testonly.inject_leg_fault_count
inject_leg-ReplyKeeps req =
    inject-ReplyKeeps _ (Testonly.leg_fault_request (members req.body))
      (λ l p h. arm_fault-Steady _ _ p h)

pub inject_reversal-ReplyKeeps : HandlerKeeps Testonly.inject_reversal_fault_handler
unfolding Testonly.inject_reversal_fault_handler Testonly.inject_reversal_fault_count
inject_reversal-ReplyKeeps req =
    inject-ReplyKeeps _ (Testonly.leg_fault_request (members req.body))
      (λ l p h. arm_fault-Steady _ _ p h)

simulate-ReplyKeeps :
    (f : String → Process → Process) (r : Option String)
    → ((id : String) (p : Process) → Steady p → Steady (f id p))
    → ReplyKeeps (Testonly.simulate f r)
simulate-ReplyKeeps f none k = record { at = λ s h. h }
simulate-ReplyKeeps f (some id) k = record { at = λ s h. k id s.process h }

pub crash_forward-ReplyKeeps : HandlerKeeps Testonly.simulate_crash_before_forward_leg_handler
unfolding Testonly.simulate_crash_before_forward_leg_handler
    Testonly.simulate_crash_before_forward_leg_attempt
crash_forward-ReplyKeeps req =
    simulate-ReplyKeeps _ (Testonly.transfer_id_request (members req.body))
      (λ id p h. record { books = h.books; tasks = h.tasks })

pub crash_reversal-ReplyKeeps : HandlerKeeps Testonly.simulate_crash_before_reversal_handler
unfolding Testonly.simulate_crash_before_reversal_handler
    Testonly.simulate_crash_before_reversal_attempt
crash_reversal-ReplyKeeps req =
    simulate-ReplyKeeps _ (Testonly.transfer_id_request (members req.body))
      (λ id p h. record { books = h.books; tasks = h.tasks })

tick-Steady : (r : Result Error ℕ × Site) → SiteSteady r.1 → SiteSteady (Testonly.answer_tick r).1
tick-Steady (err e, s) h = h
tick-Steady (ok n, s) h = h

pub tick_once-ReplyKeeps : HandlerKeeps Testonly.run_retry_ticker_once_handler
unfolding Testonly.run_retry_ticker_once_handler
tick_once-ReplyKeeps req = record {
  at = λ s h.
      tick-Steady (run process_due_transfers_once s)
        (process_due_transfers_once-SagaKeeps.at s.process h);
}

seed_one-Keeps :
    (sender counterparty : String) (m : Money) (now : ℕ)
    → IsRange m
    → Keeps (Testonly.seed_one sender counterparty m now)
unfolding Testonly.seed_one
seed_one-Keeps sender counterparty m now r =
    Keeps-bind next_id _ (Keeps-Quiet next_id Quiet-next_id) (λ id. create_transfer_state-Keeps _ r)

seed_each-Keeps :
    (sender counterparty : String) (m : Money) (now n : ℕ)
    → IsRange m
    → Keeps (Testonly.seed_each sender counterparty m now n)
unfolding Testonly.seed_each
seed_each-Keeps sender counterparty m now zero r = λ w h. h
seed_each-Keeps sender counterparty m now (suc n) r =
    Keeps-bind (Testonly.seed_one sender counterparty m now) _
      (seed_one-Keeps sender counterparty m now r)
      (λ _. seed_each-Keeps sender counterparty m now n r)

abbrev seed_now : String → String → ℕ → Money → Shell (Unit {0})
seed_now sender counterparty n m = clock >>= λ now. Testonly.seed_each sender counterparty m now n

seed_now-Keeps :
    (sender counterparty : String) (n : ℕ) (m : Money)
    → IsRange m
    → Keeps (seed_now sender counterparty n m)
seed_now-Keeps sender counterparty n m r =
    Keeps-bind clock _ (Keeps-Quiet clock Quiet-clock)
      (λ now. seed_each-Keeps sender counterparty m now n r)

one_unit-IsRange : {m : Money} → new_money (pos 1) "USD" ≡ ok m → IsRange m
unfolding new_money
one_unit-IsRange h = ground arith

seed_due-Keeps : (deps : Deps) (n : ℕ) → Keeps (Testonly.seed_due deps n)
unfolding Testonly.seed_due
seed_due-Keeps deps n = Keeps-bind next_id _ (Keeps-Quiet next_id Quiet-next_id) (λ id.
    Keeps-bind (provision deps.sha256_hex ("testonly-seed-sender-" ++ id)) _
      (provision-Keeps deps.sha256_hex ("testonly-seed-sender-" ++ id))
      (λ sender. Keeps-bind next_id _ (Keeps-Quiet next_id Quiet-next_id) (λ other.
        Keeps-bind (provision deps.sha256_hex ("testonly-seed-counterparty-" ++ other)) _
          (provision-Keeps deps.sha256_hex ("testonly-seed-counterparty-" ++ other))
          (λ counterparty.
            Keeps-decide (new_money (pos 1) "USD")
              (seed_now sender.tenant_id counterparty.tenant_id n)
              (λ amount e.
                seed_now-Keeps sender.tenant_id counterparty.tenant_id n amount
                  (one_unit-IsRange e))))))

seeded-Steady :
    (count : ℤ) (r : Result Error (Unit {0}) × Site)
    → SiteSteady r.1
    → SiteSteady (Testonly.answer_seeded count r).1
seeded-Steady count (err e, s) h = h
seeded-Steady count (ok u, s) h = h

pub seed-ReplyKeeps :
    (deps : Deps) → HandlerKeeps (Testonly.seed_transfers_due_for_retry_handler deps)
unfolding Testonly.seed_transfers_due_for_retry_handler
seed-ReplyKeeps deps req = counted (Testonly.seed_count (members req.body))
  where
    counted : (n : Option ℤ) → ReplyKeeps (Testonly.seed_or_refuse deps n)
    counted none = record { at = λ s h. h }
    counted (some n) = record {
      at = λ s h. seeded-Steady n (run (shell (Testonly.seed_due deps (pos_part n))) s) (
          (shell-SagaKeeps (Testonly.seed_due deps (pos_part n))
              (seed_due-Keeps deps (pos_part n))).at
            s.process h);
    }
