-- ===== src/App/Coordinator/Process.antt =====
-- The coordinator's own state (`TransferCoordinator` and `testOnlyFaultState`), beside the world.
use ledgerops.Prelude.{
  ℕ, ◌+◌, ◌-◌, String, Bool, true, false, not, List, [], ◌∷◌, ◌++◌, ◌==◌, leb, any, select,
  if◌then◌else◌, Result, ok, err,
}
use ledgerops.Ports.Vocabulary.{Error, TransferState}
use ledgerops.Ports.Shell.{World, Shell}
use ledgerops.App.Coordinator.Movements.{transfer_leg_key, transfer_reversal_leg_key}

-- A goroutine that sleeps: `scheduleRetry` and `TriggerForwardLegs`, and the two closures that
-- `scheduleReversalRetry` is given.
pub data Task : Type 0 where
  forward_legs_from : String → ℕ → Task
  leg1_reversal : String → TransferState → Task
  leg2_then_leg1_reversal : String → TransferState → Bool → Task

pub record Scheduled : Type 0 where
  pub wakes_at : ℕ
  pub task : Task

-- `counts` are the failed attempts by key, `leg_faults` the armed faults, `skip_forward_crash` and
-- `skip_reversal_crash` the simulated crashes, `scheduled` the sleeping goroutines,
-- `reversal_failures` how often the observer was called, `jitter` what `rand.Float64` draws.
-- `tries` bounds the repetitions of `PostTransfer`.
pub record Process : Type 0 where
  pub world : World
  pub counts : List (String × ℕ)
  pub leg_faults : List (String × ℕ)
  pub skip_forward_crash : List String
  pub skip_reversal_crash : List String
  pub scheduled : List Scheduled
  pub reversal_failures : ℕ
  pub jitter : ℕ → ℕ
  pub drawn : ℕ
  pub tries : ℕ

abbrev pub Saga {ℓ} : Type ℓ → Type ℓ
Saga A = Process → Result Error A × Process

module _ {ℓ} {A : Type ℓ} where
  abbrev pub return : A → Saga A
  return a p = (ok a, p)

  abbrev pub fail : Error → Saga A
  fail e p = (err e, p)

  abbrev pub back_in : Process → Result Error A × World → Result Error A × Process
  back_in p (r, w) = (r, record p { world = w })

  -- A use case, or a unit of work, of the shell.
  abbrev pub shell : Shell A → Saga A
  shell m p = back_in p (m p.world)

abbrev pub and_then {ℓ κ} :
    {A : Type ℓ} {B : Type κ} → Result Error A × Process → (A → Saga B) → Result Error B × Process
and_then (ok a, p) f = f a p
and_then (err e, p) f = (err e, p)

infixl 5 ◌>>=◌ ◌>>◌
abbrev pub ◌>>=◌ {ℓ κ} : {A : Type ℓ} {B : Type κ} → Saga A → (A → Saga B) → Saga B
◌>>=◌ m f p = and_then (m p) f

abbrev pub ◌>>◌ {ℓ κ} : {A : Type ℓ} {B : Type κ} → Saga A → Saga B → Saga B
m >> k = m >>= λ _. k

-- `_ = f(…)`
abbrev pub ignored {ℓ} : {A : Type ℓ} → Result Error A × Process → Result Error (Unit {0}) × Process
ignored (_, p) = (ok tt, p)

abbrev pub ignore {ℓ} : {A : Type ℓ} → Saga A → Saga (Unit {0})
ignore m p = ignored (m p)

-- A map from keys to counts: a missing key is 0.
unfoldable pub count_of : String → List (String × ℕ) → ℕ
count_of key [] = 0
count_of key ((k, n) ∷ counts) = let rest = count_of key counts in if k == key then n else rest

unfoldable pub set_count : String → ℕ → List (String × ℕ) → List (String × ℕ)
set_count key n [] = (key, n) ∷ []
set_count key n ((k, m) ∷ counts) =
    let rest = set_count key n counts in if k == key then (k, n) ∷ counts else (k, m) ∷ rest

unfoldable pub delete_count : String → List (String × ℕ) → List (String × ℕ)
delete_count key [] = []
delete_count key ((k, m) ∷ counts) =
    let rest = delete_count key counts in if k == key then rest else (k, m) ∷ rest

abbrev pub record_failure_at : String → Saga ℕ
record_failure_at key p =
    let n = count_of key p.counts + 1 in (ok n, record p { counts = set_count key n p.counts })

-- `recordFailedAttempt`
unfoldable pub record_failed_attempt : String → ℕ → Saga ℕ
unfolding count_of set_count transfer_leg_key
record_failed_attempt transfer_id leg = record_failure_at (transfer_leg_key transfer_id leg)

-- `recordFailedReversalAttempt`
unfoldable pub record_failed_reversal_attempt : String → ℕ → Saga ℕ
unfolding count_of set_count transfer_reversal_leg_key
record_failed_reversal_attempt transfer_id leg =
    record_failure_at (transfer_reversal_leg_key transfer_id leg)

-- `armFault`
unfoldable pub arm_fault : String → ℕ → Process → Process
unfolding set_count
arm_fault key count p =
    if leb count 0 then p else record p { leg_faults = set_count key count p.leg_faults }

-- `consumeFault`
unfoldable pub consume_fault : String → Saga Bool
unfolding count_of set_count delete_count
consume_fault key p =
    let remaining = count_of key p.leg_faults in
    if leb remaining 0 then (ok false, p) else (
      ok true,
      record p {
        leg_faults =
            if leb (remaining - 1) 0
            then delete_count key p.leg_faults
            else set_count key (remaining - 1) p.leg_faults;
      },
    )

abbrev pub consumed : String → List String → Bool × List String
consumed id marked =
    if any (λ m. m == id) marked
    then (true, select (λ m. not (m == id)) marked)
    else (false, marked)

-- `consumeForwardCrashSimulation`
unfoldable pub consume_forward_crash_simulation : String → Saga Bool
consume_forward_crash_simulation transfer_id p =
    let (hit, rest) = consumed transfer_id p.skip_forward_crash in
    (ok hit, record p { skip_forward_crash = rest })

-- `consumeReversalCrashSimulation`
unfoldable pub consume_reversal_crash_simulation : String → Saga Bool
consume_reversal_crash_simulation transfer_id p =
    let (hit, rest) = consumed transfer_id p.skip_reversal_crash in
    (ok hit, record p { skip_reversal_crash = rest })

-- `rand.Float64()`
unfoldable pub draw_jitter : Saga ℕ
draw_jitter p = (ok (p.jitter p.drawn), record p { drawn = p.drawn + 1 })

-- `tc.ledger.clock()`
unfoldable pub clock : Saga ℕ
clock p = (ok p.world.now, p)

-- `go func() { time.Sleep(delay); … }()`
unfoldable pub after : ℕ → Task → Saga (Unit {0})
after delay task p = (
  ok tt,
  record p {
    scheduled = p.scheduled ++ record { wakes_at = p.world.now + delay; task = task } ∷ [];
  },
)
