-- ===== src/App/Coordinator/Steady.antt =====
-- The invariant of the coordinator's process: sound books, and sleeping goroutines that will move
-- amounts in the range of `int64`. What the pieces of a saga keep.
pub mod Reversing
pub mod Attempting
pub mod Ticking
pub mod Sent
use ledgerops.Prelude.{
  ℕ, String, ◌≡◌, refl, ap, Bool, true, false, List, [], ◌∷◌, All, All-append, if◌then◌else◌,
  Result, ok, err,
}
use ledgerops.Prelude.Int64.{IsInt64}
use ledgerops.Ports.Vocabulary.{Error, TransferState}
use ledgerops.Ports.Shell.{World, Shell}
use ledgerops.Ports.Shell.Invariant.{Holds}
use ledgerops.Books.Sound.{IsSound}
use ledgerops.App.Transfer.{Answer}
use ledgerops.App.Transfer.Keeps.{Keeps}
use ledgerops.App.Transfer.Safe.{post_transfer-IsSound}
use ledgerops.App.Coordinator.Movements.{Movement}
use ledgerops.App.Coordinator.Process.{
  Task, forward_legs_from, leg1_reversal, leg2_then_leg1_reversal, Scheduled, Process, Saga, return,
  fail, shell, and_then, ◌>>=◌, ignore, record_failed_attempt, record_failed_reversal_attempt,
  consume_fault, consume_forward_crash_simulation, consume_reversal_crash_simulation, draw_jitter,
  clock, after,
}
use ledgerops.App.Coordinator.Reversal.{post_movement}

abbrev pub InRange : TransferState → Type 0
InRange s = IsInt64 s.amount.minor_units

abbrev pub TaskInRange : Task → Type 0
TaskInRange (forward_legs_from id leg) = Unit
TaskInRange (leg1_reversal id s) = InRange s
TaskInRange (leg2_then_leg1_reversal id s inline) = InRange s

pub record Steady (p : Process) : Type 0 where
  pub books : Holds IsSound p.world
  pub tasks : All (λ (s : Scheduled). TaskInRange s.task) p.scheduled

pub record SagaKeeps {ℓ} {A : Type ℓ} (m : Saga A) : Type ℓ where
  pub at : (p : Process) → Steady p → Steady (m p).1

pub return-SagaKeeps {ℓ} : {A : Type ℓ} (a : A) → SagaKeeps (return a)
return-SagaKeeps a = record { at = λ p h. h }

pub fail-SagaKeeps {ℓ} : {A : Type ℓ} (e : Error) → SagaKeeps (fail {A = A} e)
fail-SagaKeeps e = record { at = λ p h. h }

pub shell-SagaKeeps {ℓ} : {A : Type ℓ} (m : Shell A) → Keeps m → SagaKeeps (shell m)
shell-SagaKeeps m k = record { at = λ p h. record { books = k p.world h.books; tasks = h.tasks } }

and_then-Steady {ℓ κ} :
    {A : Type ℓ} {B : Type κ} (r : Result Error A × Process) (f : A → Saga B)
    → Steady r.1
    → ((a : A) → r.0 ≡ ok a → SagaKeeps (f a))
    → Steady (and_then r f).1
and_then-Steady (ok a, p) f h k = (k a refl).at p h
and_then-Steady (err e, p) f h k = h

-- A chain whose steps keep the invariant, where each follows from the answer before it.
pub bind-SagaKeeps_on {ℓ κ} :
    {A : Type ℓ} {B : Type κ} (m : Saga A) (f : A → Saga B)
    → SagaKeeps m
    → ((p : Process) → Steady p → (a : A) → (m p).0 ≡ ok a → SagaKeeps (f a))
    → SagaKeeps (m >>= f)
bind-SagaKeeps_on m f k l = record { at = λ p h. and_then-Steady (m p) f (k.at p h) (l p h) }

pub bind-SagaKeeps {ℓ κ} :
    {A : Type ℓ} {B : Type κ} (m : Saga A) (f : A → Saga B)
    → SagaKeeps m
    → ((a : A) → SagaKeeps (f a))
    → SagaKeeps (m >>= f)
bind-SagaKeeps m f k l = bind-SagaKeeps_on m f k (λ p h a e. l a)

pub ignore-SagaKeeps {ℓ} : {A : Type ℓ} (m : Saga A) → SagaKeeps m → SagaKeeps (ignore m)
ignore-SagaKeeps m k = record { at = λ p h. k.at p h }

pub if-SagaKeeps {ℓ} :
    {A : Type ℓ} (b : Bool) (x y : Saga A)
    → SagaKeeps x
    → SagaKeeps y
    → SagaKeeps (if b then x else y)
if-SagaKeeps true x y h k = h
if-SagaKeeps false x y h k = k

pub if-Steady {ℓ} :
    {A : Type ℓ} (b : Bool) (x y : Result Error A × Process)
    → Steady x.1
    → Steady y.1
    → Steady (if b then x else y).1
if-Steady true x y h k = h
if-Steady false x y h k = k

pub clock-SagaKeeps : SagaKeeps clock
unfolding clock
clock-SagaKeeps = record { at = λ p h. h }

pub draw_jitter-SagaKeeps : SagaKeeps draw_jitter
unfolding draw_jitter
draw_jitter-SagaKeeps = record { at = λ p h. record { books = h.books; tasks = h.tasks } }

pub record_failed_attempt-SagaKeeps :
    (id : String) (leg : ℕ) → SagaKeeps (record_failed_attempt id leg)
unfolding record_failed_attempt
record_failed_attempt-SagaKeeps id leg = record {
  at = λ p h. record { books = h.books; tasks = h.tasks };
}

pub record_failed_reversal_attempt-SagaKeeps :
    (id : String) (leg : ℕ) → SagaKeeps (record_failed_reversal_attempt id leg)
unfolding record_failed_reversal_attempt
record_failed_reversal_attempt-SagaKeeps id leg = record {
  at = λ p h. record { books = h.books; tasks = h.tasks };
}

pub consume_fault-SagaKeeps : (key : String) → SagaKeeps (consume_fault key)
unfolding consume_fault
consume_fault-SagaKeeps key = record {
  at = λ p h. if-Steady _ _ _ h (record { books = h.books; tasks = h.tasks });
}

pub consume_forward-SagaKeeps : (id : String) → SagaKeeps (consume_forward_crash_simulation id)
unfolding consume_forward_crash_simulation
consume_forward-SagaKeeps id = record { at = λ p h. record { books = h.books; tasks = h.tasks } }

pub consume_reversal-SagaKeeps : (id : String) → SagaKeeps (consume_reversal_crash_simulation id)
unfolding consume_reversal_crash_simulation
consume_reversal-SagaKeeps id = record { at = λ p h. record { books = h.books; tasks = h.tasks } }

pub after-SagaKeeps : (delay : ℕ) (task : Task) → TaskInRange task → SagaKeeps (after delay task)
unfolding after
after-SagaKeeps delay task r = record {
  at = λ p h. record {
    books = h.books;
    tasks = All-append (λ (s : Scheduled). TaskInRange s.task) p.scheduled _ h.tasks (r, tt);
  };
}

pub post_movement-SagaKeeps :
    (m : Movement) (s : TransferState) → InRange s → SagaKeeps (post_movement m s)
unfolding post_movement
post_movement-SagaKeeps m s r = record {
  at = λ p h. record { books = post_transfer-IsSound p.tries _ p.world r h.books; tasks = h.tasks };
}
