-- ===== src/Ports/Shell.antt =====
-- The effect shell: what a use case sees of the world, and units of work over it
-- (`ports.Store`, `ports.UnitOfWork`, `ports.Clock`, `ports.IDGenerator`, and `withUnitOfWork` of
-- internal/app/usecases.go). Any call of the store may fail; a commit may also take place while
-- its answer is lost.
pub mod Laws
pub mod Invariant
pub mod Atomic
pub mod Success
pub mod Safety
use ledgerops.Prelude.{
  ℕ, ◌+◌, String, Bool, true, false, List, [], ◌∷◌, if◌then◌else◌, Result, ok, err, Option, none,
  some,
}
use ledgerops.Domain.Violation.{Violation, ViolationKind}
use ledgerops.Ports.Vocabulary.{Error, violation, infrastructure}
use ledgerops.Postgres.Tables.{Db}

pub data Outcome : Type 0 where
  done failed lost : Outcome

-- `db` is what the open unit of work sees, `committed` what everybody else sees. `outages` are the
-- outcomes of the next calls of the store (when it ends, they succeed), `rivals` what other
-- sessions commit while a claim waits, `ids` the identifiers that the generator hands out.
pub record World : Type 0 where
  pub committed : Db
  pub db : Db
  pub outages : List Outcome
  pub rivals : List (Db → Db)
  pub now : ℕ
  pub ids : ℕ → String
  pub minted : ℕ

abbrev pub Shell {ℓ} : Type ℓ → Type ℓ
Shell A = World → Result Error A × World

module _ {ℓ} {A : Type ℓ} where
  abbrev pub pure : A → Shell A
  pure a w = (ok a, w)

  abbrev pub raise : Error → Shell A
  raise e w = (err e, w)

  abbrev pub lift : Result Error A → Shell A
  lift r w = (r, w)

  -- A decision of the pure core, inside the shell.
  abbrev pub decide : Result Violation A → Shell A
  decide (ok a) w = (ok a, w)
  decide (err v) w = (err (violation v), w)

-- `if test { return …, e }`
abbrev pub raise_if : Bool → Error → Shell (Unit {0})
raise_if true e = raise e
raise_if false e = pure tt

abbrev pub continue {ℓ κ} :
    {A : Type ℓ} {B : Type κ} → Result Error A × World → (A → Shell B) → Result Error B × World
continue (ok a, w) f = f a w
continue (err e, w) f = (err e, w)

infixl 5 ◌>>=◌ ◌>>◌
abbrev pub ◌>>=◌ {ℓ κ} : {A : Type ℓ} {B : Type κ} → Shell A → (A → Shell B) → Shell B
◌>>=◌ m f w = continue (m w) f

abbrev pub ◌>>◌ {ℓ κ} : {A : Type ℓ} {B : Type κ} → Shell A → Shell B → Shell B
m >> k = m >>= λ _. k

-- The outcome of the next call.
abbrev pub take_outcome : List Outcome → World → Outcome × World
take_outcome [] w = (done, w)
take_outcome (o ∷ os) w = (o, record w { outages = os })

abbrev pub draw : World → Outcome × World
draw w = take_outcome w.outages w

-- One statement of a unit of work.
abbrev pub stored {ℓ} : {A : Type ℓ} → Result Error (A × Db) → World → Result Error A × World
stored (ok (a, db)) w = (ok a, record w { db = db })
stored (err e) w = (err e, w)

abbrev pub run_statement {ℓ} :
    {A : Type ℓ} → (Db → Result Error (A × Db)) → Outcome × World → Result Error A × World
run_statement f (done, w) = stored (f w.db) w
run_statement f (failed, w) = (err infrastructure, w)
run_statement f (lost, w) = (err infrastructure, w)

unfoldable pub statement {ℓ} : {A : Type ℓ} → (Db → Result Error (A × Db)) → Shell A
statement f w = run_statement f (draw w)

-- A statement that reads.
abbrev pub unchanged {ℓ} : {A : Type ℓ} → Result Error A → Db → Result Error (A × Db)
unchanged (ok a) db = ok (a, db)
unchanged (err e) db = err e

abbrev pub query {ℓ} : {A : Type ℓ} → (Db → Result Error A) → Shell A
query f = statement (λ db. unchanged (f db) db)

-- A lookup whose miss, a violation of one kind, is an answer too: `errors.As`, and a test of the
-- kind.
abbrev pub found_or {ℓ κ} :
    {A : Type ℓ} {B : Type κ}
    → (A → B)
    → (ViolationKind → Option B)
    → Result Error A × World
    → Result Error B × World
found_or hit miss (ok a, w) = (ok (hit a), w)
found_or hit miss (err (violation v), w) = elim (miss v.kind) [
  | some b ↦ (ok b, w)
  | none ↦ (err (violation v), w)
]
found_or hit miss (err e, w) = (err e, w)

-- `l.clock()` and `time.Now()`
unfoldable pub clock : Shell ℕ
clock w = (ok w.now, w)

-- `l.nextID()`
unfoldable pub next_id : Shell String
next_id w = (ok (w.ids w.minted), record w { minted = w.minted + 1 })

-- `Store.Begin`: a unit of work sees what is committed.
abbrev pub opened : Outcome × World → Result Error (Unit {0}) × World
opened (done, w) = (ok tt, record w { db = w.committed })
opened (failed, w) = (err infrastructure, w)
opened (lost, w) = (err infrastructure, w)

unfoldable pub begin : Shell (Unit {0})
begin w = opened (draw w)

-- `UnitOfWork.Rollback`
unfoldable pub rollback : World → World
rollback w = record w { db = w.committed }

-- `UnitOfWork.Commit`: a lost answer has committed.
abbrev pub settled_commit : Outcome × World → Result Error (Unit {0}) × World
settled_commit (done, w) = (ok tt, record w { committed = w.db })
settled_commit (failed, w) = (err infrastructure, record w { db = w.committed })
settled_commit (lost, w) = (err infrastructure, record w { committed = w.db })

unfoldable pub commit : Shell (Unit {0})
commit w = settled_commit (draw w)

-- `withUnitOfWork`: commit on success, roll back on any error.
abbrev pub close {ℓ} : {A : Type ℓ} → Result Error A × World → Result Error A × World
close (ok a, w) = (commit >> pure a) w
close (err e, w) = (err e, rollback w)

unfoldable pub with_unit_of_work {ℓ} : {A : Type ℓ} → Shell A → Shell A
with_unit_of_work fn = begin >>= λ _ w. close (fn w)
