-- ===== src/Ports/Shell/Success.antt =====
-- What the answer of a unit of work (`withUnitOfWork` of internal/app/usecases.go) says of its
-- action.
use ledgerops.Prelude.{◌≡◌, ap, Result, ok, err}
use ledgerops.Ports.Vocabulary.{Error}
use ledgerops.Ports.Shell.{World, Shell, pure, begin, commit, close, with_unit_of_work}
use ledgerops.Ports.Shell.Laws.{bind-eq-ok, pure-eq-ok}
use ledgerops.Ports.Shell.Invariant.{Holds}
use ledgerops.Ports.Shell.Safety.{begin-sees}
use ledgerops.Postgres.Tables.{Db}

close-eq-ok {ℓ} :
    {A : Type ℓ} (r : Result Error A × World) {a : A} {w' : World}
    → close r ≡ (ok a, w')
    → r ≡ (ok a, r.1)
close-eq-ok (ok x, w) h =
    let (_, u, _, k) = bind-eq-ok commit (λ _. pure x) w h in ap (λ y. (ok y, w)) (pure-eq-ok k).0
close-eq-ok (err e, w) h = cc

-- A unit of work that answers with a value has run its action to that value.
pub with_unit_of_work-eq-ok {ℓ} :
    {A : Type ℓ} (m : Shell A) (w : World) {a : A} {w' : World}
    → with_unit_of_work m w ≡ (ok a, w')
    → (start : World) × (end : World) × (m start ≡ (ok a, end))
unfolding with_unit_of_work
with_unit_of_work-eq-ok m w {a} h =
    let (_, start, _, k) = bind-eq-ok begin (λ _ v. close (m v)) w h in
    (start, (m start).1, close-eq-ok (m start) k)

-- It has run it from tables that have what all committed tables have.
pub with_unit_of_work-sees {ℓ κ} :
    (P : Db → Type κ) {A : Type ℓ} (m : Shell A) (w : World) {a : A} {w' : World}
    → Holds P w
    → with_unit_of_work m w ≡ (ok a, w')
    → (start : World) × (end : World) × P start.db × (m start ≡ (ok a, end))
unfolding with_unit_of_work
with_unit_of_work-sees P m w {a} p h =
    let (_, start, b, k) = bind-eq-ok begin (λ _ v. close (m v)) w h in
    (start, (m start).1, begin-sees P w p b, close-eq-ok (m start) k)
