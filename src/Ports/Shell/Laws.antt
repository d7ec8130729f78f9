-- ===== src/Ports/Shell/Laws.antt =====
-- How effects end: what a run that succeeds has done, and what every run leaves alone.
use ledgerops.Prelude.{◌≡◌, refl, Bool, true, false, List, [], ◌∷◌, Result, ok, err, ap, sym, ◌∙◌}
use mathlib.Core.Path.{subst}
use ledgerops.Domain.Violation.{Violation}
use ledgerops.Ports.Vocabulary.{Error}
use ledgerops.Postgres.Tables.{Db}
use ledgerops.Ports.Shell.{
  begin, opened, Outcome, done, failed, lost, World, Shell, pure, raise, raise_if, decide, continue,
  ◌>>=◌, take_outcome, draw, stored, run_statement, statement, query, unchanged, clock, next_id,
}

-- A chain that succeeds has succeeded at its first action.
continue-eq-ok {ℓ κ} :
    {A : Type ℓ} {B : Type κ} (r : Result Error A × World) (f : A → Shell B) {b : B} {w' : World}
    → continue r f ≡ (ok b, w')
    → (a : A) × (u : World) × (r ≡ (ok a, u)) × (f a u ≡ (ok b, w'))
continue-eq-ok (ok a, u) f h = (a, u, refl, h)
continue-eq-ok (err e, u) f h = cc

pub bind-eq-ok {ℓ κ} :
    {A : Type ℓ} {B : Type κ} (m : Shell A) (f : A → Shell B) (w : World) {b : B} {w' : World}
    → (m >>= f) w ≡ (ok b, w')
    → (a : A) × (u : World) × (m w ≡ (ok a, u)) × (f a u ≡ (ok b, w'))
bind-eq-ok m f w h = continue-eq-ok (m w) f h

pub pure-eq-ok {ℓ} :
    {A : Type ℓ} {a b : A} {w w' : World} → pure a w ≡ (ok b, w') → (a ≡ b) × (w ≡ w')
pure-eq-ok h = (cc (ap (λ r. r.0) h), ap (λ r. r.1) h)

-- A decision that succeeds has changed nothing.
pub decide-eq-ok {ℓ} :
    {A : Type ℓ} (r : Result Violation A) (w : World) {a : A} {w' : World}
    → decide r w ≡ (ok a, w')
    → (r ≡ ok a) × (w'.db ≡ w.db)
decide-eq-ok (ok x) w h = (ap ok (pure-eq-ok h).0, ap World.db (sym (pure-eq-ok h).1))
decide-eq-ok (err v) w h = cc

-- The environment, which no statement touches.
pub record SameEnv (w w' : World) : Type 0 where
  pub committed : w'.committed ≡ w.committed
  pub rivals : w'.rivals ≡ w.rivals
  pub now : w'.now ≡ w.now

pub SameEnv-refl : (w : World) → SameEnv w w
SameEnv-refl w = record { committed = refl; rivals = refl; now = refl }

pub SameEnv-trans : {u v w : World} → SameEnv u v → SameEnv v w → SameEnv u w
SameEnv-trans h k = record {
  committed = k.committed ∙ h.committed;
  rivals = k.rivals ∙ h.rivals;
  now = k.now ∙ h.now;
}

-- Drawing an outcome changes the list of outcomes alone.
take_outcome_same :
    (os : List Outcome) (w : World)
    → ((take_outcome os w).1.db ≡ w.db) × SameEnv w (take_outcome os w).1
take_outcome_same [] w = (refl, SameEnv-refl w)
take_outcome_same (o ∷ os) w = (refl, record { committed = refl; rivals = refl; now = refl })

pub draw_same : (w : World) → ((draw w).1.db ≡ w.db) × SameEnv w (draw w).1
draw_same w = take_outcome_same w.outages w

stored-eq-ok {ℓ} :
    {A : Type ℓ} (r : Result Error (A × Db)) (w : World) {a : A} {w' : World}
    → stored r w ≡ (ok a, w')
    → (r ≡ ok (a, w'.db)) × SameEnv w w'
stored-eq-ok {A} (ok (x, db)) w {a} {w'} h =
    let world = ap (λ (r : Result Error A × World). r.1) h in
    (
      cc (ap (λ (r : Result Error A × World). r.0) h),
      record {
        committed = sym (ap World.committed world);
        rivals = sym (ap World.rivals world);
        now = sym (ap World.now world);
      },
    )
stored-eq-ok (err e) w h = cc

run_statement-eq-ok {ℓ} :
    {A : Type ℓ} (f : Db → Result Error (A × Db)) (d : Outcome × World) {a : A} {w' : World}
    → run_statement f d ≡ (ok a, w')
    → (f d.1.db ≡ ok (a, w'.db)) × SameEnv d.1 w'
run_statement-eq-ok f (done, w) h = stored-eq-ok (f w.db) w h
run_statement-eq-ok f (failed, w) h = cc
run_statement-eq-ok f (lost, w) h = cc

-- A statement that succeeds has changed the tables by its function, and nothing else.
pub statement-eq-ok {ℓ} :
    {A : Type ℓ} (f : Db → Result Error (A × Db)) (w : World) {a : A} {w' : World}
    → statement f w ≡ (ok a, w')
    → (f w.db ≡ ok (a, w'.db)) × SameEnv w w'
unfolding statement
statement-eq-ok f w {a} {w'} h =
    let (e, s) = run_statement-eq-ok f (draw w) h in
    (subst (λ d. f d ≡ ok (a, w'.db)) (draw_same w).0 e, SameEnv-trans (draw_same w).1 s)

unchanged-eq-ok {ℓ} :
    {A : Type ℓ} (r : Result Error A) (db : Db) {a : A} {db' : Db}
    → unchanged r db ≡ ok (a, db')
    → (r ≡ ok a) × (db' ≡ db)
unchanged-eq-ok (ok x) db h = (cc, cc)
unchanged-eq-ok (err e) db h = cc

-- A query that succeeds has read the tables and changed nothing.
pub query-eq-ok {ℓ} :
    {A : Type ℓ} (f : Db → Result Error A) (w : World) {a : A} {w' : World}
    → query f w ≡ (ok a, w')
    → (f w.db ≡ ok a) × (w'.db ≡ w.db) × SameEnv w w'
query-eq-ok f w h =
    let (e, s) = statement-eq-ok (λ db. unchanged (f db) db) w h in
    let (r, d) = unchanged-eq-ok (f w.db) w.db e in (r, d, s)

-- Where no call fails, a statement does what its function says.
pub statement-calm {ℓ} :
    {A : Type ℓ} (f : Db → Result Error (A × Db)) (w : World) {a : A} {db : Db}
    → w.outages ≡ []
    → f w.db ≡ ok (a, db)
    → statement f w ≡ (ok a, record w { db = db })
unfolding statement
statement-calm f w calm e =
    ap (λ os. run_statement f (take_outcome os w)) calm ∙ ap (λ r. stored r w) e

pub query-calm {ℓ} :
    {A : Type ℓ} (f : Db → Result Error A) (w : World) {a : A}
    → w.outages ≡ []
    → f w.db ≡ ok a
    → query f w ≡ (ok a, w)
query-calm f w calm e =
    statement-calm (λ db. unchanged (f db) db) w calm (ap (λ r. unchanged r w.db) e)

pub begin-calm : (w : World) → w.outages ≡ [] → begin w ≡ (ok tt, record w { db = w.committed })
unfolding begin
begin-calm w calm = ap (λ os. opened (take_outcome os w)) calm

-- An action that leaves what is committed, and what rivals will commit, as they were.
pub record Quiet {ℓ} {A : Type ℓ} (m : Shell A) : Type ℓ where
  pub at : (w : World) → SameEnv w (m w).1

stored-SameEnv {ℓ} : {A : Type ℓ} (r : Result Error (A × Db)) (w : World) → SameEnv w (stored r w).1
stored-SameEnv (ok (x, db)) w = record { committed = refl; rivals = refl; now = refl }
stored-SameEnv (err e) w = SameEnv-refl w

run_statement-SameEnv {ℓ} :
    {A : Type ℓ} (f : Db → Result Error (A × Db)) (d : Outcome × World)
    → SameEnv d.1 (run_statement f d).1
run_statement-SameEnv f (done, w) = stored-SameEnv (f w.db) w
run_statement-SameEnv f (failed, w) = SameEnv-refl w
run_statement-SameEnv f (lost, w) = SameEnv-refl w

pub Quiet-statement {ℓ} : {A : Type ℓ} (f : Db → Result Error (A × Db)) → Quiet (statement f)
unfolding statement
Quiet-statement f = record {
  at = λ w. SameEnv-trans (draw_same w).1 (run_statement-SameEnv f (draw w));
}

pub Quiet-query {ℓ} : {A : Type ℓ} (f : Db → Result Error A) → Quiet (query f)
Quiet-query f = Quiet-statement (λ db. unchanged (f db) db)

pub Quiet-pure {ℓ} : {A : Type ℓ} (a : A) → Quiet (pure a)
Quiet-pure a = record { at = λ w. SameEnv-refl w }

pub Quiet-raise {ℓ} : {A : Type ℓ} (e : Error) → Quiet (raise {A = A} e)
Quiet-raise e = record { at = λ w. SameEnv-refl w }

pub Quiet-raise_if : (b : Bool) (e : Error) → Quiet (raise_if b e)
Quiet-raise_if true e = Quiet-raise e
Quiet-raise_if false e = Quiet-pure tt

pub Quiet-decide {ℓ} : {A : Type ℓ} (r : Result Violation A) → Quiet (decide r)
Quiet-decide (ok a) = record { at = λ w. SameEnv-refl w }
Quiet-decide (err v) = record { at = λ w. SameEnv-refl w }

pub Quiet-clock : Quiet clock
unfolding clock
Quiet-clock = record { at = λ w. SameEnv-refl w }

pub Quiet-next_id : Quiet next_id
unfolding next_id
Quiet-next_id = record { at = λ w. record { committed = refl; rivals = refl; now = refl } }

continue-SameEnv {ℓ κ} :
    {A : Type ℓ} {B : Type κ} (r : Result Error A × World) (f : A → Shell B)
    → ((a : A) → Quiet (f a))
    → SameEnv r.1 (continue r f).1
continue-SameEnv (ok a, w) f h = (h a).at w
continue-SameEnv (err e, w) f h = SameEnv-refl w

pub Quiet-bind {ℓ κ} :
    {A : Type ℓ} {B : Type κ} (m : Shell A) (f : A → Shell B)
    → Quiet m
    → ((a : A) → Quiet (f a))
    → Quiet (m >>= f)
Quiet-bind m f h k = record { at = λ w. SameEnv-trans (h.at w) (continue-SameEnv (m w) f k) }

pub ruleset quiet_rules = (
  Quiet-statement, Quiet-query, Quiet-pure, Quiet-raise, Quiet-raise_if, Quiet-decide, Quiet-clock,
  Quiet-next_id, Quiet-bind,
)
