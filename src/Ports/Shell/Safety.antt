-- ===== src/Ports/Shell/Safety.antt =====
-- Which actions of a unit of work are safe for an invariant of the tables, built up as they are.
use mathlib.Core.Path.{subst}
use ledgerops.Prelude.{◌≡◌, refl, sym, ap, ◌∙◌, Option, none, some, Result, ok, err}
use ledgerops.Domain.Violation.{Violation, ViolationKind}
use ledgerops.Ports.Vocabulary.{Error}
use ledgerops.Postgres.Tables.{Db}
use ledgerops.Ports.Shell.{
  Outcome, done, failed, lost, draw, stored, run_statement, begin, opened, found_or, World, Shell,
  pure, raise, decide, continue, ◌>>=◌, statement, query, unchanged, clock, next_id,
}
use ledgerops.Ports.Shell.Laws.{
  draw_same, statement-eq-ok, query-eq-ok, Quiet-statement, Quiet-query,
}
use ledgerops.Ports.Shell.Invariant.{Holds, Holds-SameEnv, Safe}

pub pair_eta {ℓ} : {A : Type ℓ} (r : Result Error A × World) {a : A} → r.0 ≡ ok a → r ≡ (ok a, r.1)
pair_eta (x, w) h = ap (λ y. (y, w)) h

-- A query leaves the tables alone, whether or not it succeeds.
unchanged-db {ℓ} :
    {A : Type ℓ} (r : Result Error A) (w : World) → (stored (unchanged r w.db) w).1.db ≡ w.db
unchanged-db (ok a) w = refl
unchanged-db (err e) w = refl

run_query-db {ℓ} :
    {A : Type ℓ} (f : Db → Result Error A) (d : Outcome × World)
    → (run_statement (λ db. unchanged (f db) db) d).1.db ≡ d.1.db
run_query-db f (done, w) = unchanged-db (f w.db) w
run_query-db f (failed, w) = refl
run_query-db f (lost, w) = refl

pub query-db {ℓ} : {A : Type ℓ} (f : Db → Result Error A) (w : World) → (query f w).1.db ≡ w.db
unfolding statement
query-db f w = run_query-db f (draw w) ∙ (draw_same w).0

missed-world {κ} :
    {B : Type κ} (missed : Option B) (v : Violation) (w : World)
    → (elim missed as (λ x. Result Error B × World) [
      | some b ↦ (ok b, w)
      | none ↦ (err (Error.violation v), w)
    ]).1
      ≡ w
missed-world none v w = refl
missed-world (some b) v w = refl

found_or-world {ℓ κ} :
    {A : Type ℓ} {B : Type κ} (hit : A → B) (miss : ViolationKind → Option B)
    (r : Result Error A × World)
    → (found_or hit miss r).1 ≡ r.1
found_or-world hit miss (ok a, w) = refl
found_or-world hit miss (err (Error.violation v), w) = missed-world (miss v.kind) v w
found_or-world hit miss (err Error.idempotency_key_conflict, w) = refl
found_or-world hit miss (err Error.idempotency_key_claim_conflict, w) = refl
found_or-world hit miss (err Error.transfer_not_found, w) = refl
found_or-world hit miss (err Error.simulated_transient_fault, w) = refl
found_or-world hit miss (err Error.infrastructure, w) = refl
found_or-world hit miss (err Error.out_of_fuel, w) = refl

module _ {ℓ} (P : Db → Type ℓ) where
  continue-Holds {κ μ} :
      {A : Type κ} {B : Type μ} (r : Result Error A × World) (f : A → Shell B)
      → Holds P r.1
      → ((a : A) → r.0 ≡ ok a → P r.1.db)
      → ((a : A) → r.0 ≡ ok a → Safe P (f a))
      → Holds P (continue r f).1
  continue-Holds (ok a, w) f h p s = (s a refl).holds w h (p a refl)
  continue-Holds (err e, w) f h p s = h

  continue-sees {κ μ} :
      {A : Type κ} {B : Type μ} (r : Result Error A × World) (f : A → Shell B)
      → Holds P r.1
      → ((a : A) → r.0 ≡ ok a → P r.1.db)
      → ((a : A) → r.0 ≡ ok a → Safe P (f a))
      → (b : B) → (continue r f).0 ≡ ok b
      → P (continue r f).1.db
  continue-sees (ok a, w) f h p s b e = (s a refl).sees w h (p a refl) b e
  continue-sees (err x, w) f h p s b e = cc

  -- A chain whose steps are safe, where each follows from the answer before it.
  pub Safe-bind-on {κ μ} :
      {A : Type κ} {B : Type μ} (m : Shell A) (f : A → Shell B)
      → Safe P m
      → ((a : A) (w : World) → (m w).0 ≡ ok a → Safe P (f a))
      → Safe P (m >>= f)
  Safe-bind-on m f s k = record {
    holds = λ w h p. continue-Holds (m w) f (s.holds w h p) (s.sees w h p) (λ a. k a w);
    sees = λ w h p. continue-sees (m w) f (s.holds w h p) (s.sees w h p) (λ a. k a w);
  }

  pub Safe-bind {κ μ} :
      {A : Type κ} {B : Type μ} (m : Shell A) (f : A → Shell B)
      → Safe P m
      → ((a : A) → Safe P (f a))
      → Safe P (m >>= f)
  Safe-bind m f s k = Safe-bind-on m f s (λ a w e. k a)

  pub Safe-pure {κ} : {A : Type κ} (a : A) → Safe P (pure a)
  Safe-pure a = record { holds = λ w h p. h; sees = λ w h p b e. p }

  pub Safe-raise {κ} : {A : Type κ} (e : Error) → Safe P (raise {A = A} e)
  Safe-raise e = record { holds = λ w h p. h; sees = λ w h p b x. p }

  pub Safe-decide {κ} : {A : Type κ} (r : Result Violation A) → Safe P (decide r)
  Safe-decide (ok a) = Safe-pure a
  Safe-decide (err v) = Safe-raise (Error.violation v)

  -- A statement that keeps the invariant where it succeeds.
  pub Safe-statement {κ} :
      {A : Type κ} (f : Db → Result Error (A × Db))
      → ((d : Db) (a : A) (d' : Db) → P d → f d ≡ ok (a, d') → P d')
      → Safe P (statement f)
  Safe-statement f k = record {
    holds = λ w h p. Holds-SameEnv P ((Quiet-statement f).at w) h;
    sees = λ w h p a e.
        k w.db a (statement f w).1.db p (statement-eq-ok f w (pair_eta (statement f w) e)).0;
  }

  pub Safe-query {κ} : {A : Type κ} (f : Db → Result Error A) → Safe P (query f)
  Safe-query f = record {
    holds = λ w h p. Holds-SameEnv P ((Quiet-query f).at w) h;
    sees = λ w h p a e. subst P (sym (query-eq-ok f w (pair_eta (query f w) e)).1) p;
  }

  -- An action that ends in the world of a query.
  pub Safe-like_query {κ μ} :
      {A : Type κ} {B : Type μ} (m : Shell B) (f : Db → Result Error A)
      → ((w : World) → (m w).1 ≡ (query f w).1)
      → Safe P m
  Safe-like_query m f same = record {
    holds = λ w h p. subst (Holds P) (sym (same w)) (Holds-SameEnv P ((Quiet-query f).at w) h);
    sees = λ w h p a e. subst P (sym (ap World.db (same w) ∙ query-db f w)) p;
  }

  -- A lookup whose miss is an answer too.
  pub Safe-found_or {κ μ} :
      {A : Type κ} {B : Type μ} (hit : A → B) (miss : ViolationKind → Option B)
      (f : Db → Result Error A)
      → Safe P (λ w. found_or hit miss (query f w))
  Safe-found_or hit miss f =
      Safe-like_query (λ w. found_or hit miss (query f w)) f
        (λ w. found_or-world hit miss (query f w))

  pub Safe-clock : Safe P clock
  unfolding clock
  Safe-clock = record { holds = λ w h p. h; sees = λ w h p a e. p }

  pub Safe-next_id : Safe P next_id
  unfolding next_id
  Safe-next_id = record {
    holds = λ w h p. record { committed = h.committed; rivals = h.rivals };
    sees = λ w h p a e. p;
  }

  -- A unit of work that is opened, run and then closed in some way.
  opened-closed-Holds {κ μ} :
      {A : Type κ} {B : Type μ} (m : Shell A)
      (closing : Result Error A × World → Result Error B × World)
      → Safe P m
      → ((r : Result Error A × World)
          → Holds P r.1
          → ((a : A) → r.0 ≡ ok a → P r.1.db)
          → Holds P (closing r).1)
      → (d : Outcome × World) → Holds P d.1
      → Holds P (continue (opened d) (λ _ w. closing (m w))).1
  opened-closed-Holds m closing s k (done, w) h =
      let u : World = record w { db = w.committed } in
      let g : Holds P u = record { committed = h.committed; rivals = h.rivals } in
      k (m u) (s.holds u g h.committed) (s.sees u g h.committed)
  opened-closed-Holds m closing s k (failed, w) h = h
  opened-closed-Holds m closing s k (lost, w) h = h

  pub begin-closing-Holds {κ μ} :
      {A : Type κ} {B : Type μ} (m : Shell A)
      (closing : Result Error A × World → Result Error B × World)
      → Safe P m
      → ((r : Result Error A × World)
          → Holds P r.1
          → ((a : A) → r.0 ≡ ok a → P r.1.db)
          → Holds P (closing r).1)
      → (w : World) → Holds P w
      → Holds P ((begin >>= λ _ w. closing (m w)) w).1
  unfolding begin
  begin-closing-Holds m closing s k w h =
      opened-closed-Holds m closing s k (draw w) (Holds-SameEnv P (draw_same w).1 h)

  -- What a unit of work finds when it has begun.
  opened-sees : (d : Outcome × World) {u : World} → Holds P d.1 → opened d ≡ (ok tt, u) → P u.db
  opened-sees (done, w) h e =
      subst P (ap World.db (ap (λ (r : Result Error (Unit {0}) × World). r.1) e)) h.committed
  opened-sees (failed, w) h e = cc
  opened-sees (lost, w) h e = cc

  pub begin-sees : (w : World) {u : World} → Holds P w → begin w ≡ (ok tt, u) → P u.db
  unfolding begin
  begin-sees w h e = opened-sees (draw w) (Holds-SameEnv P (draw_same w).1 h) e
