-- ===== src/Ports/Shell/Invariant.antt =====
-- Invariants of the committed tables through units of work, whatever fails and whatever other
-- sessions commit meanwhile.
use mathlib.Core.Path.{subst}
use ledgerops.Prelude.{◌≡◌, refl, sym, List, All, Result, ok, err}
use ledgerops.Ports.Vocabulary.{Error}
use ledgerops.Postgres.Tables.{Db}
use ledgerops.Ports.Shell.{
  Outcome, done, failed, lost, World, Shell, pure, continue, draw, begin, opened, rollback, commit,
  settled_commit, close, with_unit_of_work,
}
use ledgerops.Ports.Shell.Laws.{SameEnv, draw_same}

module _ {ℓ} (P : Db → Type ℓ) where
  -- Every change that rivals will commit keeps `P`.
  abbrev pub RivalsKeep : List (Db → Db) → Type ℓ
  RivalsKeep rivals = All (λ f. (d : Db) → P d → P (f d)) rivals

  -- What is committed satisfies `P`, and rivals keep it.
  pub record Holds (w : World) : Type ℓ where
    pub committed : P w.committed
    pub rivals : RivalsKeep w.rivals

  pub Holds-SameEnv : {w w' : World} → SameEnv w w' → Holds w → Holds w'
  Holds-SameEnv s h = record {
    committed = subst P (sym s.committed) h.committed;
    rivals = subst RivalsKeep (sym s.rivals) h.rivals;
  }

  -- An action that starts from tables with `P` keeps `P` for everybody else, and ends in tables with
  -- `P` if it succeeds.
  pub record Safe {κ} {A : Type κ} (m : Shell A) : Type (ℓ ⊔ κ) where
    pub holds : (w : World) → Holds w → P w.db → Holds (m w).1
    pub sees : (w : World) → Holds w → P w.db → (a : A) → (m w).0 ≡ ok a → P (m w).1.db

  settled_commit-Holds : (d : Outcome × World) → Holds d.1 → P d.1.db → Holds (settled_commit d).1
  settled_commit-Holds (done, w) h p = record { committed = p; rivals = h.rivals }
  settled_commit-Holds (failed, w) h p = record { committed = h.committed; rivals = h.rivals }
  settled_commit-Holds (lost, w) h p = record { committed = p; rivals = h.rivals }

  commit-Holds : (w : World) → Holds w → P w.db → Holds (commit w).1
  unfolding commit
  commit-Holds w h p =
      settled_commit-Holds (draw w) (Holds-SameEnv (draw_same w).1 h)
        (subst P (sym (draw_same w).0) p)

  continue-pure-Holds {κ} :
      {A : Type κ} (r : Result Error (Unit {0}) × World) (a : A)
      → Holds r.1
      → Holds (continue r (λ _. pure a)).1
  continue-pure-Holds (ok _, w) a h = h
  continue-pure-Holds (err e, w) a h = h

  pub close-Holds {κ} :
      {A : Type κ} (r : Result Error A × World)
      → Holds r.1
      → ((a : A) → r.0 ≡ ok a → P r.1.db)
      → Holds (close r).1
  unfolding rollback
  close-Holds (ok a, w) h p = continue-pure-Holds (commit w) a (commit-Holds w h (p a refl))
  close-Holds (err e, w) h p = record { committed = h.committed; rivals = h.rivals }

  opened-Holds {κ} :
      {A : Type κ} (m : Shell A)
      → Safe m
      → (d : Outcome × World) → Holds d.1
      → Holds (continue (opened d) (λ _ w. close (m w))).1
  opened-Holds m s (done, w) h =
      let u : World = record w { db = w.committed } in
      let k : Holds u = record { committed = h.committed; rivals = h.rivals } in
      close-Holds (m u) (s.holds u k h.committed) (s.sees u k h.committed)
  opened-Holds m s (failed, w) h = h
  opened-Holds m s (lost, w) h = h

  -- A unit of work over a safe action keeps `P` committed.
  pub with_unit_of_work-Holds {κ} :
      {A : Type κ} (m : Shell A) → Safe m → (w : World) → Holds w → Holds (with_unit_of_work m w).1
  unfolding with_unit_of_work begin
  with_unit_of_work-Holds m s w h = opened-Holds m s (draw w) (Holds-SameEnv (draw_same w).1 h)
