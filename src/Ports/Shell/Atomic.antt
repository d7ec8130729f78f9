-- ===== src/Ports/Shell/Atomic.antt =====
-- All or nothing: what a unit of work (`withUnitOfWork` of internal/app/usecases.go) commits.
use ledgerops.Prelude.{◌≡◌, refl, ap, ◌∙◌, ◌⊎◌, inl, inr, Result, ok, err}
use ledgerops.Ports.Vocabulary.{Error}
use ledgerops.Ports.Shell.{
  Outcome, done, failed, lost, World, Shell, pure, continue, draw, begin, opened, rollback, commit,
  settled_commit, close, with_unit_of_work,
}
use ledgerops.Ports.Shell.Laws.{SameEnv, draw_same, Quiet}

module _ {ℓ} {A : Type ℓ} where
  -- Nothing is committed, and the caller is told of an error.
  pub record Nothing (w : World) (r : Result Error A × World) : Type ℓ where
    pub error : Error
    pub told : r.0 ≡ err error
    pub committed : r.1.committed ≡ w.committed

  -- The action succeeded, and all that it did is committed.
  pub record Everything (m : Shell A) (w : World) (r : Result Error A × World) : Type ℓ where
    pub answer : A
    pub start : World
    pub end : World
    pub begun : begin w ≡ (ok tt, start)
    pub run : m start ≡ (ok answer, end)
    pub committed : r.1.committed ≡ end.db

  -- The world in which a unit of work begins.
  settle :
      (a : A) (u : World) (d : Outcome × World)
      → SameEnv u d.1
      → d.1.db ≡ u.db
      → Nothing u (continue (settled_commit d) (λ _. pure a))
        ⊎ ((continue (settled_commit d) (λ _. pure a)).1.committed ≡ u.db)
  settle a u (done, w) s e = inr e
  settle a u (failed, w) s e =
      inl (record { error = Error.infrastructure; told = refl; committed = s.committed })
  settle a u (lost, w) s e = inr e

  closed :
      (m : Shell A) (w v : World) (r : Result Error A × World)
      → begin w ≡ (ok tt, v)
      → m v ≡ r
      → SameEnv v r.1
      → v.committed ≡ w.committed
      → Nothing w (close r) ⊎ Everything m w (close r)
  unfolding commit rollback
  closed m w v (err e, u) b run s same =
      inl (record { error = e; told = refl; committed = s.committed ∙ same })
  closed m w v (ok a, u) b run s same = elim (settle a u (draw u) (draw_same u).1 (draw_same u).0) [
    | inl n ↦
        inl
          (record { error = n.error; told = n.told; committed = n.committed ∙ s.committed ∙ same })
    | inr c ↦ inr (record { answer = a; start = v; end = u; begun = b; run = run; committed = c })
  ]

  started :
      (m : Shell A)
      → Quiet m
      → (w : World) (d : Outcome × World) → draw w ≡ d
      → SameEnv w d.1
      → Nothing w (continue (opened d) (λ _ v. close (m v)))
        ⊎ Everything m w (continue (opened d) (λ _ v. close (m v)))
  unfolding begin
  started m q w (done, v) e s =
      closed m w (record v { db = v.committed }) (m (record v { db = v.committed })) (ap opened e)
        refl (q.at (record v { db = v.committed })) s.committed
  started m q w (failed, v) e s =
      inl (record { error = Error.infrastructure; told = refl; committed = s.committed })
  started m q w (lost, v) e s =
      inl (record { error = Error.infrastructure; told = refl; committed = s.committed })

  -- Whatever calls of the store fail, a unit of work over an action that itself commits nothing
  -- either leaves what is committed as it was, and tells its caller of an error, or its action
  -- has succeeded from the committed tables, and all that the action did is committed.
  pub with_unit_of_work_atomic :
      (m : Shell A)
      → Quiet m
      → (w : World) → Nothing w (with_unit_of_work m w) ⊎ Everything m w (with_unit_of_work m w)
  unfolding with_unit_of_work begin
  with_unit_of_work_atomic m q w = started m q w (draw w) refl (draw_same w).1
