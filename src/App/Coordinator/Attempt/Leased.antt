-- ===== src/App/Coordinator/Attempt/Leased.antt =====
-- An attempt of a transfer that another caller has claimed (`attemptLeg` and `claimTransfer` of
-- internal/app/transfer_coordinator.go).
use ledgerops.Prelude.{
  ℕ, ◌<◌, String, ◌≡◌, refl, ap, ◌∙◌, Bool, false, none, some, [], ok, arith, Bool-cases, inl, inr,
}
use ledgerops.Ports.Vocabulary.{TransferState}
use ledgerops.Ports.Shell.{World, continue, clock, ◌>>=◌, rollback}
use ledgerops.Ports.Shell.Laws.{begin-calm, query-calm}
use ledgerops.Postgres.TransferStates
use ledgerops.Postgres.TransferStates.{is_due, is_due_status, claim_if_due, claim_one}
use ledgerops.App.Coordinator.Movements.{claim_lease_duration}
use ledgerops.App.Coordinator.Process.{Process, back_in, and_then}
use ledgerops.App.Coordinator.Attempt.{settle_claim, claim_transfer, attempt_claimed, attempt_leg}

leased-not_due : (s : TransferState) (now : ℕ) → now < s.next_attempt_at → is_due now s ≡ false
unfolding is_due
leased-not_due s now h = elim (Bool-cases (is_due_status s.status)) [
  | inl k ↦ ground arith
  | inr k ↦ ground arith
]

module _ (transfer_id : String) {s : TransferState} where
  claim_one-leased :
      (w : World)
      → w.outages ≡ []
      → TransferStates.get transfer_id w.db ≡ ok (some s)
      → w.now < s.next_attempt_at
      → claim_one transfer_id claim_lease_duration w ≡ (ok none, w)
  unfolding claim_one clock
  claim_one-leased w calm found held =
      ap
        (λ r.
          continue r (λ o. clock >>= λ now. claim_if_due transfer_id claim_lease_duration now o))
        (query-calm (TransferStates.get transfer_id) w calm found)
      ∙ rw (leased-not_due s w.now held) refl

  claim_transfer-leased :
      (w : World)
      → w.outages ≡ []
      → TransferStates.get transfer_id w.committed ≡ ok (some s)
      → w.now < s.next_attempt_at
      → claim_transfer transfer_id w ≡ (ok none, record w { db = w.committed })
  unfolding claim_transfer rollback
  claim_transfer-leased w calm found held =
      ap (λ r. continue r (λ _ v. settle_claim (claim_one transfer_id claim_lease_duration v)))
        (begin-calm w calm)
      ∙ ap settle_claim (claim_one-leased (record w { db = w.committed }) calm found held)

  -- While the lease of a transfer runs, and no call fails, an attempt of any leg of it, by the
  -- ticker or by a goroutine, succeeds without changing anything that is committed or anything
  -- that the coordinator counts or schedules.
  pub attempt_leg_leased :
      (leg : ℕ) (is_inline_path : Bool) (p : Process)
      → p.world.outages ≡ []
      → TransferStates.get transfer_id p.world.committed ≡ ok (some s)
      → p.world.now < s.next_attempt_at
      → attempt_leg transfer_id leg is_inline_path p
        ≡ (ok tt, record p { world = record p.world { db = p.world.committed } })
  unfolding attempt_leg
  attempt_leg_leased leg is_inline_path p calm found held =
      ap (λ r. and_then (back_in p r) (attempt_claimed transfer_id leg is_inline_path))
        (claim_transfer-leased p.world calm found held)
