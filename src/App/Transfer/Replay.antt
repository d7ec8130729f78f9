-- ===== src/App/Transfer/Replay.antt =====
-- A key that is claimed already (`PostTransfer` of internal/app/usecases.go).
use ledgerops.Prelude.{
  ℕ, suc, ◌≡◌, ◌≢◌, refl, ap, ◌∙◌, [], some, ◌==◌, eq_iff, arith, find, Result, ok, err, Bool-cases,
  inl, inr, if◌then◌else◌,
}
use ledgerops.Ports.Vocabulary.{Error, Claim, idempotency_key_conflict}
use ledgerops.Ports.Shell.{World, continue, rollback, close, with_unit_of_work}
use ledgerops.Ports.Shell.Laws.{begin-calm, query-calm}
use ledgerops.Postgres.Idempotency
use ledgerops.App.Transfer.{
  TransferRequest, Answer, replay, answer_or_record, attempt, lost_race, post_transfer,
}

replay-conflict :
    (cmd : TransferRequest) (c : Claim) (w : World)
    → c.fingerprint ≢ cmd.fingerprint
    → replay cmd c w ≡ (err idempotency_key_conflict, w)
unfolding replay
replay-conflict cmd c w h = elim (Bool-cases (c.fingerprint == cmd.fingerprint)) [
  | inl k ↦ absurd (ground (arith, eq_iff c.fingerprint cmd.fingerprint))
  | inr k ↦ rw k refl
]

module _ (cmd : TransferRequest) (w : World) {c : Claim} (calm : w.outages ≡ [])
    (claimed : find (λ (x : Claim). x.key == cmd.idempotency_key) w.committed.idempotency_keys
      ≡ some c) where
  attempt-claimed :
      attempt cmd (record w { db = w.committed }) ≡ replay cmd c (record w { db = w.committed })
  unfolding attempt Idempotency.lookup
  attempt-claimed =
      ap (λ r. continue r (answer_or_record cmd))
        (query-calm (Idempotency.lookup cmd.idempotency_key) (record w { db = w.committed }) calm
          (ap ok claimed))

  -- Where the committed tables hold a claim of the key with another fingerprint, and no call
  -- fails, `PostTransfer` answers with a conflict, with whatever fuel of at least one round,
  -- and changes nothing that is committed.
  pub post_transfer_conflict :
      (fuel : ℕ)
      → c.fingerprint ≢ cmd.fingerprint
      → post_transfer (suc fuel) cmd w
        ≡ (err idempotency_key_conflict, record w { db = w.committed })
  unfolding post_transfer with_unit_of_work rollback
  post_transfer_conflict fuel other =
      let run : with_unit_of_work (attempt cmd) w
          ≡ (err idempotency_key_conflict, record w { db = w.committed }) =
        ap (λ r. continue r (λ _ v. close (attempt cmd v))) (begin-calm w calm)
        ∙ ap close
            (attempt-claimed ∙ replay-conflict cmd c (record w { db = w.committed }) other) in
      ap
        (λ (x : Result Error Answer × World).
          if lost_race x.0 then post_transfer fuel cmd x.1 else x)
        run
