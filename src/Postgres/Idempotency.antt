-- ===== src/Postgres/Idempotency.antt =====
-- internal/adapters/postgres/idempotency.go (migration 0002): one claim for each key.
use ledgerops.Prelude.{
  String, not, Option, List, [], ◌∷◌, ◌++◌, ◌==◌, find, any, if◌then◌else◌, Result, ok, err,
}
use ledgerops.Ports.Vocabulary.{Error, infrastructure, idempotency_key_claim_conflict, Claim}
use ledgerops.Ports.Shell.{World, Shell, ◌>>◌, pure, statement}
use ledgerops.Postgres.Tables.{Db}

-- `Lookup`
unfoldable pub lookup : String → Db → Result Error (Option Claim)
lookup key db = ok (find (λ (c : Claim). c.key == key) db.idempotency_keys)

-- The INSERT … ON CONFLICT (key) DO NOTHING, and the test on the rows that it wrote.
unfoldable pub insert_claim : Claim → Db → Result Error (Unit {0} × Db)
insert_claim c db =
    if any (λ r. r.key == c.key) db.idempotency_keys
    then err idempotency_key_claim_conflict
    else if not (any (λ r. r.id == c.transaction_id) db.transactions)
    then err infrastructure
    else ok (tt, record db { idempotency_keys = db.idempotency_keys ++ c ∷ [] })

-- What another session has committed by the time that the INSERT need wait no more.
abbrev pub awaited : List (Db → Db) → World → Result Error (Unit {0}) × World
awaited [] w = (ok tt, w)
awaited (rival ∷ rivals) w =
    (ok tt, record w { committed = rival w.committed; db = rival w.db; rivals = rivals })

unfoldable pub await_rival : Shell (Unit {0})
await_rival w = awaited w.rivals w

-- `Claim`
unfoldable pub claim : String → String → String → Shell Claim
unfolding await_rival insert_claim
claim key fingerprint transaction_id = do
  let c : Claim = record { key = key; fingerprint = fingerprint; transaction_id = transaction_id }
  await_rival
  statement (insert_claim c)
  pure c
