-- ===== src/App/Transfer/Keeps.antt =====
-- What the actions of `PostTransfer` (internal/app/usecases.go) leave committed.
use mathlib.Core.Path.{subst}
use ledgerops.Prelude.{String, ◌≡◌, not, List, [], ◌∷◌, ◌==◌, Option, none, some, Result, ok, err}
use ledgerops.Domain.Account.{Account}
use ledgerops.Domain.Posting.{Posting}
use ledgerops.Domain.Post.{post}
use ledgerops.Ports.Vocabulary.{Error, Claim, idempotency_key_conflict}
use ledgerops.Ports.Shell.{
  World, Shell, pure, raise_if, continue, ◌>>=◌, ◌>>◌, statement, query, clock, next_id, decide,
}
use ledgerops.Ports.Shell.Laws.{
  Quiet, Quiet-bind, Quiet-query, Quiet-clock, Quiet-next_id, Quiet-decide, quiet_rules,
}
use ledgerops.Ports.Shell.Invariant.{Holds, Holds-SameEnv}
use ledgerops.Postgres.Accounts.{
  lock_one, lock_each, lock_for_update, deduped_sorted, apply_delta, apply_deltas,
}
use ledgerops.Postgres.Transactions
use ledgerops.Postgres.Transactions.{
  entry_row, append, insert_transaction, insert_entry, insert_entries,
}
use ledgerops.Postgres.Idempotency
use ledgerops.Postgres.Idempotency.{await_rival, claim, insert_claim}
use ledgerops.Books.Sound.{IsSound}
use ledgerops.App.Transfer.{
  TransferRequest, command_of, write_movement, decide_movement, record_movement, replay,
  answer_or_record, attempt,
}
use ledgerops.App.Transfer.Writes.{await_rival-Holds}

-- Actions that keep what is committed sound.
abbrev pub Keeps {ℓ} : {A : Type ℓ} → Shell A → Type 0
Keeps m = (w : World) → Holds IsSound w → Holds IsSound (m w).1

pub Keeps-Quiet {ℓ} : {A : Type ℓ} (m : Shell A) → Quiet m → Keeps m
Keeps-Quiet m q w h = Holds-SameEnv IsSound (q.at w) h

continue-Keeps {ℓ κ} :
    {A : Type ℓ} {B : Type κ} (r : Result Error A × World) (f : A → Shell B)
    → ((a : A) → Keeps (f a))
    → Holds IsSound r.1
    → Holds IsSound (continue r f).1
continue-Keeps (ok a, w) f k h = k a w h
continue-Keeps (err e, w) f k h = h

pub Keeps-bind {ℓ κ} :
    {A : Type ℓ} {B : Type κ} (m : Shell A) (f : A → Shell B)
    → Keeps m
    → ((a : A) → Keeps (f a))
    → Keeps (m >>= f)
Keeps-bind m f k l w h = continue-Keeps (m w) f l (k w h)

lock_each-Quiet : (t : String) (ids : List String) → Quiet (lock_each t ids)
unfolding lock_each
lock_each-Quiet t [] = search quiet_rules
lock_each-Quiet t (id ∷ ids) = Quiet-bind (query (lock_one t id)) _ (search quiet_rules) (λ found.
    Quiet-bind (lock_each t ids) _ (lock_each-Quiet t ids) (λ accounts. search quiet_rules))

pub lock_for_update-Quiet : (t : String) (ids : List String) → Quiet (lock_for_update t ids)
unfolding lock_for_update
lock_for_update-Quiet t ids = lock_each-Quiet t (deduped_sorted ids)

insert_entries-Quiet : (t tx : String) (es : List _) → Quiet (insert_entries t tx es)
unfolding insert_entries
insert_entries-Quiet t tx [] = search quiet_rules
insert_entries-Quiet t tx (e ∷ es) =
    Quiet-bind (statement (insert_entry t tx e)) _ (search quiet_rules)
      (λ _. insert_entries-Quiet t tx es)

pub append-Quiet : (t : String) (p : Posting) → Quiet (append t p)
unfolding append
append-Quiet t p =
    Quiet-bind (statement (insert_transaction t p.transaction)) _ (search quiet_rules)
      (λ _. insert_entries-Quiet t p.transaction.id p.entries)

pub apply_deltas-Quiet : (t : String) (ds : List _) → Quiet (apply_deltas t ds)
unfolding apply_deltas
apply_deltas-Quiet t [] = search quiet_rules
apply_deltas-Quiet t (d ∷ ds) =
    Quiet-bind (statement (apply_delta t d)) _ (search quiet_rules) (λ _. apply_deltas-Quiet t ds)

claim-Keeps : (key fingerprint tx : String) → Keeps (claim key fingerprint tx)
unfolding claim
claim-Keeps key fingerprint tx =
    let c : Claim = record { key = key; fingerprint = fingerprint; transaction_id = tx } in
    Keeps-bind await_rival _ (await_rival-Holds IsSound) (λ _.
      Keeps-Quiet (statement (insert_claim c) >> pure c)
        (Quiet-bind (statement (insert_claim c)) _ (search quiet_rules) (λ _. search quiet_rules)))

write_movement-Keeps :
    (cmd : TransferRequest) (tx : String) (posting : Posting)
    → Keeps (write_movement cmd tx posting)
unfolding write_movement
write_movement-Keeps cmd tx posting =
    Keeps-bind (append cmd.tenant_id posting) _ (Keeps-Quiet _ (append-Quiet cmd.tenant_id posting))
      (λ _.
        Keeps-bind (apply_deltas cmd.tenant_id posting.deltas) _
          (Keeps-Quiet _ (apply_deltas-Quiet cmd.tenant_id posting.deltas))
          (λ _.
            Keeps-bind (claim cmd.idempotency_key cmd.fingerprint tx) _
              (claim-Keeps cmd.idempotency_key cmd.fingerprint tx) (λ _. λ w h. h)))

decide_movement-Keeps :
    (cmd : TransferRequest) (snapshots : List Account) → Keeps (decide_movement cmd snapshots)
unfolding decide_movement
decide_movement-Keeps cmd snapshots = Keeps-bind clock _ (Keeps-Quiet clock Quiet-clock) (λ now.
    Keeps-bind next_id _ (Keeps-Quiet next_id Quiet-next_id) (λ tx.
      Keeps-bind (decide (post (command_of cmd) snapshots now tx)) _
        (Keeps-Quiet _ (Quiet-decide (post (command_of cmd) snapshots now tx)))
        (λ posting. write_movement-Keeps cmd tx posting)))

record_movement-Keeps : (cmd : TransferRequest) → Keeps (record_movement cmd)
unfolding record_movement
record_movement-Keeps cmd =
    Keeps-bind (lock_for_update cmd.tenant_id (cmd.from ∷ cmd.to ∷ [])) _
      (Keeps-Quiet _ (lock_for_update-Quiet cmd.tenant_id (cmd.from ∷ cmd.to ∷ [])))
      (λ snapshots. decide_movement-Keeps cmd snapshots)

pub replay-Quiet : (cmd : TransferRequest) (c : Claim) → Quiet (replay cmd c)
unfolding replay
replay-Quiet cmd c =
    Quiet-bind (raise_if (not (c.fingerprint == cmd.fingerprint)) idempotency_key_conflict) _
      (search quiet_rules)
      (λ _.
        Quiet-bind (query (Transactions.get cmd.tenant_id c.transaction_id)) _ (search quiet_rules)
          (λ posting. search quiet_rules))

answer_or_record-Keeps :
    (cmd : TransferRequest) (found : Option Claim) → Keeps (answer_or_record cmd found)
answer_or_record-Keeps cmd (some c) = Keeps-Quiet (replay cmd c) (replay-Quiet cmd c)
answer_or_record-Keeps cmd none = record_movement-Keeps cmd

pub attempt-Keeps : (cmd : TransferRequest) → Keeps (attempt cmd)
unfolding attempt
attempt-Keeps cmd =
    Keeps-bind (query (Idempotency.lookup cmd.idempotency_key)) _
      (Keeps-Quiet _ (Quiet-query (Idempotency.lookup cmd.idempotency_key)))
      (answer_or_record-Keeps cmd)

pub Quiet-env {ℓ} :
    {A : Type ℓ} (m : Shell A) (w : World) {a : A} {w' : World}
    → Quiet m
    → Holds IsSound w
    → m w ≡ (ok a, w')
    → Holds IsSound w'
Quiet-env {A} m w {a} {w'} q h e =
    subst (λ (r : Result Error A × World). Holds IsSound r.1) e (Keeps-Quiet m q w h)
