-- ===== src/App/Transfer/Seen.antt =====
-- What a unit of work of `PostTransfer` (internal/app/usecases.go) sees when it succeeds.
use mathlib.Core.Path.{subst}
use ledgerops.Prelude.{
  ℕ, String, ◌≡◌, refl, sym, ap, ◌∙◌, Bool, true, false, not, List, [], ◌∷◌, ◌==◌, Option, none,
  some, ok, All,
}
use ledgerops.Domain.Money.{negate}
use ledgerops.Domain.Account.{Account}
use ledgerops.Domain.Posting.{Posting}
use ledgerops.Domain.Post.{post}
use ledgerops.Domain.Post.Laws.{post-Accepted, from_leg, to_leg}
use ledgerops.Domain.Post.Rules.{IsRange}
use ledgerops.Ports.Vocabulary.{Error, Claim, idempotency_key_conflict}
use ledgerops.Ports.Shell.{World, raise_if, query, clock, next_id, decide}
use ledgerops.Ports.Shell.Laws.{
  pure-eq-ok, bind-eq-ok, query-eq-ok, decide-eq-ok, Quiet-query, Quiet-clock, Quiet-next_id,
  Quiet-decide,
}
use ledgerops.Ports.Shell.Invariant.{Holds}
use ledgerops.Postgres.Accounts.{lock_for_update, apply_deltas}
use ledgerops.Postgres.Transactions
use ledgerops.Postgres.Transactions.{
  entry_row, append, insert_transaction, insert_entry, insert_entries,
}
use ledgerops.Postgres.Idempotency
use ledgerops.Postgres.Idempotency.{await_rival, claim, insert_claim}
use ledgerops.Books.Sound.{IsSound, same_books}
use ledgerops.App.Transfer.{
  TransferRequest, Answer, command_of, write_movement, decide_movement, record_movement, replay,
  answer_or_record, attempt,
}
use ledgerops.App.Transfer.Steps.{Locked, lock_for_update-LockedAt}
use ledgerops.App.Transfer.Writes.{append-eq-ok, apply_deltas-Moved, await_rival-sees, claim-eq-ok}
use ledgerops.App.Transfer.Sound.{recorded-IsSound}
use ledgerops.App.Transfer.Keeps.{
  lock_for_update-Quiet, append-Quiet, apply_deltas-Quiet, Quiet-env,
}

-- Reading the clock, and drawing an identifier, leave the tables alone.
clock-db : (w : World) {n : ℕ} {w' : World} → clock w ≡ (ok n, w') → w'.db ≡ w.db
unfolding clock
clock-db w h = ap World.db (sym (ap (λ r. r.1) h))

next_id-db : (w : World) {n : String} {w' : World} → next_id w ≡ (ok n, w') → w'.db ≡ w.db
unfolding next_id
next_id-db w h = ap World.db (sym (ap (λ r. r.1) h))

-- The writes of a decided movement leave its unit of work with sound books.
write_movement-sees :
    (cmd : TransferRequest) (snapshots : List Account) (now : ℕ) (tx : String) (posting : Posting)
    (w : World) {ans : Answer} {w' : World}
    → IsRange cmd.amount
    → Holds IsSound w
    → IsSound w.db
    → All (Locked cmd.tenant_id w.db) snapshots
    → post (command_of cmd) snapshots now tx ≡ ok posting
    → write_movement cmd tx posting w ≡ (ok ans, w')
    → IsSound w'.db
unfolding write_movement
write_movement-sees cmd snapshots now tx posting w {ans} {w'} range holds sound locked decided h =
    let t = cmd.tenant_id in
    let (_, w5, s5, h5) = bind-eq-ok (append t posting) _ w h in
    let (_, w6, s6, h6) = bind-eq-ok (apply_deltas t posting.deltas) _ w5 h5 in
    let (c, w7, s7, h7) = bind-eq-ok (claim cmd.idempotency_key cmd.fingerprint tx) _ w6 h6 in
    let (a, b, a', b', acc) = post-Accepted (command_of cmd) snapshots now tx decided in
    let put =
      append-eq-ok t posting (from_leg (command_of cmd) now tx) (to_leg (command_of cmd) now tx) w
        acc.legs s5 in
    let moved =
      apply_deltas-Moved t posting.deltas
        (record { account_id = cmd.from; delta = negate cmd.amount })
        (record { account_id = cmd.to; delta = cmd.amount }) w5 acc.deltas s6 in
    let done : IsSound w6.db =
      recorded-IsSound t (command_of cmd) w.db snapshots now tx posting range sound locked decided
        w5.db w6.db (entry_row t posting.transaction.id (from_leg (command_of cmd) now tx))
        (entry_row t posting.transaction.id (to_leg (command_of cmd) now tx))
        (record { tenant = refl; account = refl; amount = refl })
        (record { tenant = refl; account = refl; amount = refl }) put.0 put.1 put.2 moved in
    let holds6 =
      Quiet-env (apply_deltas t posting.deltas) w5 (apply_deltas-Quiet t posting.deltas)
        (Quiet-env (append t posting) w (append-Quiet t posting) holds s5) s6 in
    let kept = claim-eq-ok cmd.idempotency_key cmd.fingerprint tx w6 s7 in
    subst IsSound (ap World.db (pure-eq-ok h7).1) (
      same_books (await_rival w6).1.db w7.db kept.0 kept.1 kept.2
        (await_rival-sees IsSound w6 holds6 done))

decide_movement-sees :
    (cmd : TransferRequest) (snapshots : List Account) (w : World) {ans : Answer} {w' : World}
    → IsRange cmd.amount
    → Holds IsSound w
    → IsSound w.db
    → All (Locked cmd.tenant_id w.db) snapshots
    → decide_movement cmd snapshots w ≡ (ok ans, w')
    → IsSound w'.db
unfolding decide_movement
decide_movement-sees cmd snapshots w {ans} {w'} range holds sound locked h =
    let (now, w2, s2, h2) = bind-eq-ok clock _ w h in
    let (tx, w3, s3, h3) = bind-eq-ok next_id _ w2 h2 in
    let (posting, w4, s4, h4) =
      bind-eq-ok (decide (post (command_of cmd) snapshots now tx)) _ w3 h3 in
    let (decided, d4) = decide-eq-ok (post (command_of cmd) snapshots now tx) w3 s4 in
    let start : w4.db ≡ w.db = d4 ∙ next_id-db w2 s3 ∙ clock-db w s2 in
    let holds4 =
      Quiet-env (decide (post (command_of cmd) snapshots now tx)) w3
        (Quiet-decide (post (command_of cmd) snapshots now tx))
        (Quiet-env next_id w2 Quiet-next_id (Quiet-env clock w Quiet-clock holds s2) s3) s4 in
    write_movement-sees cmd snapshots now tx posting w4 range holds4
      (subst IsSound (sym start) sound)
      (subst (λ d. All (Locked cmd.tenant_id d) snapshots) (sym start) locked) decided h4

record_movement-sees :
    (cmd : TransferRequest) (w : World) {ans : Answer} {w' : World}
    → IsRange cmd.amount
    → Holds IsSound w
    → IsSound w.db
    → record_movement cmd w ≡ (ok ans, w')
    → IsSound w'.db
unfolding record_movement
record_movement-sees cmd w range holds sound h =
    let ids = cmd.from ∷ cmd.to ∷ [] in
    let (snapshots, w1, s1, h1) = bind-eq-ok (lock_for_update cmd.tenant_id ids) _ w h in
    let lock = lock_for_update-LockedAt cmd.tenant_id ids w s1 in
    decide_movement-sees cmd snapshots w1 range
      (Quiet-env (lock_for_update cmd.tenant_id ids) w (lock_for_update-Quiet cmd.tenant_id ids)
        holds s1)
      (subst IsSound (sym lock.unchanged) sound)
      (subst (λ d. All (Locked cmd.tenant_id d) snapshots) (sym lock.unchanged) lock.locked) h1

raise_if-db :
    (b : Bool) (e : Error) (w : World) {w' : World} → raise_if b e w ≡ (ok tt, w') → w'.db ≡ w.db
raise_if-db true e w h = cc
raise_if-db false e w h = ap World.db (sym (pure-eq-ok h).1)

replay-sees :
    (cmd : TransferRequest) (c : Claim) (w : World) {ans : Answer} {w' : World}
    → replay cmd c w ≡ (ok ans, w')
    → w'.db ≡ w.db
unfolding replay
replay-sees cmd c w h =
    let (_, w1, s1, h1) =
      bind-eq-ok (raise_if (not (c.fingerprint == cmd.fingerprint)) idempotency_key_conflict) _ w
        h in
    let (p, w2, s2, h2) =
      bind-eq-ok (query (Transactions.get cmd.tenant_id c.transaction_id)) _ w1 h1 in
    ap World.db (sym (pure-eq-ok h2).1)
    ∙ (query-eq-ok (Transactions.get cmd.tenant_id c.transaction_id) w1 s2).1
    ∙ raise_if-db (not (c.fingerprint == cmd.fingerprint)) idempotency_key_conflict w s1

answer_or_record-sees :
    (cmd : TransferRequest) (found : Option Claim) (w : World) {ans : Answer} {w' : World}
    → IsRange cmd.amount
    → Holds IsSound w
    → IsSound w.db
    → answer_or_record cmd found w ≡ (ok ans, w')
    → IsSound w'.db
answer_or_record-sees cmd (some c) w range holds sound h =
    subst IsSound (sym (replay-sees cmd c w h)) sound
answer_or_record-sees cmd none w range holds sound h =
    record_movement-sees cmd w range holds sound h

pub attempt-sees :
    (cmd : TransferRequest) (w : World) {ans : Answer} {w' : World}
    → IsRange cmd.amount
    → Holds IsSound w
    → IsSound w.db
    → attempt cmd w ≡ (ok ans, w')
    → IsSound w'.db
unfolding attempt
attempt-sees cmd w range holds sound h =
    let (found, w1, s1, h1) = bind-eq-ok (query (Idempotency.lookup cmd.idempotency_key)) _ w h in
    let (_, d, _) = query-eq-ok (Idempotency.lookup cmd.idempotency_key) w s1 in
    answer_or_record-sees cmd found w1 range
      (Quiet-env (query (Idempotency.lookup cmd.idempotency_key)) w
        (Quiet-query (Idempotency.lookup cmd.idempotency_key)) holds s1)
      (subst IsSound (sym d) sound) h1
