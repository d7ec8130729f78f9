-- ===== src/App/Transfer/Writes.antt =====
-- What the writes of `PostTransfer`'s unit of work (internal/app/usecases.go) have done to the
-- tables when they succeed.
use mathlib.Core.Path.{subst}
use ledgerops.Prelude.{String, ◌≡◌, sym, ap, ◌∙◌, List, [], ◌∷◌, ◌++◌, arith, Result, ok}
use ledgerops.Domain.Posting.{Transaction, Posting, Entry, BalanceDelta}
use ledgerops.Ports.Vocabulary.{Error, Claim}
use ledgerops.Ports.Shell.{World, statement}
use ledgerops.Ports.Shell.Laws.{pure-eq-ok, bind-eq-ok, statement-eq-ok}
use ledgerops.Ports.Shell.Invariant.{RivalsKeep, Holds}
use ledgerops.Postgres.Tables.{Db}
use ledgerops.Postgres.Accounts.{apply_delta, apply_deltas}
use ledgerops.Postgres.Transactions.{
  insert_transaction, entry_row, insert_entry, insert_entries, append,
}
use ledgerops.Postgres.Idempotency.{insert_claim, awaited, await_rival, claim}
use ledgerops.Books.Movement.{Updated, apply_delta-Updated}

insert_transaction-eq-ok :
    (t : String) (x : Transaction) (d : Db) {d' : Db}
    → insert_transaction t x d ≡ ok (tt, d')
    → (d'.accounts ≡ d.accounts)
      × (d'.entries ≡ d.entries)
      × (d'.transfer_states ≡ d.transfer_states)
unfolding insert_transaction
insert_transaction-eq-ok t x d h = ground arith

insert_entry-eq-ok :
    (t tx : String) (e : Entry) (d : Db) {d' : Db}
    → insert_entry t tx e d ≡ ok (tt, d')
    → (d'.accounts ≡ d.accounts)
      × (d'.entries ≡ d.entries ++ entry_row t tx e ∷ [])
      × (d'.transfer_states ≡ d.transfer_states)
unfolding insert_entry
insert_entry-eq-ok t tx e d h = ground arith

-- `Append` of a posting with two entries.
pub append-eq-ok :
    (t : String) (p : Posting) (e1 e2 : Entry) (w : World) {w' : World}
    → p.entries ≡ e1 ∷ e2 ∷ []
    → append t p w ≡ (ok tt, w')
    → (w'.db.accounts ≡ w.db.accounts)
      × (w'.db.entries
          ≡ (w.db.entries ++ entry_row t p.transaction.id e1 ∷ [])
            ++ entry_row t p.transaction.id e2 ∷ [])
      × (w'.db.transfer_states ≡ w.db.transfer_states)
unfolding append insert_entries
append-eq-ok t p e1 e2 w {w'} legs h =
    let tx = p.transaction.id in
    let (_, w1, s1, h1) = bind-eq-ok (statement (insert_transaction t p.transaction)) _ w h in
    let (_, w2, s2, h2) =
      bind-eq-ok (statement (insert_entry t tx e1)) _ w1
        (subst (λ es. insert_entries t tx es w1 ≡ (ok tt, w')) legs h1) in
    let (_, w3, s3, h3) = bind-eq-ok (statement (insert_entry t tx e2)) _ w2 h2 in
    let x1 =
      insert_transaction-eq-ok t p.transaction w.db
        (statement-eq-ok (insert_transaction t p.transaction) w s1).0 in
    let x2 = insert_entry-eq-ok t tx e1 w1.db (statement-eq-ok (insert_entry t tx e1) w1 s2).0 in
    let x3 = insert_entry-eq-ok t tx e2 w2.db (statement-eq-ok (insert_entry t tx e2) w2 s3).0 in
    let last = ap World.db (pure-eq-ok h3).1 in
    (
      ap Db.accounts (sym last) ∙ x3.0 ∙ x2.0 ∙ x1.0,
      ap Db.entries (sym last)
          ∙ x3.1
          ∙ ap (λ es. es ++ entry_row t tx e2 ∷ [])
              (x2.1 ∙ ap (λ es. es ++ entry_row t tx e1 ∷ []) x1.1),
      ap Db.transfer_states (sym last) ∙ x3.2 ∙ x2.2 ∙ x1.2,
    )

-- `ApplyDeltas` of two deltas.
pub record Moved (t : String) (d1 d2 : BalanceDelta) (d d' : Db) : Type 0 where
  pub between : Db
  pub first : Updated t d1 d between
  pub second : Updated t d2 between d'

pub apply_deltas-Moved :
    (t : String) (ds : List BalanceDelta) (d1 d2 : BalanceDelta) (w : World) {w' : World}
    → ds ≡ d1 ∷ d2 ∷ []
    → apply_deltas t ds w ≡ (ok tt, w')
    → Moved t d1 d2 w.db w'.db
unfolding apply_deltas
apply_deltas-Moved t ds d1 d2 w {w'} eq h =
    let (_, w1, s1, h1) =
      bind-eq-ok (statement (apply_delta t d1)) _ w
        (subst (λ xs. apply_deltas t xs w ≡ (ok tt, w')) eq h) in
    let (_, w2, s2, h2) = bind-eq-ok (statement (apply_delta t d2)) _ w1 h1 in
    record {
      between = w1.db;
      first = apply_delta-Updated t d1 w.db (statement-eq-ok (apply_delta t d1) w s1).0;
      second =
          subst (Updated t d2 w1.db) (ap World.db (pure-eq-ok h2).1)
            (apply_delta-Updated t d2 w1.db (statement-eq-ok (apply_delta t d2) w1 s2).0);
    }

insert_claim-eq-ok :
    (c : Claim) (d : Db) {d' : Db}
    → insert_claim c d ≡ ok (tt, d')
    → (d'.accounts ≡ d.accounts)
      × (d'.entries ≡ d.entries)
      × (d'.transfer_states ≡ d.transfer_states)
unfolding insert_claim
insert_claim-eq-ok c d h = ground arith

-- What rivals keep is kept while a claim waits.
module _ {ℓ} (P : Db → Type ℓ) where
  awaited-Holds :
      (rivals : List (Db → Db)) (w : World)
      → RivalsKeep P rivals
      → P w.committed
      → RivalsKeep P w.rivals
      → Holds P (awaited rivals w).1
  awaited-Holds [] w k p h = record { committed = p; rivals = h }
  awaited-Holds (r ∷ rs) w k p h = record { committed = k.0 w.committed p; rivals = k.1 }

  pub await_rival-Holds : (w : World) → Holds P w → Holds P (await_rival w).1
  unfolding await_rival
  await_rival-Holds w h = awaited-Holds w.rivals w h.rivals h.committed h.rivals

  awaited-sees :
      (rivals : List (Db → Db)) (w : World)
      → RivalsKeep P rivals
      → P w.db
      → P (awaited rivals w).1.db
  awaited-sees [] w k p = p
  awaited-sees (r ∷ rs) w k p = k.0 w.db p

  pub await_rival-sees : (w : World) → Holds P w → P w.db → P (await_rival w).1.db
  unfolding await_rival
  await_rival-sees w h p = awaited-sees w.rivals w h.rivals p

-- `Claim` leaves the books alone, but for what a rival does while it waits.
pub claim-eq-ok :
    (key fingerprint tx : String) (w : World) {c : Claim} {w' : World}
    → claim key fingerprint tx w ≡ (ok c, w')
    → (w'.db.accounts ≡ (await_rival w).1.db.accounts)
      × (w'.db.entries ≡ (await_rival w).1.db.entries)
      × (w'.db.transfer_states ≡ (await_rival w).1.db.transfer_states)
unfolding claim
claim-eq-ok key fingerprint tx w {c} {w'} h =
    let (_, w1, s1, h1) = bind-eq-ok await_rival _ w h in
    let row : Claim = record { key = key; fingerprint = fingerprint; transaction_id = tx } in
    let (_, w2, s2, h2) = bind-eq-ok (statement (insert_claim row)) _ w1 h1 in
    let x = insert_claim-eq-ok row w1.db (statement-eq-ok (insert_claim row) w1 s2).0 in
    let start = ap (λ (r : Result Error (Unit {0}) × World). r.1.db) s1 in
    let last = ap World.db (pure-eq-ok h2).1 in
    (
      ap Db.accounts (sym last) ∙ x.0 ∙ ap Db.accounts (sym start),
      ap Db.entries (sym last) ∙ x.1 ∙ ap Db.entries (sym start),
      ap Db.transfer_states (sym last) ∙ x.2 ∙ ap Db.transfer_states (sym start),
    )
