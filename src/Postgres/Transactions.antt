-- ===== src/Postgres/Transactions.antt =====
-- internal/adapters/postgres/transactions.go, with the keys of the transactions and entries tables
-- (migrations 0001 and 0003).
use ledgerops.Prelude.{
  String, Bool, not, ◌&&◌, ◌||◌, none, some, List, [], ◌∷◌, ◌++◌, ◌==◌, eqb, ltb, find, any, select,
  if◌then◌else◌, Result, ok, err,
}
use ledgerops.Domain.Money.{new_money}
use ledgerops.Domain.Posting.{Transaction, Entry, Posting}
use ledgerops.Ports.Vocabulary.{Error, violation, infrastructure, TenantScope, TenantEntry}
use ledgerops.Ports.Shell.{Shell, pure, ◌>>◌, statement}
use ledgerops.Postgres.Tables.{Db, TransactionRow, EntryRow, stored_at}
use ledgerops.Postgres.Accounts.{has_key, in_scope}

-- The first INSERT of `Append`.
unfoldable pub insert_transaction : String → Transaction → Db → Result Error (Unit {0} × Db)
insert_transaction tenant_id t db =
    if any (λ r. r.id == t.id) db.transactions
      || not (any (λ r. r.tenant_id == tenant_id) db.tenants)
    then err infrastructure
    else ok (
      tt,
      record db {
        transactions =
            db.transactions
            ++ record { tenant_id = tenant_id; id = t.id; recorded_at = stored_at t.recorded_at }
              ∷ [];
      },
    )

abbrev pub entry_row : String → String → Entry → EntryRow
entry_row tenant_id transaction_id e = record {
  tenant_id = tenant_id;
  transaction_id = transaction_id;
  account_id = e.account_id;
  counterparty_id = e.counterparty;
  amount_minor = e.amount.minor_units;
  currency = e.amount.currency;
  recorded_at = stored_at e.recorded_at;
  sequence = e.sequence;
}

-- The INSERT of an entry: the primary key (transaction_id, sequence), and the references to the
-- transaction and to both accounts.
unfoldable pub insert_entry : String → String → Entry → Db → Result Error (Unit {0} × Db)
insert_entry tenant_id transaction_id e db =
    if any (λ r. r.transaction_id == transaction_id && eqb r.sequence e.sequence) db.entries
      || not (any (λ r. r.id == transaction_id) db.transactions)
      || not (any (has_key tenant_id e.account_id) db.accounts)
      || not (any (has_key tenant_id e.counterparty) db.accounts)
    then err infrastructure
    else ok (tt, record db { entries = db.entries ++ entry_row tenant_id transaction_id e ∷ [] })

unfoldable pub insert_entries : String → String → List Entry → Shell (Unit {0})
unfolding insert_entry
insert_entries tenant_id transaction_id [] = pure tt
insert_entries tenant_id transaction_id (e ∷ entries) = do
  statement (insert_entry tenant_id transaction_id e)
  insert_entries tenant_id transaction_id entries

unfoldable pub append : String → Posting → Shell (Unit {0})
unfolding insert_transaction insert_entries
append tenant_id posting = do
  statement (insert_transaction tenant_id posting.transaction)
  insert_entries tenant_id posting.transaction.id posting.entries

-- `entryFromRow`
unfoldable pub entry_from_row : EntryRow → Result Error Entry
entry_from_row r = elim (new_money r.amount_minor r.currency) [
  | err v ↦ err (violation v)
  | ok amount ↦ ok (record {
    transaction_id = r.transaction_id;
    account_id = r.account_id;
    counterparty = r.counterparty_id;
    amount = amount;
    recorded_at = r.recorded_at;
    sequence = r.sequence;
  })
]

-- `scanEntries`
abbrev pub scan_entries : List EntryRow → Result Error (List Entry)
scan_entries [] = ok []
scan_entries (r ∷ rows) = elim (entry_from_row r) [
  | err e ↦ err e
  | ok entry ↦ elim (scan_entries rows) [ err e ↦ err e | ok entries ↦ ok (entry ∷ entries) ]
]

-- ORDER BY: a stable sort by a strict order.
abbrev pub insert_by : (EntryRow → EntryRow → Bool) → EntryRow → List EntryRow → List EntryRow
insert_by less r [] = r ∷ []
insert_by less r (x ∷ xs) = if less x r then x ∷ insert_by less r xs else r ∷ x ∷ xs

abbrev pub order_by : (EntryRow → EntryRow → Bool) → List EntryRow → List EntryRow
order_by less [] = []
order_by less (r ∷ rows) = insert_by less r (order_by less rows)

-- `Get`, which answers with no deltas.
unfoldable pub get : String → String → Db → Result Error Posting
unfolding entry_from_row
get tenant_id transaction_id db =
    elim (find (λ (r : TransactionRow). r.tenant_id == tenant_id && r.id == transaction_id)
      db.transactions) [
        | none ↦ err infrastructure
        | some t ↦
            elim (scan_entries (
              order_by (λ a b. ltb a.sequence b.sequence)
                (select (λ r. r.tenant_id == tenant_id && r.transaction_id == transaction_id)
                  db.entries))) [
                    | err e ↦ err e
                    | ok entries ↦ ok (record {
                      transaction = record { id = transaction_id; recorded_at = t.recorded_at };
                      entries = entries;
                      deltas = [];
                    })
                  ]
      ]

-- ORDER BY tenant_id, recorded_at, sequence
abbrev pub settled_before : (String → String → Bool) → EntryRow → EntryRow → Bool
settled_before less a b =
    less a.tenant_id b.tenant_id
    || (a.tenant_id == b.tenant_id
        && (ltb a.recorded_at b.recorded_at
            || (eqb a.recorded_at b.recorded_at && ltb a.sequence b.sequence)))

abbrev pub scan_account_entries : List EntryRow → Result Error (List TenantEntry)
scan_account_entries [] = ok []
scan_account_entries (r ∷ rows) = elim (entry_from_row r) [
  | err e ↦ err e
  | ok entry ↦ elim (scan_account_entries rows) [
    | err e ↦ err e
    | ok entries ↦ ok (record { tenant_id = r.tenant_id; entry = entry } ∷ entries)
  ]
]

-- `EntriesFor`
unfoldable pub entries_for : TenantScope → String → Db → Result Error (List TenantEntry)
unfolding entry_from_row
entries_for scope account_id db = scan_account_entries (
    order_by (settled_before db.collation)
      (select (λ r. in_scope scope r.tenant_id && r.account_id == account_id) db.entries))
