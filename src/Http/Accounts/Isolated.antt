-- ===== src/Http/Accounts/Isolated.antt =====
-- A tenant's key reads that tenant's entries alone: `getEntriesHandler` of
-- internal/adapters/http/handlers.go with what it calls.
use mathlib.Core.Path.{subst}
use ledgerops.Prelude.{
  String, ◌≡◌, Bool, true, not, ◌&&◌, ◌||◌, ◌==◌, Option, none, some, List, [], ◌∷◌, All, select,
  Result-cases, inl, inr, if◌then◌else◌, ok, arith, eq_iff,
}
use ledgerops.Domain.Violation.{Money, zero_value}
use ledgerops.Domain.Money.{add}
use ledgerops.Ports.Vocabulary.{scoped_to_tenant, TenantEntry}
use ledgerops.Ports.Shell.{World, ◌>>◌, query, decide, with_unit_of_work}
use ledgerops.Ports.Shell.Laws.{bind-eq-ok, query-eq-ok, decide-eq-ok}
use ledgerops.Ports.Shell.Success.{with_unit_of_work-eq-ok}
use ledgerops.Postgres.Tables.{EntryRow}
use ledgerops.Postgres.Transactions
use ledgerops.Postgres.Transactions.{
  insert_by, order_by, settled_before, entries_for, scan_account_entries, entry_from_row,
}
use ledgerops.App.Reading.{
  zero_money, TracedEntry, running_from, running_balances, get_entries, require_account,
}

abbrev Owned : String → List EntryRow → Type 0
Owned t = All (λ r. r.tenant_id ≡ t)

select-Owned :
    (t id : String) (rows : List EntryRow)
    → Owned t (select (λ r. (not true || r.tenant_id == t) && r.account_id == id) rows)
select-Owned t id [] = tt
select-Owned t id (r ∷ rows) = ground (arith, eq_iff r.tenant_id t, select-Owned t id rows)

insert_by-Owned :
    (t : String) (less : EntryRow → EntryRow → Bool) (r : EntryRow) (rows : List EntryRow)
    → r.tenant_id ≡ t
    → Owned t rows
    → Owned t (insert_by less r rows)
insert_by-Owned t less r [] h k = (h, tt)
insert_by-Owned t less r (x ∷ rows) h k = ground (arith, insert_by-Owned t less r rows h k.1)

order_by-Owned :
    (t : String) (less : EntryRow → EntryRow → Bool) (rows : List EntryRow)
    → Owned t rows
    → Owned t (order_by less rows)
order_by-Owned t less [] h = tt
order_by-Owned t less (r ∷ rows) h = insert_by-Owned t less r _ h.0 (order_by-Owned t less rows h.1)

abbrev pub Theirs : String → List TenantEntry → Type 0
Theirs t = All (λ e. e.tenant_id ≡ t)

scan-Theirs :
    (t : String) (rows : List EntryRow) {entries : List TenantEntry}
    → scan_account_entries rows ≡ ok entries
    → Owned t rows
    → Theirs t entries
scan-Theirs t [] {entries} h k = let nothing : [] ≡ entries = cc in subst (Theirs t) nothing tt
scan-Theirs t (r ∷ rows) {entries} h k = elim (Result-cases (entry_from_row r)) [
  | inl (e, x) ↦ ground arith
  | inr (entry, x) ↦ elim (Result-cases (scan_account_entries rows)) [
    | inl (e, y) ↦ ground arith
    | inr (rest, y) ↦
        let all : record { tenant_id = r.tenant_id; entry = entry } ∷ rest ≡ entries =
          ground arith in
        subst (Theirs t) all (k.0, scan-Theirs t rows y k.1)
  ]
]

abbrev pub Traced : String → List TracedEntry → Type 0
Traced t = All (λ e. e.tenant_id ≡ t)

running_from-Traced :
    (t : String) (current : Option String) (running : Money) (entries : List TenantEntry)
    {traced : List TracedEntry}
    → running_from current running entries ≡ ok traced
    → Theirs t entries
    → Traced t traced
unfolding running_from
running_from-Traced t current running [] {traced} h k =
    let nothing : [] ≡ traced = cc in subst (Traced t) nothing tt
running_from-Traced t current running (e ∷ entries) {traced} h k =
    let starts_new_tenant : Bool = elim current [ none ↦ true | some t ↦ not (e.tenant_id == t) ] in
    elim (Result-cases
      (if starts_new_tenant then zero_money e.entry.amount.currency else ok running)) [
        | inl (v, x) ↦ ground arith
        | inr (start, x) ↦ elim (Result-cases (add start e.entry.amount)) [
          | inl (v, y) ↦ ground arith
          | inr (sum, y) ↦ elim (Result-cases (running_from (some e.tenant_id) sum entries)) [
            | inl (v, z) ↦ ground arith
            | inr (rest, z) ↦
                let all : record { tenant_id = e.tenant_id; entry = e.entry; running_balance = sum }
                      ∷ rest
                    ≡ traced =
                  ground arith in
                subst (Traced t) all
                  (k.0, running_from-Traced t (some e.tenant_id) sum entries z k.1)
          ]
        ]
      ]

-- What `GetEntries` answers a scoped caller with.
pub get_entries-Traced :
    (t id : String) (w : World) {traced : List TracedEntry} {w' : World}
    → get_entries (scoped_to_tenant t) id w ≡ (ok traced, w')
    → Traced t traced
unfolding get_entries running_balances entries_for
get_entries-Traced t id w {traced} h =
    let unit = with_unit_of_work (
      require_account (scoped_to_tenant t) id
      >> query (Transactions.entries_for (scoped_to_tenant t) id)) in
    let (entries, u, e, k) = bind-eq-ok unit (λ entries. decide (running_balances entries)) w h in
    let (start, end, ran) =
      with_unit_of_work-eq-ok
        (require_account (scoped_to_tenant t) id
          >> query (Transactions.entries_for (scoped_to_tenant t) id))
        w e in
    let (_, v, _, read) =
      bind-eq-ok (require_account (scoped_to_tenant t) id)
        (λ _. query (Transactions.entries_for (scoped_to_tenant t) id)) start ran in
    let (found, _, _) = query-eq-ok (Transactions.entries_for (scoped_to_tenant t) id) v read in
    let (summed, _) = decide-eq-ok (running_balances entries) u k in
    running_from-Traced t none zero_value entries summed (
      scan-Theirs t _ found
        (order_by-Owned t (settled_before v.db.collation) _ (select-Owned t id v.db.entries)))
