-- ===== src/Postgres/Accounts.antt =====
-- internal/adapters/postgres/accounts.go, with the keys of the accounts table (migrations 0001 and
-- 0003).
pub mod LockOrder
use ledgerops.Prelude.{
  ℕ, zero, suc, String, Bool, true, false, not, ◌&&◌, ◌||◌, Option, none, some, List, [], ◌∷◌, ◌++◌,
  ◌==◌, str_ltb, eqb, length, find, any, select, if◌then◌else◌, Result, ok, err,
}
use ledgerops.Prelude.Int.{ℤ, ◌+ℤ◌}
use ledgerops.Prelude.Int64.{is_int64}
use ledgerops.Domain.Violation.{Violation, new_unknown_account}
use ledgerops.Domain.Money.{new_money}
use ledgerops.Domain.Account.{Account, new_account}
use ledgerops.Domain.Posting.{BalanceDelta}
use ledgerops.Ports.Vocabulary.{Error, violation, infrastructure, TenantScope}
use ledgerops.Ports.Shell.{Shell, pure, ◌>>=◌, ◌>>◌, statement, query}
use ledgerops.Postgres.Tables.{Db, AccountRow}

-- The primary key (tenant_id, id).
abbrev pub has_key : String → String → AccountRow → Bool
has_key tenant_id id r = r.tenant_id == tenant_id && r.id == id

-- `buildAccount`
unfoldable pub build_account : AccountRow → Result Violation Account
build_account r = elim (new_money r.balance_minor r.currency) [
  | err v ↦ err v
  | ok balance ↦ new_account r.tenant_id r.id r.kind balance
]

abbrev pub checked : Result Violation Account → Result Error Account
checked (ok a) = ok a
checked (err v) = err (violation v)

-- `dedupedSorted`: each id once, in ascending order.
abbrev pub insert_sorted : String → List String → List String
insert_sorted id [] = id ∷ []
insert_sorted id (x ∷ xs) = if str_ltb x id then x ∷ insert_sorted id xs else id ∷ x ∷ xs

abbrev pub sort_strings : List String → List String
sort_strings [] = []
sort_strings (id ∷ ids) = insert_sorted id (sort_strings ids)

abbrev pub dedupe : List String → List String → List String
dedupe seen [] = []
dedupe seen (id ∷ ids) =
    let rest = dedupe (id ∷ seen) ids in
    let skipped = dedupe seen ids in if any (λ x. x == id) seen then skipped else id ∷ rest

unfoldable pub deduped_sorted : List String → List String
deduped_sorted ids = sort_strings (dedupe [] ids)

-- `lockOne`: `none` where no row matches.
unfoldable pub lock_one : String → String → Db → Result Error (Option Account)
unfolding build_account
lock_one tenant_id id db = elim (find (has_key tenant_id id) db.accounts) [
  | none ↦ ok none
  | some r ↦ elim (checked (build_account r)) [ ok a ↦ ok (some a) | err e ↦ err e ]
]

-- An account that was found joins the snapshots.
abbrev pub kept : Option Account → List Account → List Account
kept none accounts = accounts
kept (some account) accounts = account ∷ accounts

unfoldable pub lock_each : String → List String → Shell (List Account)
unfolding lock_one
lock_each tenant_id [] = pure []
lock_each tenant_id (id ∷ ids) = do
  found ← query (lock_one tenant_id id)
  accounts ← lock_each tenant_id ids
  pure (kept found accounts)

unfoldable pub lock_for_update : String → List String → Shell (List Account)
unfolding lock_each deduped_sorted
lock_for_update tenant_id ids = lock_each tenant_id (deduped_sorted ids)

-- The rows that the UPDATE of `ApplyDeltas` changes, and what it makes of one.
abbrev pub matches : String → BalanceDelta → AccountRow → Bool
matches tenant_id delta r =
    has_key tenant_id delta.account_id r && r.currency == delta.delta.currency

abbrev pub add_balance : BalanceDelta → AccountRow → AccountRow
add_balance delta r = record r { balance_minor = r.balance_minor +ℤ delta.delta.minor_units }

abbrev pub update_where :
    (AccountRow → Bool) → (AccountRow → AccountRow) → List AccountRow → List AccountRow
update_where p f [] = []
update_where p f (r ∷ rows) = (if p r then f r else r) ∷ update_where p f rows

-- A sum out of the range of `bigint` fails the statement, and so does a count other than one.
unfoldable pub apply_delta : String → BalanceDelta → Db → Result Error (Unit {0} × Db)
apply_delta tenant_id delta db =
    let hit = matches tenant_id delta in
    let out_of_range =
      any (λ r. hit r && not (is_int64 (add_balance delta r).balance_minor)) db.accounts in
    let one_row = eqb (length (select hit db.accounts)) 1 in
    if out_of_range || not one_row
    then err infrastructure
    else ok (tt, record db { accounts = update_where hit (add_balance delta) db.accounts })

unfoldable pub apply_deltas : String → List BalanceDelta → Shell (Unit {0})
unfolding apply_delta
apply_deltas tenant_id [] = pure tt
apply_deltas tenant_id (delta ∷ deltas) = do
  statement (apply_delta tenant_id delta)
  apply_deltas tenant_id deltas

-- The row that an INSERT makes of an account.
abbrev pub account_row : String → Account → AccountRow
account_row tenant_id account = record {
  tenant_id = tenant_id;
  id = account.id;
  kind = account.kind;
  balance_minor = account.balance.minor_units;
  currency = account.balance.currency;
}

-- `Create`: refused by the primary key, and where the tenant does not exist.
unfoldable pub create : String → Account → Db → Result Error (Unit {0} × Db)
create tenant_id account db =
    if any (has_key tenant_id account.id) db.accounts
      || not (any (λ t. t.tenant_id == tenant_id) db.tenants)
    then err infrastructure
    else ok (tt, record db { accounts = db.accounts ++ account_row tenant_id account ∷ [] })

-- `Get`
unfoldable pub get : String → String → Db → Result Error Account
unfolding build_account
get tenant_id id db = elim (find (has_key tenant_id id) db.accounts) [
  | none ↦ err (violation (new_unknown_account id))
  | some r ↦ checked (build_account r)
]

-- `ExistsAnyTenant`
unfoldable pub exists_any_tenant : String → Db → Result Error Bool
exists_any_tenant id db = ok (any (λ r. r.id == id) db.accounts)

abbrev pub in_scope : TenantScope → String → Bool
in_scope scope tenant_id = not scope.scoped || tenant_id == scope.tenant_id

-- ORDER BY tenant_id, id. A scoped query orders by id alone, which is the same on its rows.
abbrev pub before : (String → String → Bool) → AccountRow → AccountRow → Bool
before less a b = less a.tenant_id b.tenant_id || (a.tenant_id == b.tenant_id && less a.id b.id)

abbrev pub insert_row :
    (AccountRow → AccountRow → Bool) → AccountRow → List AccountRow → List AccountRow
insert_row less r [] = r ∷ []
insert_row less r (x ∷ xs) = if less x r then x ∷ insert_row less r xs else r ∷ x ∷ xs

abbrev pub order_rows : (AccountRow → AccountRow → Bool) → List AccountRow → List AccountRow
order_rows less [] = []
order_rows less (r ∷ rows) = insert_row less r (order_rows less rows)

abbrev pub build_all : List AccountRow → Result Error (List Account)
build_all [] = ok []
build_all (r ∷ rows) = elim (checked (build_account r)) [
  | err e ↦ err e
  | ok a ↦ elim (build_all rows) [ err e ↦ err e | ok accounts ↦ ok (a ∷ accounts) ]
]

-- `All`
unfoldable pub get_all : TenantScope → Db → Result Error (List Account)
unfolding build_account
get_all scope db =
    build_all
      (order_rows (before db.collation) (select (λ r. in_scope scope r.tenant_id) db.accounts))
