-- ===== src/Postgres/Balances.antt =====
-- `TrialBalance` and `ComputedBalances` of internal/adapters/postgres/transactions.go: sums over
-- the entries. SUM of `bigint` does not overflow, and reading it into an `int64` may fail.
use ledgerops.Prelude.{
  ℕ, ◌+◌, suc, String, Bool, ◌&&◌, Option, none, some, List, [], ◌∷◌, ◌==◌, select, if◌then◌else◌,
  Result, ok, err,
}
use ledgerops.Prelude.Int.{ℤ, pos, ◌+ℤ◌}
use ledgerops.Prelude.Int64.{add64, is_int64}
use ledgerops.Domain.Violation.{Money}
use ledgerops.Domain.Money.{new_money}
use ledgerops.Ports.Vocabulary.{Error, violation, infrastructure, TenantScope, AccountKey}
use ledgerops.Postgres.Tables.{Db, EntryRow}
use ledgerops.Postgres.Accounts.{in_scope}

-- One row of GROUP BY currency: the currency, the sum and the count.
pub record CurrencySum : Type 0 where
  pub currency : String
  pub sum : ℤ
  pub count : ℕ

abbrev pub add_to_currency : EntryRow → List CurrencySum → List CurrencySum
add_to_currency e [] = record { currency = e.currency; sum = e.amount_minor; count = 1 } ∷ []
add_to_currency e (g ∷ groups) =
    if g.currency == e.currency
    then record g { sum = g.sum +ℤ e.amount_minor; count = suc g.count } ∷ groups
    else g ∷ add_to_currency e groups

abbrev pub group_by_currency : List CurrencySum → List EntryRow → List CurrencySum
group_by_currency groups [] = groups
group_by_currency groups (e ∷ entries) = group_by_currency (add_to_currency e groups) entries

-- The loop over the rows after the first: it adds the sums whatever their currency.
abbrev pub add_rows : ℤ → ℕ → List CurrencySum → Result Error (ℤ × ℕ)
add_rows sum count [] = ok (sum, count)
add_rows sum count (g ∷ groups) =
    let more = add_rows (add64 sum g.sum) (count + g.count) groups in
    if is_int64 g.sum then more else err infrastructure

abbrev pub balance_of : ℤ → String → ℕ → Result Error (Money × ℕ)
balance_of sum currency count = elim (new_money sum currency) [
  | ok m ↦ ok (m, count)
  | err v ↦ err (violation v)
]

abbrev pub total_of : List CurrencySum → Result Error (Money × ℕ)
total_of [] = balance_of (pos 0) "USD" 0
total_of (g ∷ groups) =
    if is_int64 g.sum
    then elim (add_rows g.sum g.count groups) [
      | err e ↦ err e
      | ok (sum, count) ↦ balance_of sum g.currency count
    ]
    else err infrastructure

-- `TrialBalance`
unfoldable pub trial_balance : TenantScope → Db → Result Error (Money × ℕ)
trial_balance scope db =
    total_of (group_by_currency [] (select (λ e. in_scope scope e.tenant_id) db.entries))

-- One row of GROUP BY tenant_id, account_id, currency.
pub record AccountSum : Type 0 where
  pub tenant_id : String
  pub account_id : String
  pub currency : String
  pub sum : ℤ

abbrev pub in_group : EntryRow → AccountSum → Bool
in_group e g =
    g.tenant_id == e.tenant_id && g.account_id == e.account_id && g.currency == e.currency

abbrev pub add_to_account : EntryRow → List AccountSum → List AccountSum
add_to_account e [] =
    record {
      tenant_id = e.tenant_id;
      account_id = e.account_id;
      currency = e.currency;
      sum = e.amount_minor;
    }
    ∷ []
add_to_account e (g ∷ groups) =
    if in_group e g
    then record g { sum = g.sum +ℤ e.amount_minor } ∷ groups
    else g ∷ add_to_account e groups

abbrev pub group_by_account : List AccountSum → List EntryRow → List AccountSum
group_by_account groups [] = groups
group_by_account groups (e ∷ entries) = group_by_account (add_to_account e groups) entries

-- A map from accounts to figures. A later row of the same account replaces an earlier one.
abbrev pub Balances : Type 0
Balances = List (AccountKey × Money)

abbrev pub fill : Balances → List AccountSum → Result Error Balances
fill balances [] = ok balances
fill balances (g ∷ groups) =
    if is_int64 g.sum
    then elim (new_money g.sum g.currency) [
      | err v ↦ err (violation v)
      | ok m ↦
          let more =
            fill ((record { tenant_id = g.tenant_id; account_id = g.account_id }, m) ∷ balances)
              groups in
          more
    ]
    else err infrastructure

-- `ComputedBalances`
unfoldable pub computed_balances : TenantScope → Db → Result Error Balances
computed_balances scope db =
    fill [] (group_by_account [] (select (λ e. in_scope scope e.tenant_id) db.entries))

-- A map's read.
abbrev pub balance_at : String → String → Balances → Option Money
balance_at tenant_id account_id [] = none
balance_at tenant_id account_id ((k, m) ∷ balances) =
    if k.tenant_id == tenant_id && k.account_id == account_id
    then some m
    else balance_at tenant_id account_id balances
