-- ===== src/App/Reading.antt =====
-- `GetBalance`, `GetEntries` and `VerifyBooks` of internal/app/usecases.go.
pub mod Drifts
use ledgerops.Prelude.{
  ℕ, String, Bool, true, false, not, Option, none, some, List, [], ◌∷◌, ◌==◌, length, eqb,
  if◌then◌else◌, Result, ok, err,
}
use ledgerops.Prelude.Int.{pos}
use ledgerops.Domain.Violation.{Money, Violation, new_unknown_account, zero_value}
use ledgerops.Domain.Money.{new_money, add, negate, money_eq}
use ledgerops.Domain.Account.{Account}
use ledgerops.Domain.Posting.{Entry}
use ledgerops.Ports.Vocabulary.{violation, TenantScope, TenantEntry}
use ledgerops.Ports.Shell.{Shell, pure, raise, decide, ◌>>=◌, ◌>>◌, query, with_unit_of_work}
use ledgerops.Postgres.Accounts
use ledgerops.Postgres.Transactions
use ledgerops.Postgres.Tenants
use ledgerops.Postgres.Balances.{Balances, balance_at, trial_balance, computed_balances}

unfoldable pub get_balance : String → String → Shell Account
get_balance tenant_id account_id = with_unit_of_work (query (Accounts.get tenant_id account_id))

pub record TracedEntry : Type 0 where
  pub tenant_id : String
  pub entry : Entry
  pub running_balance : Money

abbrev pub zero_money : String → Result Violation Money
zero_money currency = new_money (pos 0) currency

-- The loop of `runningBalances`, with the tenant and the sum so far; no tenant before the first row.
unfoldable pub running_from :
    Option String → Money → List TenantEntry → Result Violation (List TracedEntry)
running_from current running [] = ok []
running_from current running (row ∷ rows) =
    let starts_new_tenant : Bool = elim current [
      | none ↦ true
      | some t ↦ not (row.tenant_id == t)
    ] in
    elim (if starts_new_tenant then zero_money row.entry.amount.currency else ok running) [
      | err v ↦ err v
      | ok start ↦ elim (add start row.entry.amount) [
        | err v ↦ err v
        | ok sum ↦ elim (running_from (some row.tenant_id) sum rows) [
          | err v ↦ err v
          | ok traced ↦ ok (
              record { tenant_id = row.tenant_id; entry = row.entry; running_balance = sum }
              ∷ traced)
        ]
      ]
    ]

unfoldable pub running_balances : List TenantEntry → Result Violation (List TracedEntry)
unfolding running_from
running_balances entries = running_from none zero_value entries

-- The existence check of `GetEntries`.
unfoldable pub require_account : TenantScope → String → Shell (Unit {0})
require_account scope account_id =
    if scope.scoped then (do query (Accounts.get scope.tenant_id account_id); pure tt) else (do
      exists ← query (Accounts.exists_any_tenant account_id)
      if exists then pure tt else raise (violation (new_unknown_account account_id)))

unfoldable pub get_entries : TenantScope → String → Shell (List TracedEntry)
unfolding require_account running_balances
get_entries scope account_id = do
  entries ←
      with_unit_of_work
        (do require_account scope account_id; query (Transactions.entries_for scope account_id))
  decide (running_balances entries)

pub record Drift : Type 0 where
  pub tenant_id : String
  pub account_id : String
  pub stored : Money
  pub computed : Money
  pub delta : Money

-- An account with no entries computes to zero in its own currency.
abbrev pub computed_or_zero : Account → Balances → Result Violation Money
computed_or_zero account computed = elim (balance_at account.tenant_id account.id computed) [
  | some m ↦ ok m
  | none ↦ zero_money account.balance.currency
]

unfoldable pub drifted_accounts : List Account → Balances → Result Violation (List Drift)
drifted_accounts [] computed = ok []
drifted_accounts (account ∷ accounts) computed = elim (computed_or_zero account computed) [
  | err v ↦ err v
  | ok balance ↦ elim (money_eq balance account.balance) [
    | true ↦ drifted_accounts accounts computed
    | false ↦ elim (add balance (negate account.balance)) [
      | err v ↦ err v
      | ok delta ↦ elim (drifted_accounts accounts computed) [
        | err v ↦ err v
        | ok drifted ↦ ok (
            record {
              tenant_id = account.tenant_id;
              account_id = account.id;
              stored = account.balance;
              computed = balance;
              delta = delta;
            }
            ∷ drifted)
      ]
    ]
  ]
]

-- The time that the scan took is not modelled.
pub record BooksReport : Type 0 where
  pub balanced : Bool
  pub trial_balance : Money
  pub entry_count : ℕ
  pub drifted : List Drift

-- The existence check of `VerifyBooks`.
unfoldable pub require_tenant : TenantScope → Shell (Unit {0})
require_tenant scope =
    if scope.scoped then (do query (Tenants.by_id scope.tenant_id); pure tt) else pure tt

unfoldable pub verify_books : TenantScope → Shell BooksReport
unfolding require_tenant drifted_accounts
verify_books scope = with_unit_of_work (do
  require_tenant scope
  accounts ← query (Accounts.get_all scope)
  computed ← query (computed_balances scope)
  total ← query (trial_balance scope)
  drifted ← decide (drifted_accounts accounts computed)
  pure (record {
    balanced = eqb (length drifted) 0;
    trial_balance = total.0;
    entry_count = total.1;
    drifted = drifted;
  }))
