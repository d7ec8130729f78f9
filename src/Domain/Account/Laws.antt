-- ===== src/Domain/Account/Laws.antt =====
-- What `NewAccount` and `Account.Apply` of internal/domain/account.go promise.
use ledgerops.Prelude.{◌≡◌, ◌≢◌, eq_iff, ok, arith}
use ledgerops.Prelude.Int.{pos, ◌≤ℤ◌}
use ledgerops.Prelude.Int64.{add64}
use ledgerops.Domain.Violation.{Money}
use ledgerops.Domain.Account.{Account, AccountKind, wallet, new_account, apply}
use ledgerops.Prelude.{String}

-- A wallet is never below zero, and an account names its tenant.
pub record IsLegal (a : Account) : Type 0 where
  pub tenanted : a.tenant_id ≢ ""
  pub covered : a.kind ≡ wallet → pos 0 ≤ℤ a.balance.minor_units

-- What an accepted movement leaves alone, and the balance that it reaches.
pub record Applied (a : Account) (delta : Money) (b : Account) : Type 0 where
  pub id : b.id ≡ a.id
  pub kind : b.kind ≡ a.kind
  pub tenant_id : b.tenant_id ≡ a.tenant_id
  pub currency : b.balance.currency ≡ a.balance.currency
  pub matched : a.balance.currency ≡ delta.currency
  pub minor_units : b.balance.minor_units ≡ add64 a.balance.minor_units delta.minor_units
  pub covered : b.kind ≡ wallet → pos 0 ≤ℤ b.balance.minor_units

pub apply-Applied :
    (a : Account) (delta : Money) {b : Account} → apply a delta ≡ ok b → Applied a delta b
unfolding apply
apply-Applied a delta h = ground (arith, eq_iff a.balance.currency delta.currency)

pub new_account-IsLegal :
    (tenant_id id : String) (kind : AccountKind) (balance : Money) {a : Account}
    → new_account tenant_id id kind balance ≡ ok a
    → IsLegal a
unfolding new_account
new_account-IsLegal tenant_id id kind balance h = ground (arith, eq_iff tenant_id "")
