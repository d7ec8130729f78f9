-- ===== src/Domain/Account.antt =====
-- internal/domain/account.go: an immutable snapshot of a holder of value.
pub mod Laws
use ledgerops.Prelude.{
  String, Bool, true, false, ◌&&◌, ◌==◌, Result, ok, err, ◌>>=◌, ◌>>◌, refuse_if,
}
use ledgerops.Prelude.Int.{pos, ltb_ℤ}
use ledgerops.Domain.Violation.{
  Money, Violation, zero_value, new_tenant_not_found, new_insufficient_funds,
}
use ledgerops.Domain.Money.{new_money, add, negate}

-- A string type with two constants; the adapters admit no other value.
pub data AccountKind : Type 0 where
  wallet system : AccountKind

abbrev pub is_wallet : AccountKind → Bool
is_wallet wallet = true
is_wallet system = false

pub record Account : Type 0 where
  pub id : String
  pub kind : AccountKind
  pub balance : Money
  pub tenant_id : String

-- `zero, _ := NewMoney(0, currency)`: the zero value where the currency is not known.
abbrev zero_in : String → Money
zero_in currency = elim (new_money (pos 0) currency) [ ok zero ↦ zero | err _ ↦ zero_value ]

unfoldable pub new_account : String → String → AccountKind → Money → Result Violation Account
unfolding new_money negate
new_account tenant_id id kind balance = do
  refuse_if (tenant_id == "") (new_tenant_not_found tenant_id)
  refuse_if (is_wallet kind && ltb_ℤ balance.minor_units (pos 0))
      (new_insufficient_funds id (zero_in balance.currency) (negate balance))
  ok (record { id = id; kind = kind; balance = balance; tenant_id = tenant_id })

-- `Account.Apply`
unfoldable pub apply : Account → Money → Result Violation Account
unfolding add negate
apply a delta = do
  new_balance ← add a.balance delta
  refuse_if (is_wallet a.kind && ltb_ℤ new_balance.minor_units (pos 0))
      (new_insufficient_funds a.id a.balance (negate delta))
  ok (record a { balance = new_balance })
