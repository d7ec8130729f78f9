-- ===== src/Domain/Violation.antt =====
-- internal/domain/violation.go and the `Money` value that a violation carries.
use ledgerops.Prelude.{String}
use ledgerops.Prelude.Int.{ℤ, pos}

-- internal/domain/money.go: a signed amount in minor units. `minor_units` is an `int64`.
pub record Money : Type 0 where
  pub minor_units : ℤ
  pub currency : String

-- `Money{}`
abbrev pub zero_value : Money
zero_value = record { minor_units = pos 0; currency = "" }

pub data ViolationKind : Type 0 where
  unbalanced insufficient_funds unknown_account account_already_exists invalid_amount :
      ViolationKind
  currency_mismatch tenant_already_exists tenant_not_found : ViolationKind
  tenant_link_already_exists tenant_link_not_found counterparty_not_found : ViolationKind

-- The `sealed` marker has no content and is left out.
pub record Violation : Type 0 where
  pub kind : ViolationKind
  pub account : String
  pub available : Money
  pub requested : Money
  pub from_currency : String
  pub to_currency : String
  pub tenant : String

abbrev pub new_violation : ViolationKind → Violation
new_violation kind = record {
  kind = kind;
  account = "";
  available = zero_value;
  requested = zero_value;
  from_currency = "";
  to_currency = "";
  tenant = "";
}

abbrev pub new_insufficient_funds : String → Money → Money → Violation
new_insufficient_funds account available requested =
    let v = new_violation insufficient_funds in
    record v { account = account; available = available; requested = requested }

abbrev pub new_unknown_account : String → Violation
new_unknown_account account =
    let v = new_violation unknown_account in record v { account = account }

abbrev pub new_account_already_exists : String → Violation
new_account_already_exists account =
    let v = new_violation account_already_exists in record v { account = account }

abbrev pub new_currency_mismatch : String → String → Violation
new_currency_mismatch from_currency to_currency =
    let v = new_violation currency_mismatch in
    record v { from_currency = from_currency; to_currency = to_currency }

abbrev pub new_tenant_already_exists : String → Violation
new_tenant_already_exists name =
    let v = new_violation tenant_already_exists in record v { tenant = name }

abbrev pub new_tenant_not_found : String → Violation
new_tenant_not_found tenant_id =
    let v = new_violation tenant_not_found in record v { tenant = tenant_id }

abbrev pub new_tenant_link_already_exists : Violation
new_tenant_link_already_exists = new_violation tenant_link_already_exists

abbrev pub new_tenant_link_not_found : Violation
new_tenant_link_not_found = new_violation tenant_link_not_found

abbrev pub new_counterparty_not_found : Violation
new_counterparty_not_found = new_violation counterparty_not_found
