-- ===== src/Domain/Posting.antt =====
-- The values that internal/domain/post.go builds: transactions, entries, deltas, postings. An
-- instant is a number of nanoseconds.
use ledgerops.Prelude.{ℕ, String, Bool, true, ◌&&◌, List, [], ◌∷◌, ◌==◌, if◌then◌else◌, Result, ok}
use ledgerops.Prelude.Int.{ℤ, pos, eqb_ℤ}
use ledgerops.Prelude.Int64.{add64}
use ledgerops.Domain.Violation.{Money, Violation}

pub record TransferCommand : Type 0 where
  pub from : String
  pub to : String
  pub amount : Money
  pub tenant_id : String

pub record Transaction : Type 0 where
  pub id : String
  pub recorded_at : ℕ

unfoldable pub new_transaction : String → ℕ → Result Violation Transaction
new_transaction id recorded_at = ok (record { id = id; recorded_at = recorded_at })

pub record Entry : Type 0 where
  pub transaction_id : String
  pub account_id : String
  pub counterparty : String
  pub amount : Money
  pub recorded_at : ℕ
  pub sequence : ℕ

unfoldable pub new_entry : String → String → String → Money → ℕ → ℕ → Result Violation Entry
new_entry transaction_id account_id counterparty amount recorded_at sequence = ok (record {
  transaction_id = transaction_id;
  account_id = account_id;
  counterparty = counterparty;
  amount = amount;
  recorded_at = recorded_at;
  sequence = sequence;
})

pub record BalanceDelta : Type 0 where
  pub account_id : String
  pub delta : Money

pub record Posting : Type 0 where
  pub transaction : Transaction
  pub entries : List Entry
  pub deltas : List BalanceDelta

-- `sums[currency] += amount`, on a map whose missing keys read as 0.
abbrev pub add_to : String → ℤ → List (String × ℤ) → List (String × ℤ)
add_to currency amount [] = (currency, add64 (pos 0) amount) ∷ []
add_to currency amount ((c, sum) ∷ sums) =
    if c == currency then (c, add64 sum amount) ∷ sums else (c, sum) ∷ add_to currency amount sums

abbrev pub sums_by_currency : List (String × ℤ) → List Entry → List (String × ℤ)
sums_by_currency sums [] = sums
sums_by_currency sums (entry ∷ entries) =
    sums_by_currency (add_to entry.amount.currency entry.amount.minor_units sums) entries

abbrev pub all_zero : List (String × ℤ) → Bool
all_zero [] = true
all_zero ((_, sum) ∷ sums) = eqb_ℤ sum (pos 0) && all_zero sums

unfoldable pub entries_sum_to_zero : List Entry → Bool
entries_sum_to_zero entries = all_zero (sums_by_currency [] entries)
