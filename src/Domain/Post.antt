-- ===== src/Domain/Post.antt =====
-- internal/domain/post.go: the posting rulebook `Post`, and `OpenAccount`.
pub mod Laws
pub mod Rules
pub mod Decision
use ledgerops.Prelude.{
  ℕ, String, Bool, not, Option, none, some, List, [], ◌∷◌, ◌==◌, if◌then◌else◌, find, Result, ok,
  err, ◌>>=◌, ◌>>◌, refuse_if,
}
use ledgerops.Domain.Violation.{
  Money, Violation, new_violation, new_unknown_account, new_account_already_exists, invalid_amount,
  unbalanced,
}
use ledgerops.Domain.Money.{negate, is_positive}
use ledgerops.Domain.Account.{Account, AccountKind, new_account, apply}
use ledgerops.Domain.Posting.{
  TransferCommand, Posting, new_transaction, new_entry, entries_sum_to_zero,
}

unfoldable pub find_account : List Account → String → Option Account
find_account snapshots id = find (λ account. account.id == id) snapshots

abbrev known : Option Account → String → Result Violation Account
known none id = err (new_unknown_account id)
known (some account) id = ok account

unfoldable pub post : TransferCommand → List Account → ℕ → String → Result Violation Posting
unfolding find_account
post cmd snapshots now transaction_id = do
  refuse_if (not (is_positive cmd.amount)) (new_violation invalid_amount)
  from_account ← known (find_account snapshots cmd.from) cmd.from
  to_account ← known (find_account snapshots cmd.to) cmd.to
  refuse_if (not (from_account.tenant_id == cmd.tenant_id)) (new_unknown_account cmd.from)
  refuse_if (not (to_account.tenant_id == cmd.tenant_id)) (new_unknown_account cmd.to)
  let from_delta = negate cmd.amount
  let to_delta = cmd.amount
  updated_from ← apply from_account from_delta
  updated_to ← apply to_account to_delta
  from_entry ← new_entry transaction_id from_account.id to_account.id from_delta now 0
  to_entry ← new_entry transaction_id to_account.id from_account.id to_delta now 1
  let entries = from_entry ∷ to_entry ∷ []
  refuse_if (not (entries_sum_to_zero entries)) (new_violation unbalanced)
  transaction ← new_transaction transaction_id now
  ok (record {
    transaction = transaction;
    entries = entries;
    deltas =
        record { account_id = updated_from.id; delta = from_delta }
        ∷ record { account_id = updated_to.id; delta = to_delta }
        ∷ [];
  })

unfoldable pub open_account :
    String → String → AccountKind → Money → Bool → Result Violation Account
open_account tenant_id id kind zero already_open =
    if already_open then err (new_account_already_exists id) else new_account tenant_id id kind zero
