-- ===== src/Domain/Post/Laws.antt =====
-- What the posting rulebook of internal/domain/post.go promises.
use ledgerops.Prelude.{
  ℕ, String, ◌≡◌, true, eq_iff, ok, Result-cases, arith, Option-cases, inl, inr, some, List, [],
  ◌∷◌,
}
use ledgerops.Domain.Money.{negate, is_positive}
use ledgerops.Domain.Account.{Account, apply}
use ledgerops.Domain.Account.Laws.{apply-Applied}
use ledgerops.Domain.Posting.{
  TransferCommand, Posting, Entry, new_transaction, new_entry, entries_sum_to_zero,
}
use ledgerops.Domain.Post.{find_account, post}

-- The two legs of a movement, from the command and the accounts' ids.
abbrev pub from_leg : TransferCommand → ℕ → String → Entry
from_leg cmd now transaction_id = record {
  transaction_id = transaction_id;
  account_id = cmd.from;
  counterparty = cmd.to;
  amount = negate cmd.amount;
  recorded_at = now;
  sequence = 0;
}

abbrev pub to_leg : TransferCommand → ℕ → String → Entry
to_leg cmd now transaction_id = record {
  transaction_id = transaction_id;
  account_id = cmd.to;
  counterparty = cmd.from;
  amount = cmd.amount;
  recorded_at = now;
  sequence = 1;
}

pub find_account-id :
    (snapshots : List Account) (id : String) {a : Account}
    → find_account snapshots id ≡ some a
    → a.id ≡ id
unfolding find_account
find_account-id [] id h = cc
find_account-id (x ∷ xs) id {a} h = ground (arith, eq_iff x.id id, find_account-id xs id {a = a})

-- What an accepted movement has established, with the accounts that it found.
pub record Accepted (cmd : TransferCommand) (snapshots : List Account) (now : ℕ)
    (transaction_id : String) (p : Posting) (a b a' b' : Account) : Type 0 where
  pub positive : is_positive cmd.amount ≡ true
  pub found_from : find_account snapshots cmd.from ≡ some a
  pub found_to : find_account snapshots cmd.to ≡ some b
  pub tenant_from : a.tenant_id ≡ cmd.tenant_id
  pub tenant_to : b.tenant_id ≡ cmd.tenant_id
  pub applied_from : apply a (negate cmd.amount) ≡ ok a'
  pub applied_to : apply b cmd.amount ≡ ok b'
  pub transaction_id_eq : p.transaction.id ≡ transaction_id
  pub recorded_at : p.transaction.recorded_at ≡ now
  pub balanced : entries_sum_to_zero p.entries ≡ true
  pub legs : p.entries ≡ from_leg cmd now transaction_id ∷ to_leg cmd now transaction_id ∷ []
  pub deltas :
      p.deltas
      ≡ record { account_id = cmd.from; delta = negate cmd.amount }
        ∷ record { account_id = cmd.to; delta = cmd.amount }
        ∷ []

module _ (cmd : TransferCommand) (snapshots : List Account) (now : ℕ) (transaction_id : String)
    {p : Posting} (done : post cmd snapshots now transaction_id ≡ ok p) where
  accepted :
      (a b a' b' : Account)
      → find_account snapshots cmd.from ≡ some a
      → find_account snapshots cmd.to ≡ some b
      → apply a (negate cmd.amount) ≡ ok a'
      → apply b cmd.amount ≡ ok b'
      → Accepted cmd snapshots now transaction_id p a b a' b'
  unfolding post new_entry new_transaction
  accepted a b a' b' ea eb ea' eb' = ground (
    arith,
    eq_iff a.tenant_id cmd.tenant_id,
    eq_iff b.tenant_id cmd.tenant_id,
    find_account-id snapshots cmd.from ea,
    find_account-id snapshots cmd.to eb,
    (apply-Applied a (negate cmd.amount) ea').id,
    (apply-Applied b cmd.amount eb').id,
  )

  pub post-Accepted_at :
      (a b : Account)
      → find_account snapshots cmd.from ≡ some a
      → find_account snapshots cmd.to ≡ some b
      → (a' : Account) × (b' : Account) × Accepted cmd snapshots now transaction_id p a b a' b'
  unfolding post new_entry new_transaction
  post-Accepted_at a b ea eb = elim (Result-cases (apply a (negate cmd.amount))) [
    | inl e ↦ ground arith
    | inr (a', ea') ↦ elim (Result-cases (apply b cmd.amount)) [
      | inl e ↦ ground arith
      | inr (b', eb') ↦ (a', b', accepted a b a' b' ea eb ea' eb')
    ]
  ]

  pub post-Accepted :
      (a : Account) × (b : Account) × (a' : Account) × (b' : Account) × Accepted cmd snapshots now
        transaction_id p a b a' b'
  unfolding post new_entry new_transaction
  post-Accepted = elim (Option-cases (find_account snapshots cmd.from)) [
    | inl e ↦ ground arith
    | inr (a, ea) ↦ elim (Option-cases (find_account snapshots cmd.to)) [
      | inl e ↦ ground arith
      | inr (b, eb) ↦ let (a', b', acc) = post-Accepted_at a b ea eb in (a, b, a', b', acc)
    ]
  ]
