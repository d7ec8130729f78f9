-- ===== src/Domain/Post/Decision.antt =====
-- `Post` of internal/domain/post.go as a decision: which movements it accepts, what it answers to
-- the others, and that its own balance check never fires.
use ledgerops.Prelude.{
  ℕ, String, ◌≡◌, refl, ◌≢◌, true, eq_iff, eq_refl, ok, err, Result-cases, arith, Option-cases, inl,
  inr, some, none, List, [], ◌∷◌, ◌↔◌, ◌>>◌, ◌∙◌, sym,
}
use ledgerops.Prelude.Int.{pos, ◌+ℤ◌, ◌≤ℤ◌}
use ledgerops.Prelude.Int64.{add64-neg64}
use ledgerops.Domain.Violation.{
  Money, Violation, new_insufficient_funds, new_unknown_account, unbalanced,
}
use ledgerops.Domain.Money.{negate, is_positive}
use ledgerops.Domain.Account.{Account, wallet, apply}
use ledgerops.Domain.Account.Laws.{apply-Applied}
use ledgerops.Domain.Posting.{
  TransferCommand, Posting, new_transaction, new_entry, entries_sum_to_zero,
}
use ledgerops.Domain.Post.{find_account, post}
use ledgerops.Domain.Post.Laws.{post-Accepted_at, find_account-id, from_leg, to_leg}
use ledgerops.Domain.Post.Rules.{
  IsRange, max_int64, debited, credited, apply_debit, apply_credit, positive_le,
}

-- The posting of an accepted movement.
abbrev pub posting_of : TransferCommand → ℕ → String → Posting
posting_of cmd now transaction_id = record {
  transaction = record { id = transaction_id; recorded_at = now };
  entries = from_leg cmd now transaction_id ∷ to_leg cmd now transaction_id ∷ [];
  deltas =
      record { account_id = cmd.from; delta = negate cmd.amount }
      ∷ record { account_id = cmd.to; delta = cmd.amount }
      ∷ [];
}

pub legs_balance :
    (cmd : TransferCommand) (now : ℕ) (transaction_id : String)
    → IsRange cmd.amount
    → entries_sum_to_zero (from_leg cmd now transaction_id ∷ to_leg cmd now transaction_id ∷ [])
      ≡ true
unfolding entries_sum_to_zero negate
legs_balance cmd now transaction_id r =
    rw (eq_refl cmd.amount.currency, add64-neg64 cmd.amount.minor_units r) refl

-- A movement that the rules allow between two found accounts, in exact arithmetic.
pub record Admissible (cmd : TransferCommand) (a b : Account) : Type 0 where
  pub moves_value : pos 1 ≤ℤ cmd.amount.minor_units
  pub tenant_from : a.tenant_id ≡ cmd.tenant_id
  pub tenant_to : b.tenant_id ≡ cmd.tenant_id
  pub currency_from : a.balance.currency ≡ cmd.amount.currency
  pub currency_to : b.balance.currency ≡ cmd.amount.currency
  pub funds : a.kind ≡ wallet → cmd.amount.minor_units ≤ℤ a.balance.minor_units
  pub room : b.kind ≡ wallet → b.balance.minor_units +ℤ cmd.amount.minor_units ≤ℤ pos max_int64

-- The two halves of the decision, read back from it.
debited_funds :
    (a : Account) (m : Money) {r : Account}
    → debited a m ≡ ok r
    → a.kind ≡ wallet
    → m.minor_units ≤ℤ a.balance.minor_units
debited_funds a m h w = ground arith

credited_room :
    (a : Account) (m : Money) {r : Account}
    → credited a m ≡ ok r
    → a.kind ≡ wallet
    → a.balance.minor_units +ℤ m.minor_units ≤ℤ pos max_int64
credited_room a m h w = ground arith

accepts :
    (cmd : TransferCommand) (a b : Account) (p : Posting)
    → Admissible cmd a b
    → (debited a cmd.amount >> credited b cmd.amount >> ok p) ≡ ok p
accepts cmd a b p h = ground (arith, h.funds, h.room)

module _ (cmd : TransferCommand) (snapshots : List Account) (now : ℕ) (transaction_id : String)
    {a b : Account} (amount_range : IsRange cmd.amount)
    (found_from : find_account snapshots cmd.from ≡ some a)
    (found_to : find_account snapshots cmd.to ≡ some b) where
  -- `Post` after its tests on the amount and on the tenants.
  pub post_applies :
      is_positive cmd.amount ≡ true
      → a.tenant_id ≡ cmd.tenant_id
      → b.tenant_id ≡ cmd.tenant_id
      → post cmd snapshots now transaction_id ≡ (
          apply a (negate cmd.amount)
          >> apply b cmd.amount
          >> ok (posting_of cmd now transaction_id))
  unfolding post new_entry new_transaction
  post_applies p ta tb = elim (Result-cases (apply a (negate cmd.amount))) [
    | inl (e, ee) ↦
        ground (arith, eq_iff a.tenant_id cmd.tenant_id, eq_iff b.tenant_id cmd.tenant_id)
    | inr (a', ea) ↦ elim (Result-cases (apply b cmd.amount)) [
      | inl (e, ee) ↦
          ground (arith, eq_iff a.tenant_id cmd.tenant_id, eq_iff b.tenant_id cmd.tenant_id)
      | inr (b', eb) ↦ ground (
        arith,
        eq_iff a.tenant_id cmd.tenant_id,
        eq_iff b.tenant_id cmd.tenant_id,
        find_account-id snapshots cmd.from found_from,
        find_account-id snapshots cmd.to found_to,
        (apply-Applied a (negate cmd.amount) ea).id,
        (apply-Applied b cmd.amount eb).id,
        legs_balance cmd now transaction_id amount_range,
      )
    ]
  ]

  module _ (range_from : IsRange a.balance) (range_to : IsRange b.balance)
      (legal_from : a.kind ≡ wallet → pos 0 ≤ℤ a.balance.minor_units)
      (legal_to : b.kind ≡ wallet → pos 0 ≤ℤ b.balance.minor_units) where
    -- `Post` in exact arithmetic.
    pub post_decides :
        pos 1 ≤ℤ cmd.amount.minor_units
        → a.tenant_id ≡ cmd.tenant_id
        → b.tenant_id ≡ cmd.tenant_id
        → a.balance.currency ≡ cmd.amount.currency
        → b.balance.currency ≡ cmd.amount.currency
        → post cmd snapshots now transaction_id ≡ (
            debited a cmd.amount >> credited b cmd.amount >> ok (posting_of cmd now transaction_id))
    unfolding is_positive
    post_decides p ta tb ca cb =
        rw
          (
            post_applies (ground arith) ta tb,
            apply_debit a cmd.amount amount_range range_from legal_from p ca,
            apply_credit b cmd.amount amount_range range_to legal_to p cb,
          )
          refl

    accepted-Admissible :
        (p : Posting) → post cmd snapshots now transaction_id ≡ ok p → Admissible cmd a b
    unfolding is_positive negate
    accepted-Admissible p h =
        let (a', b', acc) =
          post-Accepted_at cmd snapshots now transaction_id h a b found_from found_to in
        let x = apply-Applied a (negate cmd.amount) acc.applied_from in
        let y = apply-Applied b cmd.amount acc.applied_to in
        let moves : pos 1 ≤ℤ cmd.amount.minor_units = positive_le cmd.amount acc.positive in
        let ca = x.matched in
        record {
          moves_value = moves;
          tenant_from = acc.tenant_from;
          tenant_to = acc.tenant_to;
          currency_from = ca;
          currency_to = y.matched;
          funds = debited_funds a cmd.amount (
              sym (apply_debit a cmd.amount amount_range range_from legal_from moves ca)
              ∙ acc.applied_from);
          room = credited_room b cmd.amount (
              sym (apply_credit b cmd.amount amount_range range_to legal_to moves y.matched)
              ∙ acc.applied_to);
        }

    -- Between two found accounts with balances in the range of `int64` and no negative
    -- wallet, `Post` accepts a movement of an amount in that range exactly when it moves
    -- value, both accounts are the caller's tenant's and hold the amount's currency, a paying
    -- wallet holds the amount, and a receiving wallet's balance stays in the range.
    pub post_accepts_iff :
        ((p : Posting) × (post cmd snapshots now transaction_id ≡ ok p)) ↔ Admissible cmd a b
    post_accepts_iff = (
      λ h. accepted-Admissible h.0 h.1,
      λ h. (
        posting_of cmd now transaction_id,
        post_decides h.moves_value h.tenant_from h.tenant_to h.currency_from h.currency_to
            ∙ accepts cmd a b _ h,
      ),
    )

    -- Between two found accounts of the caller's tenant with balances in the range of `int64`
    -- and no negative wallet, a movement of a positive amount in that range, in the payer's
    -- currency, out of a wallet that holds less is refused, naming the account, what it holds
    -- and what was asked for.
    pub post_overdraft :
        pos 1 ≤ℤ cmd.amount.minor_units
        → a.tenant_id ≡ cmd.tenant_id
        → b.tenant_id ≡ cmd.tenant_id
        → a.balance.currency ≡ cmd.amount.currency
        → a.kind ≡ wallet
        → ¬ (cmd.amount.minor_units ≤ℤ a.balance.minor_units)
        → post cmd snapshots now transaction_id
          ≡ err (new_insufficient_funds cmd.from a.balance cmd.amount)
    unfolding is_positive
    post_overdraft p ta tb ca w short =
        rw
          (
            post_applies (ground arith) ta tb,
            apply_debit a cmd.amount amount_range range_from legal_from p ca,
          )
          (ground (arith, find_account-id snapshots cmd.from found_from))

-- What `Post` answers when an account is missing, or is another tenant's: the account is unknown,
-- whatever the balances.
pub post_unknown :
    (cmd : TransferCommand) (snapshots : List Account) (now : ℕ) (transaction_id : String)
    → is_positive cmd.amount ≡ true
    → find_account snapshots cmd.from ≡ none
    → post cmd snapshots now transaction_id ≡ err (new_unknown_account cmd.from)
unfolding post
post_unknown cmd snapshots now transaction_id p e = ground arith

pub post_foreign :
    (cmd : TransferCommand) (snapshots : List Account) (now : ℕ) (transaction_id : String)
    {a b : Account}
    → is_positive cmd.amount ≡ true
    → find_account snapshots cmd.from ≡ some a
    → find_account snapshots cmd.to ≡ some b
    → a.tenant_id ≢ cmd.tenant_id
    → post cmd snapshots now transaction_id ≡ err (new_unknown_account cmd.from)
unfolding post
post_foreign cmd snapshots now transaction_id {a} {b} p ea eb f =
    ground (arith, eq_iff a.tenant_id cmd.tenant_id)

apply-ne-unbalanced :
    (a : Account) (delta : Money) (v : Violation) → apply a delta ≡ err v → v.kind ≢ unbalanced
unfolding apply
apply-ne-unbalanced a delta v h = ground arith

-- `Post` of an amount in the range of `int64` never refuses a movement as unbalanced.
pub post_ne_unbalanced :
    (cmd : TransferCommand) (snapshots : List Account) (now : ℕ) (transaction_id : String)
    {v : Violation}
    → IsRange cmd.amount
    → post cmd snapshots now transaction_id ≡ err v
    → v.kind ≢ unbalanced
unfolding post new_entry new_transaction
post_ne_unbalanced cmd snapshots now transaction_id {v} r h =
    elim (Option-cases (find_account snapshots cmd.from)) [
      | inl e ↦ ground arith
      | inr (a, ea) ↦ elim (Option-cases (find_account snapshots cmd.to)) [
        | inl e ↦ ground arith
        | inr (b, eb) ↦ elim (Result-cases (apply a (negate cmd.amount))) [
          | inl (e, ee) ↦ ground (arith, apply-ne-unbalanced a (negate cmd.amount) e)
          | inr (a', ea') ↦ elim (Result-cases (apply b cmd.amount)) [
            | inl (e, ee) ↦ ground (arith, apply-ne-unbalanced b cmd.amount e)
            | inr (b', eb') ↦ ground (
              arith,
              find_account-id snapshots cmd.from ea,
              find_account-id snapshots cmd.to eb,
              legs_balance cmd now transaction_id r,
            )
          ]
        ]
      ]
    ]
