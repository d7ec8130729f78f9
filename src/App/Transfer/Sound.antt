-- ===== src/App/Transfer/Sound.antt =====
-- A unit of work of `PostTransfer` (internal/app/usecases.go) keeps the books sound.
use mathlib.Core.Path.{subst, subst₂}
use ledgerops.Prelude.{
  ℕ, String, ◌≡◌, refl, sym, ap, ◌∙◌, true, false, not, ◌&&◌, List, [], ◌∷◌, ◌++◌, some, arith, any,
  find, ok, length, select, All,
}
use ledgerops.Prelude.Int.{pos, ◌+ℤ◌, ◌≤ℤ◌, int_laws}
use ledgerops.Prelude.Int64.{is_int64, add64, wrap64_id}
use ledgerops.Domain.Violation.{Money}
use ledgerops.Domain.Money.{negate, is_positive}
use ledgerops.Domain.Account.{Account, wallet, apply}
use ledgerops.Domain.Posting.{TransferCommand, Posting, BalanceDelta}
use ledgerops.Domain.Post.{post}
use ledgerops.Domain.Post.Laws.{post-Accepted, find_account-id}
use ledgerops.Domain.Post.Rules.{IsRange, negate_exact, positive_le}
use ledgerops.Postgres.Tables.{Db, EntryRow}
use ledgerops.Postgres.Accounts.{has_key, matches, add_balance, update_where}
use ledgerops.Books.Sound.{IsSound, Belongs}
use ledgerops.Books.Movement.{Updated, Spares, found-Spares, found_only, movement-IsSound}
use ledgerops.App.Transfer.Steps.{Locked, find_account-Locked, build_account-Built}
use ledgerops.App.Transfer.Writes.{Moved}

-- A wallet that `Apply` allows to pay can spare the amount.
apply-spared :
    (a : Account) (delta : Money) {a' : Account}
    → apply a delta ≡ ok a'
    → a.kind ≡ wallet
    → is_int64 (a.balance.minor_units +ℤ delta.minor_units) ≡ true
    → pos 0 ≤ℤ a.balance.minor_units +ℤ delta.minor_units
unfolding apply add64
apply-spared a delta h w r =
    let exact = wrap64_id (a.balance.minor_units +ℤ delta.minor_units) (ground arith) in
    ground (arith, exact)

zero_sum :
    (m : Money) → IsRange m → is_positive m ≡ true → (negate m).minor_units +ℤ m.minor_units ≡ pos 0
zero_sum m r p = rw (negate_exact m r p) (omega int_laws)

-- A movement that is decided on locked snapshots, recorded and applied.
module _ (t : String) (cmd : TransferCommand) (d : Db) (snapshots : List Account) (now : ℕ)
    (tx : String) (posting : Posting) (range : IsRange cmd.amount) (sound : IsSound d)
    (locked : All (Locked t d) snapshots) (decided : post cmd snapshots now tx ≡ ok posting) where
  abbrev debit : BalanceDelta
  debit = record { account_id = cmd.from; delta = negate cmd.amount }

  payer-Spares : (dd : Db) → Updated t debit d dd → Spares t debit d.accounts
  payer-Spares dd o =
      let (a, b, a', b', acc) = post-Accepted cmd snapshots now tx decided in
      let lock = find_account-Locked t d snapshots cmd.from locked acc.found_from in
      let built = build_account-Built lock.row lock.built in
      let id = find_account-id snapshots cmd.from acc.found_from in
      let bears : is_int64 (lock.row.balance_minor +ℤ debit.delta.minor_units) ≡ true
          → lock.row.kind ≡ wallet
          → pos 0 ≤ℤ lock.row.balance_minor +ℤ debit.delta.minor_units =
        λ r w.
          subst (λ x. pos 0 ≤ℤ x +ℤ debit.delta.minor_units) built.minor_units
            (apply-spared a debit.delta acc.applied_from (built.kind ∙ w) (
              subst (λ x. is_int64 (x +ℤ debit.delta.minor_units) ≡ true) (sym built.minor_units)
                r)) in
      found-Spares t debit d.accounts
        (found_only t cmd.from d.accounts lock.row
          (λ r.
            is_int64 (r.balance_minor +ℤ debit.delta.minor_units) ≡ true
            → r.kind ≡ wallet
            → pos 0 ≤ℤ r.balance_minor +ℤ debit.delta.minor_units)
          sound.unique (subst (λ i. find (has_key t i) d.accounts ≡ some lock.row) id lock.found)
          bears)
        o.in_range

  abbrev credit : BalanceDelta
  credit = record { account_id = cmd.to; delta = cmd.amount }

  -- The tables after the entries and the deltas.
  pub recorded-IsSound :
      (d1 d3 : Db)
      → (e1 e2 : EntryRow) → Belongs t debit e1
      → Belongs t credit e2
      → d1.accounts ≡ d.accounts
      → d1.entries ≡ (d.entries ++ e1 ∷ []) ++ e2 ∷ []
      → d1.transfer_states ≡ d.transfer_states
      → Moved t debit credit d1 d3
      → IsSound d3
  recorded-IsSound d1 d3 e1 e2 b1 b2 ea ee et moved =
      let (a, b, a', b', acc) = post-Accepted cmd snapshots now tx decided in
      let first = moved.first in
      let sums = zero_sum cmd.amount range acc.positive in
      let second = moved.second in
      let rows : moved.between.accounts
          ≡ update_where (matches t debit) (add_balance debit) d.accounts =
        ap Db.accounts first.tables ∙ ap (update_where (matches t debit) (add_balance debit)) ea in
      let here : Updated t debit d
          (record d { accounts = update_where (matches t debit) (add_balance debit) d.accounts }) =
        record {
          one_row = subst (λ rs. length (select (matches t debit) rs) ≡ 1) ea first.one_row;
          in_range =
              subst
                (λ rs.
                  any (λ r. matches t debit r && not (is_int64 (add_balance debit r).balance_minor))
                    rs
                  ≡ false)
                ea first.in_range;
          tables = refl;
        } in
      movement-IsSound t d debit credit e1 e2 sound b1 b2
        (subst₂ (λ x y. x +ℤ y ≡ pos 0) (sym b1.amount) (sym b2.amount) sums)
        (omega (arith, positive_le cmd.amount acc.positive))
        (payer-Spares
          (record d { accounts = update_where (matches t debit) (add_balance debit) d.accounts })
          here)
        d3 here.one_row
        (subst (λ rs. length (select (matches t credit) rs) ≡ 1) rows second.one_row)
        (ap Db.accounts second.tables
          ∙ ap (update_where (matches t credit) (add_balance credit)) rows)
        (ap Db.entries second.tables ∙ ap Db.entries first.tables ∙ ee)
        (ap Db.transfer_states second.tables ∙ ap Db.transfer_states first.tables ∙ et)
