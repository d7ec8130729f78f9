-- ===== src/Books/Sound.antt =====
-- Sound books: unique accounts, stored balances that are the sums of their entries (I3), wallets
-- that are not negative (I4), entries that sum to zero (I1) and belong to accounts, and transfers of
-- amounts in the range of `int64`.
use ledgerops.Prelude.{
  String, ◌≡◌, true, List, [], ◌∷◌, ◌++◌, eq_iff, arith, if◌then◌else◌, All, any, Bool-cases, inl,
  inr,
}
use ledgerops.Prelude.Int64.{IsInt64}
use ledgerops.Ports.Vocabulary.{TransferState}
use ledgerops.Prelude.Int.{ℤ, pos, ◌+ℤ◌, ◌≤ℤ◌, int_laws}
use ledgerops.Domain.Account.{wallet}
use ledgerops.Domain.Posting.{BalanceDelta}
use ledgerops.Postgres.Tables.{Db, AccountRow, EntryRow}
use ledgerops.Postgres.Accounts.{has_key, matches, add_balance, update_where}
use ledgerops.Books.Sums.{concerns, entry_sum, total, entry_sum-append, IsUnique, KeysHit}

+ℤ-zero : (a : ℤ) → a +ℤ pos 0 ≡ a
+ℤ-zero a = omega int_laws

-- Every stored balance is the sum of the account's entries.
abbrev pub Stored : List EntryRow → List AccountRow → Type 0
Stored entries rows = All (λ r. r.balance_minor ≡ entry_sum r.tenant_id r.id entries) rows

-- No wallet is negative.
abbrev pub Covered : List AccountRow → Type 0
Covered rows = All (λ r. r.kind ≡ wallet → pos 0 ≤ℤ r.balance_minor) rows

-- Every entry belongs to an account.
abbrev pub Owned : List AccountRow → List EntryRow → Type 0
Owned rows entries = All (λ e. any (has_key e.tenant_id e.account_id) rows ≡ true) entries

-- Every recorded transfer is of an amount in range.
abbrev pub Ranged : List TransferState → Type 0
Ranged transfers = All (λ s. IsInt64 s.amount.minor_units) transfers

pub record IsSound (db : Db) : Type 0 where
  pub unique : IsUnique db.accounts
  pub stored : Stored db.entries db.accounts
  pub covered : Covered db.accounts
  pub balanced : total db.entries ≡ pos 0
  pub owned : Owned db.accounts db.entries
  pub ranged : Ranged db.transfer_states

-- An entry and the delta that belongs to it.
pub record Belongs (t : String) (delta : BalanceDelta) (e : EntryRow) : Type 0 where
  pub tenant : e.tenant_id ≡ t
  pub account : e.account_id ≡ delta.account_id
  pub amount : e.amount_minor ≡ delta.delta.minor_units

concerns-has_key :
    (t : String) (delta : BalanceDelta) (e : EntryRow) (r : AccountRow)
    → Belongs t delta e
    → concerns r.tenant_id r.id e ≡ has_key t delta.account_id r
concerns-has_key t delta e r b = ground (
  arith,
  eq_iff e.tenant_id r.tenant_id,
  eq_iff e.account_id r.id,
  eq_iff r.tenant_id t,
  eq_iff r.id delta.account_id,
)

stored_row :
    (t : String) (delta : BalanceDelta) (e : EntryRow) (entries : List EntryRow) (r : AccountRow)
    → Belongs t delta e
    → (has_key t delta.account_id r ≡ true → matches t delta r ≡ true)
    → r.balance_minor ≡ entry_sum r.tenant_id r.id entries
    → let r' : AccountRow = (if matches t delta r then add_balance delta r else r) in
      r'.balance_minor ≡ entry_sum r'.tenant_id r'.id (entries ++ e ∷ [])
stored_row t delta e entries r b k h =
    let c = concerns-has_key t delta e r b in
    let s = entry_sum-append r.tenant_id r.id entries e in
    elim (Bool-cases (matches t delta r)) [
      | inl m ↦ rw m (ground (arith, c, s, h, b.amount, m))
      | inr m ↦ rw m (ground (arith, c, s, h, k, m, +ℤ-zero (entry_sum r.tenant_id r.id entries)))
    ]

-- A recorded entry, with its delta applied, keeps the stored balances right.
pub update_where-Stored :
    (t : String) (delta : BalanceDelta) (e : EntryRow) (entries : List EntryRow)
    (rows : List AccountRow)
    → Belongs t delta e
    → KeysHit t delta rows
    → Stored entries rows
    → Stored (entries ++ e ∷ []) (update_where (matches t delta) (add_balance delta) rows)
update_where-Stored t delta e entries [] b k h = tt
update_where-Stored t delta e entries (r ∷ rows) b k h =
    (stored_row t delta e entries r b k.0 h.0, update_where-Stored t delta e entries rows b k.1 h.1)

-- A delta keeps wallets covered if each wallet that it hits stays so.
pub update_where-Covered :
    (t : String) (delta : BalanceDelta) (rows : List AccountRow)
    → All
        (λ r.
          matches t delta r ≡ true
          → r.kind ≡ wallet
          → pos 0 ≤ℤ r.balance_minor +ℤ delta.delta.minor_units)
        rows
    → Covered rows
    → Covered (update_where (matches t delta) (add_balance delta) rows)
update_where-Covered t delta [] k h = tt
update_where-Covered t delta (r ∷ rows) k h =
    (ground (arith, k.0, h.0), update_where-Covered t delta rows k.1 h.1)

-- The books read the accounts, the entries and the transfers alone.
pub same_books :
    (d d' : Db)
    → d'.accounts ≡ d.accounts
    → d'.entries ≡ d.entries
    → d'.transfer_states ≡ d.transfer_states
    → IsSound d
    → IsSound d'
same_books d d' a e x s = record {
  unique = rw a s.unique;
  stored = rw (a, e) s.stored;
  covered = rw a s.covered;
  balanced = rw e s.balanced;
  owned = rw (a, e) s.owned;
  ranged = rw x s.ranged;
}
