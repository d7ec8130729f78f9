-- ===== src/Books/Movement.antt =====
-- A movement keeps the books sound: two entries with their deltas, the payer's covered.
use ledgerops.Prelude.{
  String, ◌≡◌, ap, true, false, not, List, [], ◌∷◌, ◌++◌, arith, any, select, length, All,
  All-append, ◌∙◌, ok, Bool-cases, inl, inr, find, some, ◌&&◌,
}
use mathlib.Core.Path.{subst, subst₂}
use ledgerops.Prelude.Int.{ℤ, pos, pos_part, neg_part, eq_of_parts, ◌+ℤ◌, ◌≤ℤ◌, int_laws}
use ledgerops.Prelude.Int64.{is_int64}
use ledgerops.Domain.Account.{wallet}
use ledgerops.Domain.Posting.{BalanceDelta}
use ledgerops.Postgres.Tables.{Db, AccountRow, EntryRow}
use ledgerops.Postgres.Accounts.{has_key, matches, add_balance, update_where, apply_delta}
use ledgerops.Books.Sums.{
  has_key_eq, total, total-append, IsUnique, update_where-IsUnique, one_hit-KeysHit, no_key-no_hit,
  update_where-any-key,
}
use ledgerops.Books.Sound.{
  Covered, Owned, IsSound, Belongs, update_where-Stored, update_where-Covered,
}

-- What a delta that the database accepts has done.
pub record Updated (t : String) (delta : BalanceDelta) (d d' : Db) : Type 0 where
  pub one_row : length (select (matches t delta) d.accounts) ≡ 1
  pub in_range :
      any (λ r. matches t delta r && not (is_int64 (add_balance delta r).balance_minor)) d.accounts
      ≡ false
  pub tables :
      d' ≡ record d { accounts = update_where (matches t delta) (add_balance delta) d.accounts }

pub apply_delta-Updated :
    (t : String) (delta : BalanceDelta) (d : Db) {d' : Db}
    → apply_delta t delta d ≡ ok (tt, d')
    → Updated t delta d d'
unfolding apply_delta
apply_delta-Updated t delta d h = ground arith

-- A balance that the payer's wallets can spare.
abbrev pub Spares : String → BalanceDelta → List AccountRow → Type 0
Spares t delta rows =
    All
      (λ r.
        matches t delta r ≡ true
        → r.kind ≡ wallet
        → pos 0 ≤ℤ r.balance_minor +ℤ delta.delta.minor_units)
      rows

gains : (a b : ℤ) → pos 0 ≤ℤ a → pos 0 ≤ℤ b → pos 0 ≤ℤ a +ℤ b
gains a b h k = omega int_laws

-- What the only row of a key can bear, as far as the range of the column allows, the rows that a
-- delta hits can spare.
pub found-Spares :
    (t : String) (delta : BalanceDelta) (rows : List AccountRow)
    → All
        (λ r.
          has_key t delta.account_id r ≡ true
          → is_int64 (r.balance_minor +ℤ delta.delta.minor_units) ≡ true
          → r.kind ≡ wallet
          → pos 0 ≤ℤ r.balance_minor +ℤ delta.delta.minor_units)
        rows
    → any (λ r. matches t delta r && not (is_int64 (add_balance delta r).balance_minor)) rows
      ≡ false
    → Spares t delta rows
found-Spares t delta [] h o = tt
found-Spares t delta (r ∷ rows) h o =
    (λ m w. h.0 (ground arith) (ground arith) w, found-Spares t delta rows h.1 (ground arith))

-- A credit spares every covered wallet.
pub credit-Spares :
    (t : String) (delta : BalanceDelta) (rows : List AccountRow)
    → pos 0 ≤ℤ delta.delta.minor_units
    → Covered rows
    → Spares t delta rows
credit-Spares t delta [] p h = tt
credit-Spares t delta (r ∷ rows) p h = (
  λ _ w. gains r.balance_minor delta.delta.minor_units (h.0 w) p,
  credit-Spares t delta rows p h.1,
)

-- With no row of a key, all rows of that key satisfy anything.
none_of_key :
    (t id : String) (rows : List AccountRow)
    → any (has_key t id) rows ≡ false
    → (Q : AccountRow → Type 0) → All (λ r. has_key t id r ≡ true → Q r) rows
none_of_key t id [] h Q = tt
none_of_key t id (r ∷ rows) h Q = (λ k. ground arith, none_of_key t id rows (ground arith) Q)

-- What holds of the row that a key finds holds of every row of the key.
pub found_only :
    (t id : String) (rows : List AccountRow) (r0 : AccountRow) (Q : AccountRow → Type 0)
    → IsUnique rows
    → find (has_key t id) rows ≡ some r0
    → Q r0
    → All (λ r. has_key t id r ≡ true → Q r) rows
found_only t id [] r0 Q u f q = cc
found_only t id (r ∷ rows) r0 Q u f q = elim (Bool-cases (has_key t id r)) [
  | inl k ↦
      let e = has_key_eq t id r k in
      let same : r0 ≡ r = ground arith in
      (
        λ _. subst Q same q,
        none_of_key t id rows (subst₂ (λ a b. any (has_key a b) rows ≡ false) e.0 e.1 u.0) Q,
      )
  | inr k ↦ (λ e. ground arith, found_only t id rows r0 Q u.1 (ground arith) q)
]

cancels : (a b c : ℤ) → a ≡ pos 0 → b +ℤ c ≡ pos 0 → a +ℤ b +ℤ c ≡ pos 0
cancels a b c h k =
    eq_of_parts (a +ℤ b +ℤ c) (pos 0)
      (omega (int_laws, ap pos_part h, ap neg_part h, ap pos_part k, ap neg_part k))

-- An update of balances keeps every key.
update_where-Owned :
    (t : String) (delta : BalanceDelta) (rows : List AccountRow) (entries : List EntryRow)
    → Owned rows entries
    → Owned (update_where (matches t delta) (add_balance delta) rows) entries
update_where-Owned t delta rows [] h = tt
update_where-Owned t delta rows (e ∷ entries) h = (
  update_where-any-key e.tenant_id e.account_id t delta rows ∙ h.0,
  update_where-Owned t delta rows entries h.1,
)

Owned-last :
    (rows : List AccountRow) (entries : List EntryRow) (e : EntryRow)
    → Owned rows entries
    → any (has_key e.tenant_id e.account_id) rows ≡ true
    → Owned rows (entries ++ e ∷ [])
Owned-last rows entries e h k =
    All-append (λ x. any (has_key x.tenant_id x.account_id) rows ≡ true) entries (e ∷ []) h (k, tt)

-- An entry whose delta has hit a row belongs to an account.
hit-owned :
    (t : String) (delta : BalanceDelta) (rows : List AccountRow) (e : EntryRow)
    → Belongs t delta e
    → length (select (matches t delta) rows) ≡ 1
    → any (has_key e.tenant_id e.account_id) rows ≡ true
hit-owned t delta rows e b hit = elim (Bool-cases (any (has_key t delta.account_id) rows)) [
  | inl h ↦ rw (b.tenant, b.account) h
  | inr h ↦ let none = no_key-no_hit t delta rows h in absurd (omega arith)
]

-- The movement as a whole.
module _ (t : String) (d : Db) (debit credit : BalanceDelta) (e1 e2 : EntryRow) (sound : IsSound d)
    (b1 : Belongs t debit e1) (b2 : Belongs t credit e2)
    (zero_sum : e1.amount_minor +ℤ e2.amount_minor ≡ pos 0)
    (gain : pos 0 ≤ℤ credit.delta.minor_units) (spared : Spares t debit d.accounts) where
  abbrev pub debited_rows : List AccountRow
  debited_rows = update_where (matches t debit) (add_balance debit) d.accounts

  pub movement-IsSound :
      (d' : Db)
      → length (select (matches t debit) d.accounts) ≡ 1
      → length (select (matches t credit) debited_rows) ≡ 1
      → d'.accounts ≡ update_where (matches t credit) (add_balance credit) debited_rows
      → d'.entries ≡ (d.entries ++ e1 ∷ []) ++ e2 ∷ []
      → d'.transfer_states ≡ d.transfer_states
      → IsSound d'
  movement-IsSound d' hit1 hit2 ea ee et =
      let u1 = update_where-IsUnique t debit d.accounts sound.unique in
      let k1 = one_hit-KeysHit t debit d.accounts sound.unique hit1 in
      let k2 = one_hit-KeysHit t credit debited_rows u1 hit2 in
      let s1 = update_where-Stored t debit e1 d.entries d.accounts b1 k1 sound.stored in
      let c1 = update_where-Covered t debit d.accounts spared sound.covered in
      record {
        unique = rw ea (update_where-IsUnique t credit debited_rows u1);
        stored =
            rw (ea, ee)
              (update_where-Stored t credit e2 (d.entries ++ e1 ∷ []) debited_rows b2 k2 s1);
        covered = rw ea (
            update_where-Covered t credit debited_rows (credit-Spares t credit debited_rows gain c1)
              c1);
        balanced =
            rw (ee, total-append (d.entries ++ e1 ∷ []) e2, total-append d.entries e1)
              (cancels (total d.entries) e1.amount_minor e2.amount_minor sound.balanced zero_sum);
        owned =
            rw (ea, ee)
              (update_where-Owned t credit debited_rows _ (
                Owned-last debited_rows (d.entries ++ e1 ∷ []) e2
                  (update_where-Owned t debit d.accounts (d.entries ++ e1 ∷ []) (
                    Owned-last d.accounts d.entries e1 sound.owned
                      (hit-owned t debit d.accounts e1 b1 hit1)))
                  (hit-owned t credit debited_rows e2 b2 hit2)));
        ranged = rw et sound.ranged;
      }
