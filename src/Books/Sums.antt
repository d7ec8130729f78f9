-- ===== src/Books/Sums.antt =====
-- Sums over the entries table, and keys of the accounts table.
use ledgerops.Prelude.{
  String, ◌≡◌, refl, Bool, true, false, ◌&&◌, List, [], ◌∷◌, ◌++◌, ◌==◌, eq_iff, arith,
  if◌then◌else◌, any, select, length, All, Bool-cases, inl, inr,
}
use mathlib.Core.Path.{subst₂}
use ledgerops.Prelude.Int.{ℤ, pos, ◌+ℤ◌, int_laws}
use ledgerops.Postgres.Tables.{AccountRow, EntryRow}
use ledgerops.Postgres.Accounts.{has_key, matches, add_balance, update_where}
use ledgerops.Domain.Posting.{BalanceDelta}

-- The entries of one account.
abbrev pub concerns : String → String → EntryRow → Bool
concerns tenant_id id e = e.tenant_id == tenant_id && e.account_id == id

-- The sum of one account's entries.
abbrev pub entry_sum : String → String → List EntryRow → ℤ
entry_sum tenant_id id [] = pos 0
entry_sum tenant_id id (e ∷ entries) =
    (if concerns tenant_id id e then e.amount_minor else pos 0) +ℤ entry_sum tenant_id id entries

-- The sum of all entries.
abbrev pub total : List EntryRow → ℤ
total [] = pos 0
total (e ∷ entries) = e.amount_minor +ℤ total entries

pub entry_sum-append :
    (t id : String) (entries : List EntryRow) (e : EntryRow)
    → entry_sum t id (entries ++ e ∷ [])
      ≡ entry_sum t id entries +ℤ (if concerns t id e then e.amount_minor else pos 0)
entry_sum-append t id [] e = omega int_laws
entry_sum-append t id (x ∷ entries) e = rw (entry_sum-append t id entries e) (omega int_laws)

pub total-append :
    (entries : List EntryRow) (e : EntryRow)
    → total (entries ++ e ∷ []) ≡ total entries +ℤ e.amount_minor
total-append [] e = omega int_laws
total-append (x ∷ entries) e = rw (total-append entries e) (omega int_laws)

-- No two rows of the accounts table have one key.
abbrev pub IsUnique : List AccountRow → Type 0
IsUnique [] = Unit
IsUnique (r ∷ rows) = (any (has_key r.tenant_id r.id) rows ≡ false) × IsUnique rows

pub update_where-any-key :
    (t id t' : String) (delta : BalanceDelta) (rows : List AccountRow)
    → any (has_key t id) (update_where (matches t' delta) (add_balance delta) rows)
      ≡ any (has_key t id) rows
update_where-any-key t id t' delta [] = refl
update_where-any-key t id t' delta (r ∷ rows) =
    ground (arith, update_where-any-key t id t' delta rows)

pub update_where-IsUnique :
    (t : String) (delta : BalanceDelta) (rows : List AccountRow)
    → IsUnique rows
    → IsUnique (update_where (matches t delta) (add_balance delta) rows)
update_where-IsUnique t delta [] h = tt
update_where-IsUnique t delta (r ∷ rows) h = ground (
  arith,
  update_where-any-key r.tenant_id r.id t delta rows,
  update_where-IsUnique t delta rows h.1,
)

-- With no row of a key, an update of that key hits nothing.
pub no_key-no_hit :
    (t : String) (delta : BalanceDelta) (rows : List AccountRow)
    → any (has_key t delta.account_id) rows ≡ false
    → length (select (matches t delta) rows) ≡ 0
no_key-no_hit t delta [] h = refl
no_key-no_hit t delta (r ∷ rows) h = ground (arith, no_key-no_hit t delta rows)

-- Where one row is hit, every row of the key is hit: it is that row.
abbrev pub KeysHit : String → BalanceDelta → List AccountRow → Type 0
KeysHit t delta rows =
    All (λ r. has_key t delta.account_id r ≡ true → matches t delta r ≡ true) rows

pub no_key-KeysHit :
    (t : String) (delta : BalanceDelta) (rows : List AccountRow)
    → any (has_key t delta.account_id) rows ≡ false
    → KeysHit t delta rows
no_key-KeysHit t delta [] h = tt
no_key-KeysHit t delta (r ∷ rows) h =
    (λ k. ground arith, no_key-KeysHit t delta rows (ground arith))

pub has_key_eq :
    (t id : String) (r : AccountRow) → has_key t id r ≡ true → (r.tenant_id ≡ t) × (r.id ≡ id)
has_key_eq t id r h = ground (arith, eq_iff r.tenant_id t, eq_iff r.id id)

pub one_hit-KeysHit :
    (t : String) (delta : BalanceDelta) (rows : List AccountRow)
    → IsUnique rows
    → length (select (matches t delta) rows) ≡ 1
    → KeysHit t delta rows
one_hit-KeysHit t delta [] u h = tt
one_hit-KeysHit t delta (r ∷ rows) u h = elim (Bool-cases (has_key t delta.account_id r)) [
  | inl k ↦
      let e = has_key_eq t delta.account_id r k in
      let absent = subst₂ (λ a b. any (has_key a b) rows ≡ false) e.0 e.1 u.0 in
      (λ _. ground (arith, no_key-no_hit t delta rows absent), no_key-KeysHit t delta rows absent)
  | inr k ↦ (λ e. ground arith, one_hit-KeysHit t delta rows u.1 (ground arith))
]
