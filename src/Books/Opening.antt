-- ===== src/Books/Opening.antt =====
-- A new account, opened at zero, keeps the books sound.
use ledgerops.Prelude.{
  String, ◌≡◌, refl, sym, ◌∙◌, Bool, true, false, List, [], ◌∷◌, ◌++◌, eq_iff, arith, any,
  All-append, Bool-cases, inl, inr, ok,
}
use mathlib.Core.Path.{subst, subst₂}
use ledgerops.Prelude.Int.{pos, ◌≤ℤ◌, int_laws}
use ledgerops.Domain.Account.{Account, wallet}
use ledgerops.Postgres.Tables.{Db, AccountRow, EntryRow}
use ledgerops.Postgres.Accounts
use ledgerops.Postgres.Accounts.{has_key, account_row}
use ledgerops.Books.Sums.{concerns, entry_sum, IsUnique}
use ledgerops.Books.Sound.{IsSound, Owned}

any-append_left :
    (p : AccountRow → Bool) (xs ys : List AccountRow) → any p xs ≡ true → any p (xs ++ ys) ≡ true
any-append_left p [] ys h = cc
any-append_left p (x ∷ xs) ys h = ground (arith, any-append_left p xs ys)

any-append_none :
    (p : AccountRow → Bool) (xs : List AccountRow) (x : AccountRow)
    → any p xs ≡ false
    → p x ≡ false
    → any p (xs ++ x ∷ []) ≡ false
any-append_none p [] x h k = ground arith
any-append_none p (y ∷ xs) x h k = ground (arith, any-append_none p xs x)

has_key_flip :
    (r x : AccountRow) → has_key x.tenant_id x.id r ≡ false → has_key r.tenant_id r.id x ≡ false
has_key_flip r x h = ground (
  arith,
  eq_iff r.tenant_id x.tenant_id,
  eq_iff r.id x.id,
  eq_iff x.tenant_id r.tenant_id,
  eq_iff x.id r.id,
)

IsUnique-last :
    (rows : List AccountRow) (x : AccountRow)
    → IsUnique rows
    → any (has_key x.tenant_id x.id) rows ≡ false
    → IsUnique (rows ++ x ∷ [])
IsUnique-last [] x u h = (refl, tt)
IsUnique-last (r ∷ rows) x u h = (
  any-append_none (has_key r.tenant_id r.id) rows x u.0 (has_key_flip r x (ground arith)),
  IsUnique-last rows x u.1 (ground arith),
)

concerns_key :
    (t id : String) (e : EntryRow)
    → concerns t id e ≡ true
    → (e.tenant_id ≡ t) × (e.account_id ≡ id)
concerns_key t id e h = ground (arith, eq_iff e.tenant_id t, eq_iff e.account_id id)

-- An account that does not exist has no entries.
entry_sum_absent :
    (t id : String) (rows : List AccountRow) (entries : List EntryRow)
    → Owned rows entries
    → any (has_key t id) rows ≡ false
    → entry_sum t id entries ≡ pos 0
entry_sum_absent t id rows [] o h = refl
entry_sum_absent t id rows (e ∷ entries) o h = elim (Bool-cases (concerns t id e)) [
  | inl c ↦
      let (a, b) = concerns_key t id e c in
      let here = subst₂ (λ x y. any (has_key x y) rows ≡ true) a b o.0 in absurd (ground arith)
  | inr c ↦ rw (c, entry_sum_absent t id rows entries o.1 h) (omega int_laws)
]

Owned-more :
    (rows : List AccountRow) (x : AccountRow) (entries : List EntryRow)
    → Owned rows entries
    → Owned (rows ++ x ∷ []) entries
Owned-more rows x [] o = tt
Owned-more rows x (e ∷ entries) o = (
  any-append_left (has_key e.tenant_id e.account_id) rows (x ∷ []) o.0,
  Owned-more rows x entries o.1,
)

-- What an INSERT of an account that succeeds has done.
create-eq-ok :
    (t : String) (a : Account) (d : Db) {u : Unit {0}} {d' : Db}
    → Accounts.create t a d ≡ ok (u, d')
    → (any (has_key t a.id) d.accounts ≡ false)
      × (d' ≡ record d { accounts = d.accounts ++ account_row t a ∷ [] })
unfolding Accounts.create
create-eq-ok t a d h = ground arith

pub create-IsSound :
    (t : String) (a : Account) (d : Db) {u : Unit {0}} {d' : Db}
    → a.balance.minor_units ≡ pos 0
    → IsSound d
    → Accounts.create t a d ≡ ok (u, d')
    → IsSound d'
create-IsSound t a d {u} {d'} zero s h =
    let (absent, made) = create-eq-ok t a d h in
    let row = account_row t a in
    let empty : row.balance_minor ≡ entry_sum t a.id d.entries =
      zero ∙ sym (entry_sum_absent t a.id d.accounts d.entries s.owned absent) in
    rw made (record {
      unique = IsUnique-last d.accounts row s.unique absent;
      stored =
          All-append (λ r. r.balance_minor ≡ entry_sum r.tenant_id r.id d.entries) d.accounts
            (row ∷ []) s.stored (empty, tt);
      covered =
          All-append (λ r. r.kind ≡ wallet → pos 0 ≤ℤ r.balance_minor) d.accounts (row ∷ [])
            s.covered (λ w. subst (λ z. pos 0 ≤ℤ z) (sym zero) (omega arith), tt);
      balanced = s.balanced;
      owned = Owned-more d.accounts row d.entries s.owned;
      ranged = s.ranged;
    })
