-- ===== src/Books/TrialBalance.antt =====
-- The trial balance over all tenants (`TrialBalance` of internal/adapters/postgres/transactions.go).
use ledgerops.Prelude.{
  ℕ, String, ◌+◌, suc, ◌≡◌, refl, sym, ap, ◌∙◌, true, List, [], ◌∷◌, ◌==◌, select, length, arith,
  ok, Bool-cases, Result-cases, inl, inr,
}
use ledgerops.Prelude.Int.{ℤ, pos, ◌+ℤ◌, int_laws}
use ledgerops.Prelude.Int64.{
  IsInt64, is_int64, add64, wrap64, wrap64_id, wrap64-add64, add64-IsInt64,
}
use ledgerops.Ports.Vocabulary.{unscoped}
use ledgerops.Postgres.Tables.{Db, EntryRow}
use ledgerops.Postgres.Accounts.{in_scope}
use ledgerops.Postgres.Balances.{
  CurrencySum, add_to_currency, group_by_currency, add_rows, balance_of, total_of, trial_balance,
}
use ledgerops.Books.Sums.{total}
use ledgerops.Books.Sound.{IsSound}
use ledgerops.Domain.Violation.{Money}
use ledgerops.Domain.Money.{new_money}

abbrev sums : List CurrencySum → ℤ
sums [] = pos 0
sums (g ∷ groups) = g.sum +ℤ sums groups

abbrev counts : List CurrencySum → ℕ
counts [] = 0
counts (g ∷ groups) = g.count + counts groups

sums-add_to_currency :
    (e : EntryRow) (groups : List CurrencySum)
    → sums (add_to_currency e groups) ≡ sums groups +ℤ e.amount_minor
sums-add_to_currency e [] = omega int_laws
sums-add_to_currency e (g ∷ groups) = elim (Bool-cases (g.currency == e.currency)) [
  | inl t ↦ rw t (omega int_laws)
  | inr f ↦ rw f (rw (sums-add_to_currency e groups) (omega int_laws))
]

counts-add_to_currency :
    (e : EntryRow) (groups : List CurrencySum)
    → counts (add_to_currency e groups) ≡ suc (counts groups)
counts-add_to_currency e [] = refl
counts-add_to_currency e (g ∷ groups) = elim (Bool-cases (g.currency == e.currency)) [
  | inl t ↦ rw t (omega arith)
  | inr f ↦ rw f (rw (counts-add_to_currency e groups) (omega arith))
]

sums-group :
    (groups : List CurrencySum) (entries : List EntryRow)
    → sums (group_by_currency groups entries) ≡ sums groups +ℤ total entries
sums-group groups [] = omega int_laws
sums-group groups (e ∷ entries) =
    rw (sums-group (add_to_currency e groups) entries)
      (rw (sums-add_to_currency e groups) (omega int_laws))

counts-group :
    (groups : List CurrencySum) (entries : List EntryRow)
    → counts (group_by_currency groups entries) ≡ counts groups + length entries
counts-group groups [] = omega arith
counts-group groups (e ∷ entries) =
    rw (counts-group (add_to_currency e groups) entries)
      (rw (counts-add_to_currency e groups) (omega arith))

pub select-unscoped :
    (entries : List EntryRow) → select (λ e. in_scope unscoped e.tenant_id) entries ≡ entries
select-unscoped [] = refl
select-unscoped (e ∷ entries) = ap (λ es. e ∷ es) (select-unscoped entries)

added_last : {sum x : ℤ} {count k : ℕ} → add_rows sum count [] ≡ ok (x, k) → (sum ≡ x) × (count ≡ k)
added_last h = (cc h, cc h)

-- The sums are added with wrap-around, and the counts are added.
add_rows-sums :
    (sum : ℤ) (count : ℕ) (groups : List CurrencySum) {x : ℤ} {k : ℕ}
    → IsInt64 sum
    → add_rows sum count groups ≡ ok (x, k)
    → (x ≡ wrap64 (sum +ℤ sums groups)) × (k ≡ count + counts groups)
add_rows-sums sum count [] {x} {k} r h =
    let (a, b) = added_last h in
    (sym a ∙ sym (wrap64_id sum r) ∙ ap wrap64 (omega int_laws), sym b ∙ omega arith)
add_rows-sums sum count (g ∷ groups) {x} {k} r h = elim (Bool-cases (is_int64 g.sum)) [
  | inl t ↦
      let (a, b) =
        add_rows-sums (add64 sum g.sum) (count + g.count) groups (add64-IsInt64 sum g.sum)
          (counted t) in
      (a ∙ wrap64-add64 sum g.sum (sums groups), b ∙ omega arith)
  | inr f ↦ absurd (ground arith)
]
  where
    counted :
        is_int64 g.sum ≡ true → add_rows (add64 sum g.sum) (count + g.count) groups ≡ ok (x, k)
    counted t = ground arith

balance_of-eq-ok :
    (sum : ℤ) (currency : String) (count : ℕ) {m : Money} {n : ℕ}
    → balance_of sum currency count ≡ ok (m, n)
    → (m.minor_units ≡ sum) × (n ≡ count)
unfolding new_money
balance_of-eq-ok sum currency count h = ground arith

total_of-sums :
    (groups : List CurrencySum) {m : Money} {n : ℕ}
    → total_of groups ≡ ok (m, n)
    → (m.minor_units ≡ wrap64 (sums groups)) × (n ≡ counts groups)
total_of-sums [] h =
    let (a, b) = balance_of-eq-ok (pos 0) "USD" 0 h in
    (a ∙ sym (wrap64_id (pos 0) (omega arith, omega arith)), b)
total_of-sums (g ∷ groups) {m} {n} h = elim (Bool-cases (is_int64 g.sum)) [
  | inr f ↦ absurd (ground arith)
  | inl t ↦ elim (Result-cases (add_rows g.sum g.count groups)) [
    | inl (e, k) ↦ absurd (ground arith)
    | inr ((sum, count), k) ↦
        let (a, b) = balance_of-eq-ok sum g.currency count (answered sum count t k) in
        let (c, d) = add_rows-sums g.sum g.count groups (ground arith) k in (a ∙ c, b ∙ d)
  ]
]
  where
    answered :
        (sum : ℤ) (count : ℕ)
        → is_int64 g.sum ≡ true
        → add_rows g.sum g.count groups ≡ ok (sum, count)
        → balance_of sum g.currency count ≡ ok (m, n)
    answered sum count t k = sym (rw t (rw k refl)) ∙ h

-- The trial balance over all tenants, of sound books, is zero, and it counts every entry.
pub trial_balance_zero :
    {db : Db} {m : Money} {n : ℕ}
    → IsSound db
    → trial_balance unscoped db ≡ ok (m, n)
    → (m.minor_units ≡ pos 0) × (n ≡ length db.entries)
unfolding trial_balance
trial_balance_zero {db} s h =
    let (a, b) = total_of-sums _ h in
    (
      a
          ∙ ap wrap64 (
              sums-group [] _
              ∙ ap (λ es. pos 0 +ℤ total es) (select-unscoped db.entries)
              ∙ ap (λ t. pos 0 +ℤ t) s.balanced
              ∙ omega int_laws)
          ∙ wrap64_id (pos 0) (omega arith, omega arith),
      b
          ∙ counts-group [] (select (λ e. in_scope unscoped e.tenant_id) db.entries)
          ∙ omega (arith, ap length (select-unscoped db.entries)),
    )
