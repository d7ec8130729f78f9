-- ===== src/App/Reading/Drifts.antt =====
-- What the verification of the books finds (`driftedAccounts` of internal/app/usecases.go).
use ledgerops.Prelude.{
  ◌≡◌, refl, ap, ◌∙◌, ◌↔◌, true, List, [], ◌∷◌, All, eq_iff, arith, ok, Result-cases, Bool-cases,
  inl, inr,
}
use ledgerops.Prelude.Int.{eqb_ℤ_iff}
use ledgerops.Domain.Violation.{Money}
use ledgerops.Domain.Money.{money_eq, add, negate}
use ledgerops.Domain.Account.{Account}
use ledgerops.Postgres.Balances.{Balances}
use ledgerops.App.Reading.{computed_or_zero, drifted_accounts}

money_eq_iff : (a b : Money) → (money_eq a b ≡ true) ↔ (a ≡ b)
unfolding money_eq
money_eq_iff a b =
    ground (arith, eqb_ℤ_iff a.minor_units b.minor_units, eq_iff a.currency b.currency)

-- The stored balance of an account is what its entries add up to.
abbrev pub Agrees : Balances → Account → Type 0
Agrees computed a = computed_or_zero a computed ≡ ok a.balance

no_drift-Agrees :
    (accounts : List Account) (computed : Balances)
    → drifted_accounts accounts computed ≡ ok []
    → All (Agrees computed) accounts
unfolding drifted_accounts
no_drift-Agrees [] computed h = tt
no_drift-Agrees (a ∷ accounts) computed h = elim (Result-cases (computed_or_zero a computed)) [
  | inl (v, e) ↦ absurd (ground arith)
  | inr (m, e) ↦ elim (Bool-cases (money_eq m a.balance)) [
    | inl k ↦ (
      e ∙ ap ok ((money_eq_iff m a.balance).0 k),
      no_drift-Agrees accounts computed (ground arith),
    )
    | inr k ↦ elim (Result-cases (add m (negate a.balance))) [
      | inl (v, f) ↦ absurd (ground arith)
      | inr (d, f) ↦ elim (Result-cases (drifted_accounts accounts computed)) [
        | inl (v, g) ↦ absurd (ground arith)
        | inr (ds, g) ↦ absurd (ground arith)
      ]
    ]
  ]
]

Agrees-no_drift :
    (accounts : List Account) (computed : Balances)
    → All (Agrees computed) accounts
    → drifted_accounts accounts computed ≡ ok []
unfolding drifted_accounts
Agrees-no_drift [] computed h = refl
Agrees-no_drift (a ∷ accounts) computed h =
    ground
      (arith, h.0, (money_eq_iff a.balance a.balance).1 refl, Agrees-no_drift accounts computed h.1)

-- No account is reported as drifted exactly where the stored balance of each account equals its
-- computed balance, or zero in its currency where it has no entries.
pub drifted_accounts_iff :
    (accounts : List Account) (computed : Balances)
    → (drifted_accounts accounts computed ≡ ok []) ↔ All (Agrees computed) accounts
drifted_accounts_iff accounts computed =
    (no_drift-Agrees accounts computed, Agrees-no_drift accounts computed)
