-- ===== src/Books/Drift.antt =====
-- What `driftedAccounts` of internal/app/usecases.go finds, on the balances that `ComputedBalances`
-- of internal/adapters/postgres/transactions.go computes from the entries.
use mathlib.Core.Path.{subst}
use ledgerops.Prelude.{
  String, ◌≡◌, refl, sym, ap, ◌∙◌, ◌↔◌, ◌⊎◌, inl, inr, true, false, ◌&&◌, ◌==◌, Bool-cases, Option,
  none, some, List, [], ◌∷◌, All, eq_iff, arith, Result-cases, Result, ok, err, if◌then◌else◌,
}
use ledgerops.Prelude.Int.{ℤ, pos, ◌+ℤ◌, int_laws}
use ledgerops.Prelude.Int64.{is_int64}
use ledgerops.Domain.Violation.{Money, Violation}
use ledgerops.Domain.Money.{new_money}
use ledgerops.Domain.Account.{Account}
use ledgerops.Ports.Vocabulary.{unscoped}
use ledgerops.Postgres.Tables.{Db, EntryRow}
use ledgerops.Postgres.Balances.{
  AccountSum, Balances, in_group, add_to_account, group_by_account, fill, balance_at,
  computed_balances,
}
use ledgerops.App.Reading.{computed_or_zero, zero_money, drifted_accounts}
use ledgerops.App.Reading.Drifts.{Agrees, drifted_accounts_iff}
use ledgerops.Books.Sums.{concerns, entry_sum}
use ledgerops.Books.TrialBalance.{select-unscoped}

module _ (t id cur : String) where
  -- The groups of one account: there is none, or one, which is in its currency.
  abbrev Holding : List AccountSum → Option ℤ → Type 0
  Holding [] o = o ≡ none
  Holding (g ∷ gs) o =
      (((g.tenant_id == t && g.account_id == id) ≡ false) × Holding gs o)
      ⊎ (((g.tenant_id == t && g.account_id == id) ≡ true)
          × (g.currency ≡ cur)
          × (o ≡ some g.sum)
          × Holding gs none)

  abbrev or_zero : Option ℤ → ℤ
  or_zero none = pos 0
  or_zero (some x) = x

  abbrev after : EntryRow → Option ℤ → Option ℤ
  after e o = if concerns t id e then some (or_zero o +ℤ e.amount_minor) else o

  same_key :
      (e : EntryRow) (g : AccountSum)
      → in_group e g ≡ true
      → ((g.tenant_id == t && g.account_id == id) ≡ concerns t id e) × (g.currency ≡ e.currency)
  same_key e g h = ground (
    arith,
    eq_iff g.tenant_id e.tenant_id,
    eq_iff g.account_id e.account_id,
    eq_iff g.currency e.currency,
    eq_iff g.tenant_id t,
    eq_iff g.account_id id,
    eq_iff e.tenant_id t,
    eq_iff e.account_id id,
  )

  one_group :
      (e : EntryRow) (g : AccountSum)
      → (g.tenant_id == t && g.account_id == id) ≡ true
      → concerns t id e ≡ true
      → g.currency ≡ e.currency
      → in_group e g ≡ true
  one_group e g k c m = ground (
    arith,
    eq_iff g.tenant_id e.tenant_id,
    eq_iff g.account_id e.account_id,
    eq_iff g.currency e.currency,
    eq_iff g.tenant_id t,
    eq_iff g.account_id id,
    eq_iff e.tenant_id t,
    eq_iff e.account_id id,
  )

  zero_plus : (x : ℤ) → pos 0 +ℤ x ≡ x
  zero_plus x = omega int_laws

  add-Holding :
      (e : EntryRow) (gs : List AccountSum) (o : Option ℤ)
      → (concerns t id e ≡ true → e.currency ≡ cur)
      → Holding gs o
      → Holding (add_to_account e gs) (after e o)
  add-Holding e [] o h k = elim (Bool-cases (concerns t id e)) [
    | inl c ↦ inr (c, h c, rw c (rw k (ap some (zero_plus e.amount_minor))), refl)
    | inr c ↦ inl (c, rw c k)
  ]
  add-Holding e (g ∷ gs) o h k = elim (Bool-cases (in_group e g)) [
    | inl m ↦
        let (key, money) = same_key e g m in
        rw m (elim k [
          | inl (f, rest) ↦ inl (f, rw (sym key ∙ f) rest)
          | inr (f, c, v, rest) ↦ inr (f, c, rw (sym key ∙ f) (rw v refl), rest)
        ])
    | inr m ↦ rw m (elim k [
      | inl (f, rest) ↦ inl (f, add-Holding e gs o h rest)
      | inr (f, c, v, rest) ↦ elim (Bool-cases (concerns t id e)) [
        | inl d ↦ absurd (cc (one_group e g f d (c ∙ sym (h d)), m))
        | inr d ↦ inr (
          f,
          c,
          rw d v,
          subst (Holding (add_to_account e gs)) (rw d refl) (add-Holding e gs none h rest),
        )
      ]
    ])
  ]

  -- The entries of the account are in its currency.
  abbrev pub InCurrency : List EntryRow → Type 0
  InCurrency entries = All (λ e. concerns t id e ≡ true → e.currency ≡ cur) entries

  after_sum :
      (e : EntryRow) (o : Option ℤ)
      → or_zero (after e o) ≡ or_zero o +ℤ (if concerns t id e then e.amount_minor else pos 0)
  after_sum e o = elim (Bool-cases (concerns t id e)) [
    | inl c ↦ rw c refl
    | inr c ↦ rw c (omega int_laws)
  ]

  group-Holding :
      (entries : List EntryRow) (gs : List AccountSum) (o : Option ℤ)
      → InCurrency entries
      → Holding gs o
      → (p : Option ℤ) × Holding (group_by_account gs entries) p
        × (or_zero p ≡ or_zero o +ℤ entry_sum t id entries)
  group-Holding [] gs o h k = (o, k, omega int_laws)
  group-Holding (e ∷ entries) gs o h k =
      let (p, q, r) =
        group-Holding entries (add_to_account e gs) (after e o) h.1 (add-Holding e gs o h.0 k) in
      (p, q, r ∙ ap (λ x. x +ℤ entry_sum t id entries) (after_sum e o) ∙ omega int_laws)

  -- What the map has of the account: what it had before the groups, or the sum of its group.
  abbrev Filled : Option ℤ → Balances → Balances → Type 0
  Filled none balances computed = balance_at t id computed ≡ balance_at t id balances
  Filled (some x) balances computed =
      balance_at t id computed ≡ some (record { minor_units = x; currency = cur })

  new_money-fields :
      (x : ℤ) (currency : String) {m : Money}
      → new_money x currency ≡ ok m
      → m ≡ record { minor_units = x; currency = currency }
  unfolding new_money
  new_money-fields x currency h = ground arith

  skipped :
      (o : Option ℤ) (g : AccountSum) (m : Money) (balances computed : Balances)
      → (g.tenant_id == t && g.account_id == id) ≡ false
      → Filled o
          ((record { tenant_id = g.tenant_id; account_id = g.account_id }, m) ∷ balances)
          computed
      → Filled o balances computed
  skipped none g m balances computed key h = h ∙ rw key refl
  skipped (some x) g m balances computed key h = h

  fill-Filled :
      (gs : List AccountSum) (o : Option ℤ) (balances : Balances) {computed : Balances}
      → Holding gs o
      → fill balances gs ≡ ok computed
      → Filled o balances computed
  fill-Filled [] o balances {computed} k h =
      subst (λ p. Filled p balances computed) (sym k) (ap (balance_at t id) (cc h))
  fill-Filled (g ∷ gs) o balances {computed} k h = elim (Bool-cases (is_int64 g.sum)) [
    | inr f ↦ absurd (ground arith)
    | inl f ↦ elim (Result-cases (new_money g.sum g.currency)) [
      | inl (v, e) ↦ absurd (ground arith)
      | inr (m, e) ↦
          let more =
            (record { tenant_id = g.tenant_id; account_id = g.account_id }, m) ∷ balances in
          let rest : fill more gs ≡ ok computed = rw (sym h) (rw f (rw e refl)) in
          elim k [
            | inl (key, held) ↦
                skipped o g m balances computed key (fill-Filled gs o more held rest)
            | inr (key, c, v, held) ↦
                let hit : balance_at t id more ≡ some m = rw key refl in
                let sum : m ≡ record { minor_units = g.sum; currency = cur } =
                  new_money-fields g.sum g.currency e
                  ∙ ap (λ x. record { minor_units = g.sum; currency = x }) c in
                subst (λ p. Filled p balances computed) (sym v)
                  (fill-Filled gs none more held rest ∙ hit ∙ ap some sum)
          ]
    ]
  ]

  -- The computed balance of an account, or zero where it has no entries, is what its entries sum to.
  computed_sum :
      (db : Db) {computed : Balances}
      → InCurrency db.entries
      → computed_balances unscoped db ≡ ok computed
      → (p : Option ℤ) × Filled p [] computed × (or_zero p ≡ entry_sum t id db.entries)
  unfolding computed_balances
  computed_sum db {computed} h k =
      let groups = group_by_account [] db.entries in
      let filled : fill [] groups ≡ ok computed =
        ap (λ es. fill [] (group_by_account [] es)) (sym (select-unscoped db.entries)) ∙ k in
      let (p, held, sum) = group-Holding db.entries [] none h refl in
      (p, fill-Filled groups p [] held filled, sum ∙ zero_plus (entry_sum t id db.entries))

-- An account in a currency of the ledger, all of whose entries are in it.
pub record IsKept (entries : List EntryRow) (a : Account) : Type 0 where
  pub entries_in : InCurrency a.tenant_id a.id a.balance.currency entries
  pub legal :
      zero_money a.balance.currency
      ≡ ok (record { minor_units = pos 0; currency = a.balance.currency })

-- The stored balance is the sum of the account's entries.
abbrev pub IsStored : List EntryRow → Account → Type 0
IsStored entries a = a.balance.minor_units ≡ entry_sum a.tenant_id a.id entries

computed_or_zero-Filled :
    (a : Account) (p : Option ℤ) (computed : Balances)
    → zero_money a.balance.currency
      ≡ ok (record { minor_units = pos 0; currency = a.balance.currency })
    → Filled a.tenant_id a.id a.balance.currency p [] computed
    → computed_or_zero a computed
      ≡ ok (record {
        minor_units = or_zero a.tenant_id a.id a.balance.currency p;
        currency = a.balance.currency;
      })
computed_or_zero-Filled a none computed legal h = rw (computed_or_zero, h) legal
computed_or_zero-Filled a (some x) computed legal h = rw (computed_or_zero, h) refl

computed_or_zero-IsKept :
    (db : Db) (a : Account) {computed : Balances}
    → computed_balances unscoped db ≡ ok computed
    → IsKept db.entries a
    → computed_or_zero a computed
      ≡ ok (record {
        minor_units = entry_sum a.tenant_id a.id db.entries;
        currency = a.balance.currency;
      })
computed_or_zero-IsKept db a {computed} e k =
    let (p, filled, sum) = computed_sum a.tenant_id a.id a.balance.currency db k.entries_in e in
    computed_or_zero-Filled a p computed k.legal filled
    ∙ ap (λ x. ok (record { minor_units = x; currency = a.balance.currency })) sum

abbrev minor_of : Result Violation Money → ℤ
minor_of (ok m) = m.minor_units
minor_of (err v) = pos 0

IsKept-Agrees :
    (db : Db) (accounts : List Account) {computed : Balances}
    → computed_balances unscoped db ≡ ok computed
    → All (IsKept db.entries) accounts
    → All (Agrees computed) accounts ↔ All (IsStored db.entries) accounts
IsKept-Agrees db [] e k = (λ _. tt, λ _. tt)
IsKept-Agrees db (a ∷ accounts) {computed} e k =
    let here = computed_or_zero-IsKept db a e k.0 in
    let rest = IsKept-Agrees db accounts e k.1 in
    (
      λ h. (sym (ap (λ (r : Result Violation Money). minor_of r) (sym here ∙ h.0)), rest.0 h.1),
      λ h. (
        here ∙ ap (λ x. ok (record { minor_units = x; currency = a.balance.currency })) (sym h.0),
        rest.1 h.1,
      ),
    )

-- Where all accounts are in currencies of the ledger and their entries are in the same, and the
-- balances computed over all tenants can be read, no account is reported as drifted exactly where
-- the stored balance of each is the sum of its entries.
pub verified_drift_iff :
    (db : Db) (accounts : List Account) {computed : Balances}
    → computed_balances unscoped db ≡ ok computed
    → All (IsKept db.entries) accounts
    → (drifted_accounts accounts computed ≡ ok []) ↔ All (IsStored db.entries) accounts
verified_drift_iff db accounts {computed} e k =
    let there = drifted_accounts_iff accounts computed in
    let back = IsKept-Agrees db accounts e k in (λ h. back.0 (there.0 h), λ h. there.1 (back.1 h))
