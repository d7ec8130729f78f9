-- ===== src/App/Transfer/Steps.antt =====
-- What the steps of `PostTransfer`'s unit of work (internal/app/usecases.go) have done to the
-- tables when they succeed.
use mathlib.Core.Path.{subst}
use ledgerops.Prelude.{
  String, ◌≡◌, refl, sym, ap, ◌∙◌, true, Option, none, some, Option-cases, Bool-cases, inl, inr,
  List, [], ◌∷◌, ◌==◌, arith, find, All, ok, Result-cases,
}
use ledgerops.Domain.Money.{new_money}
use ledgerops.Domain.Account.{Account, new_account}
use ledgerops.Domain.Post.{find_account}
use ledgerops.Ports.Shell.{World, query}
use ledgerops.Ports.Shell.Laws.{pure-eq-ok, bind-eq-ok, query-eq-ok}
use ledgerops.Postgres.Tables.{Db, AccountRow}
use ledgerops.Postgres.Accounts.{
  has_key, build_account, kept, lock_one, lock_each, lock_for_update, deduped_sorted,
}
use ledgerops.Books.Sums.{has_key_eq}

-- A locked snapshot is the account of the row under its key.
pub record Locked (t : String) (d : Db) (a : Account) : Type 0 where
  pub row : AccountRow
  pub found : find (has_key t a.id) d.accounts ≡ some row
  pub built : build_account row ≡ ok a

-- A row makes an account with its own fields.
pub record Built (r : AccountRow) (a : Account) : Type 0 where
  pub id : a.id ≡ r.id
  pub kind : a.kind ≡ r.kind
  pub minor_units : a.balance.minor_units ≡ r.balance_minor
  pub currency : a.balance.currency ≡ r.currency

pub build_account-Built : (r : AccountRow) {a : Account} → build_account r ≡ ok a → Built r a
unfolding build_account new_account new_money
build_account-Built r h = record {
  id = ground arith;
  kind = ground arith;
  minor_units = ground arith;
  currency = ground arith;
}

find-has_key :
    (t id : String) (rows : List AccountRow) {r : AccountRow}
    → find (has_key t id) rows ≡ some r
    → has_key t id r ≡ true
find-has_key t id [] h = cc
find-has_key t id (x ∷ rows) {r} h = elim (Bool-cases (has_key t id x)) [
  | inl k ↦ let same : x ≡ r = ground arith in subst (λ y. has_key t id y ≡ true) same k
  | inr k ↦ find-has_key t id rows {r = r} (ground arith)
]

lock_one-Locked :
    (t id : String) (d : Db) {a : Account} → lock_one t id d ≡ ok (some a) → Locked t d a
unfolding lock_one
lock_one-Locked t id d {a} h = elim (Option-cases (find (has_key t id) d.accounts)) [
  | inl e ↦ ground arith
  | inr (r, e) ↦ elim (Result-cases (build_account r)) [
    | inl (v, b) ↦ ground arith
    | inr (x, b) ↦
        let same : x ≡ a = ground arith in
        let ids : x.id ≡ id =
          (build_account-Built r b).id ∙ (has_key_eq t id r (find-has_key t id d.accounts e)).1 in
        subst (Locked t d) same (record {
          row = r;
          found = subst (λ i. find (has_key t i) d.accounts ≡ some r) (sym ids) e;
          built = b;
        })
  ]
]

-- Snapshots that are all of locked rows.
kept-Locked :
    (t : String) (d : Db) (found : Option Account) (accounts : List Account)
    → ((a : Account) → found ≡ some a → Locked t d a)
    → All (Locked t d) accounts
    → All (Locked t d) (kept found accounts)
kept-Locked t d none accounts f h = h
kept-Locked t d (some a) accounts f h = (f a refl, h)

-- Snapshots of the tables as a unit of work found them.
pub record LockedAt (t : String) (w w' : World) (snapshots : List Account) : Type 0 where
  pub locked : All (Locked t w.db) snapshots
  pub unchanged : w'.db ≡ w.db

lock_each-LockedAt :
    (t : String) (ids : List String) (w : World) {snapshots : List Account} {w' : World}
    → lock_each t ids w ≡ (ok snapshots, w')
    → LockedAt t w w' snapshots
unfolding lock_each
lock_each-LockedAt t [] w {snapshots} {w'} h =
    let (s, v) = pure-eq-ok h in
    record { locked = subst (All (Locked t w.db)) s tt; unchanged = ap World.db (sym v) }
lock_each-LockedAt t (id ∷ ids) w {snapshots} {w'} h =
    let (found, u, e, h1) = bind-eq-ok (query (lock_one t id)) _ w h in
    let (q, du, _) = query-eq-ok (lock_one t id) w e in
    let (accounts, v, e2, h2) = bind-eq-ok (lock_each t ids) _ u h1 in
    let rest = lock_each-LockedAt t ids u e2 in
    let here =
      kept-Locked t w.db found accounts (λ a f. lock_one-Locked t id w.db (q ∙ ap ok f))
        (subst (λ d. All (Locked t d) accounts) du rest.locked) in
    let (s, x) = pure-eq-ok h2 in
    record {
      locked = subst (All (Locked t w.db)) s here;
      unchanged = ap World.db (sym x) ∙ rest.unchanged ∙ du;
    }

pub lock_for_update-LockedAt :
    (t : String) (ids : List String) (w : World) {snapshots : List Account} {w' : World}
    → lock_for_update t ids w ≡ (ok snapshots, w')
    → LockedAt t w w' snapshots
unfolding lock_for_update
lock_for_update-LockedAt t ids w h = lock_each-LockedAt t (deduped_sorted ids) w h

pub find_account-Locked :
    (t : String) (d : Db) (snapshots : List Account) (id : String) {a : Account}
    → All (Locked t d) snapshots
    → find_account snapshots id ≡ some a
    → Locked t d a
unfolding find_account
find_account-Locked t d [] id h e = cc
find_account-Locked t d (x ∷ xs) id {a} h e = elim (Bool-cases (x.id == id)) [
  | inl k ↦ let same : x ≡ a = ground arith in subst (Locked t d) same h.0
  | inr k ↦ find_account-Locked t d xs id h.1 (ground arith)
]
