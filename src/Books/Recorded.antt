-- ===== src/Books/Recorded.antt =====
-- The rows of transfers, and the tables beside the books, under the statements of
-- internal/adapters/postgres/transfer_state.go, tenants.go, tenant_links.go and
-- counterparty_aliases.go.
use ledgerops.Prelude.{
  ℕ, String, ◌≡◌, refl, Bool, Option, none, some, List, [], ◌∷◌, ◌++◌, ◌==◌, arith, All-append,
  Bool-cases, Result-cases, inl, inr, find, ok,
}
use mathlib.Core.Path.{subst}
use ledgerops.Prelude.Int64.{IsInt64}
use ledgerops.Domain.Money.{new_money}
use ledgerops.Domain.Tenant.{Tenant}
use ledgerops.Domain.TenantLink.{TenantLink}
use ledgerops.Domain.CounterpartyAlias.{CounterpartyAlias}
use ledgerops.Ports.Vocabulary.{TransferState}
use ledgerops.Postgres.Tables.{stored_at, Db}
use ledgerops.Postgres.TransferStates
use ledgerops.Postgres.TransferStates.{scan, scanned, change, change_where, extend_lease}
use ledgerops.Postgres.Tenants
use ledgerops.Postgres.TenantLinks
use ledgerops.Postgres.CounterpartyAliases
use ledgerops.Books.Sound.{IsSound, Ranged, same_books}

with_transfers :
    (d : Db) (rows : List TransferState)
    → Ranged rows
    → IsSound d
    → IsSound (record d { transfer_states = rows })
with_transfers d rows r s = record {
  unique = s.unique;
  stored = s.stored;
  covered = s.covered;
  balanced = s.balanced;
  owned = s.owned;
  ranged = r;
}

change_where-Ranged :
    (id : String) (f : TransferState → TransferState) (rows : List TransferState)
    → ((s : TransferState) → (f s).amount ≡ s.amount)
    → Ranged rows
    → Ranged (change_where id f rows)
change_where-Ranged id f [] k h = tt
change_where-Ranged id f (s ∷ rows) k h = elim (Bool-cases (s.transfer_id == id)) [
  | inl e ↦ rw e (rw (k s) h.0, change_where-Ranged id f rows k h.1)
  | inr e ↦ rw e (h.0, change_where-Ranged id f rows k h.1)
]

change-IsSound :
    (id : String) (f : TransferState → TransferState) (d : Db) (u : Unit {0}) (d' : Db)
    → ((s : TransferState) → (f s).amount ≡ s.amount)
    → IsSound d
    → change id f d ≡ ok (u, d')
    → IsSound d'
unfolding change
change-IsSound id f d u d' k s h =
    let made : d' ≡ record d { transfer_states = change_where id f d.transfer_states } =
      ground arith in
    rw made (with_transfers d _ (change_where-Ranged id f d.transfer_states k s.ranged) s)

pub advance-IsSound :
    (id : String) (status : _) (at : ℕ) (reason : String) (d : Db) (u : Unit {0}) (d' : Db)
    → IsSound d
    → TransferStates.advance_after_leg_outcome id status at reason d ≡ ok (u, d')
    → IsSound d'
unfolding TransferStates.advance_after_leg_outcome
advance-IsSound id status at reason d u d' s h = change-IsSound id _ d u d' (λ x. refl) s h

pub extend_lease-IsSound :
    (id : String) (until : ℕ) (d : Db) (u : Unit {0}) (d' : Db)
    → IsSound d
    → extend_lease id until d ≡ ok (u, d')
    → IsSound d'
extend_lease-IsSound id until d u d' s h =
    let made : d' ≡ record d {
      transfer_states =
          change_where id (λ r. record r { next_attempt_at = stored_at until }) d.transfer_states;
    } =
      cc in
    rw made (with_transfers d _ (change_where-Ranged id _ d.transfer_states (λ x. refl) s.ranged) s)

pub recorded_transfer-IsSound :
    (x : TransferState) (d : Db) (u : Unit {0}) (d' : Db)
    → IsInt64 x.amount.minor_units
    → IsSound d
    → TransferStates.create x d ≡ ok (u, d')
    → IsSound d'
unfolding TransferStates.create
recorded_transfer-IsSound x d u d' r s h =
    let made : d' ≡ record d {
      transfer_states =
          d.transfer_states ++ record x { next_attempt_at = stored_at x.next_attempt_at } ∷ [];
    } =
      ground arith in
    rw made (
      with_transfers d _
        (All-append (λ (s : TransferState). IsInt64 s.amount.minor_units) d.transfer_states _
          s.ranged (r, tt))
        s)

-- What a lookup finds is in range.
find-Ranged :
    (p : TransferState → Bool) (rows : List TransferState) {x : TransferState}
    → Ranged rows
    → find p rows ≡ some x
    → IsInt64 x.amount.minor_units
find-Ranged p [] h e = cc
find-Ranged p (r ∷ rows) {x} h e = elim (Bool-cases (p r)) [
  | inl k ↦
      let same : r ≡ x = ground arith in
      subst (λ (s : TransferState). IsInt64 s.amount.minor_units) same h.0
  | inr k ↦ find-Ranged p rows {x = x} h.1 (ground arith)
]

scan-ranged :
    (r : TransferState) {x : TransferState}
    → IsInt64 r.amount.minor_units
    → scan r ≡ ok x
    → IsInt64 x.amount.minor_units
unfolding scan new_money
scan-ranged r {x} h e = ground arith

scanned-ranged :
    (found : Option TransferState) {x : TransferState}
    → ((r : TransferState) → found ≡ some r → IsInt64 r.amount.minor_units)
    → scanned found ≡ ok (some x)
    → IsInt64 x.amount.minor_units
scanned-ranged none k e = cc
scanned-ranged (some r) {x} k e = elim (Result-cases (scan r)) [
  | inl (v, h) ↦ ground arith
  | inr (y, h) ↦ scan-ranged r {x = x} (k r refl) (ground arith)
]

pub get-ranged :
    (id : String) (d : Db) {x : TransferState}
    → IsSound d
    → TransferStates.get id d ≡ ok (some x)
    → IsInt64 x.amount.minor_units
unfolding TransferStates.get
get-ranged id d s e =
    scanned-ranged (find (λ (r : TransferState). r.transfer_id == id) d.transfer_states)
      (λ r f. find-Ranged _ d.transfer_states s.ranged f) e

-- Statements on the other tables.
pub tenant-IsSound :
    (hash : String → String) (x : Tenant) (d : Db) (u : Unit {0}) (d' : Db)
    → IsSound d
    → Tenants.create hash x d ≡ ok (u, d')
    → IsSound d'
unfolding Tenants.create
tenant-IsSound hash x d u d' s h = same_books d d' (ground arith) (ground arith) (ground arith) s

pub link-IsSound :
    (x : TenantLink) (d : Db) (u : Unit {0}) (d' : Db)
    → IsSound d
    → TenantLinks.create x d ≡ ok (u, d')
    → IsSound d'
unfolding TenantLinks.create
link-IsSound x d u d' s h = same_books d d' (ground arith) (ground arith) (ground arith) s

pub revocation-IsSound :
    (id : String) (d : Db) (u : Unit {0}) (d' : Db)
    → IsSound d
    → TenantLinks.revoke id d ≡ ok (u, d')
    → IsSound d'
unfolding TenantLinks.revoke
revocation-IsSound id d u d' s h = same_books d d' (ground arith) (ground arith) (ground arith) s

pub alias-IsSound :
    (x : CounterpartyAlias) (d : Db) (u : Unit {0}) (d' : Db)
    → IsSound d
    → CounterpartyAliases.create x d ≡ ok (u, d')
    → IsSound d'
unfolding CounterpartyAliases.create
alias-IsSound x d u d' s h = same_books d d' (ground arith) (ground arith) (ground arith) s
