-- ===== src/Postgres/TransferStates.antt =====
-- internal/adapters/postgres/transfer_state.go (migrations 0005 and 0006). A nullable text column
-- reads back as the empty text that it was written from.
pub mod Claims
use ledgerops.Prelude.{
  ℕ, ◌+◌, String, Bool, true, false, not, ◌&&◌, ◌||◌, Option, none, some, List, [], ◌∷◌, ◌++◌, ◌==◌,
  leb, ltb, find, any, select, take, map, if◌then◌else◌, Result, ok, err,
}
use ledgerops.Domain.Violation.{Money, Violation, zero_value}
use ledgerops.Domain.Money.{new_money}
use ledgerops.Ports.Vocabulary.{
  Error, violation, infrastructure, TransferState, TransferStatus, pending, retrying, settled,
  reversed, reversal_failed,
}
use ledgerops.Ports.Shell.{World, Shell, ◌>>=◌, ◌>>◌, pure, statement, query, clock}
use ledgerops.Postgres.Tables.{Db, stored_at}

-- `Create`: the id is unique, and so is the tenant's idempotency key.
unfoldable pub create : TransferState → Db → Result Error (Unit {0} × Db)
create s db =
    if any
        (λ r.
          r.transfer_id == s.transfer_id
          || (r.tenant_id == s.tenant_id && r.idempotency_key == s.idempotency_key))
        db.transfer_states
      || not (any (λ r. r.tenant_id == s.tenant_id) db.tenants)
      || (not (s.counterparty_tenant_id == "")
          && not (any (λ r. r.tenant_id == s.counterparty_tenant_id) db.tenants))
    then err infrastructure
    else ok (
      tt,
      record db {
        transfer_states =
            db.transfer_states ++ record s { next_attempt_at = stored_at s.next_attempt_at } ∷ [];
      },
    )

-- `scanTransferState`: an amount whose currency column is null reads as the zero value.
unfoldable pub scan : TransferState → Result Error TransferState
scan r =
    if r.amount.currency == ""
    then ok (record r { amount = zero_value })
    else elim (new_money r.amount.minor_units r.amount.currency) [
      | err v ↦ err (violation v)
      | ok amount ↦ ok (record r { amount = amount })
    ]

abbrev pub scanned : Option TransferState → Result Error (Option TransferState)
scanned none = ok none
scanned (some r) = elim (scan r) [ ok s ↦ ok (some s) | err e ↦ err e ]

-- `Get`
unfoldable pub get : String → Db → Result Error (Option TransferState)
unfolding scan
get transfer_id db =
    scanned (find (λ (r : TransferState). r.transfer_id == transfer_id) db.transfer_states)

-- `ByTenantAndIdempotencyKey`
unfoldable pub by_tenant_and_idempotency_key :
    String → String → Db → Result Error (Option TransferState)
unfolding scan
by_tenant_and_idempotency_key tenant_id key db = scanned (
    find (λ (r : TransferState). r.tenant_id == tenant_id && r.idempotency_key == key)
      db.transfer_states)

abbrev pub change_where :
    String → (TransferState → TransferState) → List TransferState → List TransferState
change_where transfer_id f [] = []
change_where transfer_id f (r ∷ rows) =
    (if r.transfer_id == transfer_id then f r else r) ∷ change_where transfer_id f rows

-- An UPDATE … WHERE transfer_id = $n that must meet a row.
unfoldable pub change : String → (TransferState → TransferState) → Db → Result Error (Unit {0} × Db)
change transfer_id f db =
    if any (λ r. r.transfer_id == transfer_id) db.transfer_states
    then ok (tt, record db { transfer_states = change_where transfer_id f db.transfer_states })
    else err infrastructure

-- `UpdateStatus`
unfoldable pub update_status : String → TransferStatus → String → Db → Result Error (Unit {0} × Db)
unfolding change
update_status transfer_id status reason =
    change transfer_id (λ r. record r { status = status; reason = reason })

-- `AdvanceAfterLegOutcome`
unfoldable pub advance_after_leg_outcome :
    String → TransferStatus → ℕ → String → Db → Result Error (Unit {0} × Db)
unfolding change
advance_after_leg_outcome transfer_id status next_attempt_at reason = change transfer_id (λ r.
    record r { status = status; next_attempt_at = stored_at next_attempt_at; reason = reason })

abbrev pub is_due_status : TransferStatus → Bool
is_due_status pending = true
is_due_status retrying = true
is_due_status _ = false

-- `transferStateIsDue`
unfoldable pub is_due : ℕ → TransferState → Bool
is_due now s = is_due_status s.status && leb s.next_attempt_at now

-- The UPDATE of `ClaimOne`, which changes what the SELECT has locked. The caller has the instant
-- that was not rounded.
abbrev pub extend_lease : String → ℕ → Db → Result Error (Unit {0} × Db)
extend_lease transfer_id until db = ok (
  tt,
  record db {
    transfer_states =
        change_where transfer_id (λ r. record r { next_attempt_at = stored_at until })
          db.transfer_states;
  },
)

-- `ClaimOne`, once the row is locked and the time is read.
abbrev pub claim_if_due : String → ℕ → ℕ → Option TransferState → Shell (Option TransferState)
claim_if_due transfer_id lease_duration now none = pure none
claim_if_due transfer_id lease_duration now (some s) =
    if is_due now s
    then (do
      statement (extend_lease transfer_id (now + lease_duration))
      pure (some (record s { next_attempt_at = now + lease_duration })))
    else pure none

-- `ClaimOne`
unfoldable pub claim_one : String → ℕ → Shell (Option TransferState)
unfolding get is_due
claim_one transfer_id lease_duration = do
  found ← query (get transfer_id)
  now ← clock
  claim_if_due transfer_id lease_duration now found

abbrev insert_due : TransferState → List TransferState → List TransferState
insert_due r [] = r ∷ []
insert_due r (x ∷ xs) =
    if ltb x.next_attempt_at r.next_attempt_at then x ∷ insert_due r xs else r ∷ x ∷ xs

abbrev order_due : List TransferState → List TransferState
order_due [] = []
order_due (r ∷ rows) = insert_due r (order_due rows)

-- `ClaimDue`: the oldest due first, at most `batch_limit`.
unfoldable pub claim_due : ℕ → ℕ → Db → Result Error (List String)
unfolding is_due
claim_due now batch_limit db = ok (
    map (λ (r : TransferState). r.transfer_id)
      (take batch_limit (order_due (select (is_due (stored_at now)) db.transfer_states))))
