-- ===== src/App/Coordinator/Sending.antt =====
-- `SendTransfer` and what it calls, of internal/app/transfer_coordinator.go.
use Prim.Native.String.{◌++◌}
use ledgerops.Prelude.{ℕ, String, Bool, true, false, Option, none, some, Result, ok, err}
use ledgerops.Prelude.Int.{pos}
use ledgerops.Domain.Violation.{
  Money, Violation, ViolationKind, unknown_account, tenant_link_not_found,
}
use ledgerops.Domain.Money.{new_money}
use ledgerops.Domain.Account.{Account, system, new_account}
use ledgerops.Domain.TenantLink.{TenantLink}
use ledgerops.Domain.CounterpartyAlias.{CounterpartyAlias, resolve_counterparty}
use ledgerops.Ports.Vocabulary.{Error, violation, TransferState, pending, leg_pending, leg_posted}
use ledgerops.Ports.Shell.{
  World, found_or, Shell, raise, pure, decide, ◌>>=◌, ◌>>◌, statement, query, clock, next_id,
  with_unit_of_work,
}
use ledgerops.Postgres.Accounts
use ledgerops.Postgres.TenantLinks
use ledgerops.Postgres.CounterpartyAliases
use ledgerops.Postgres.TransferStates
use ledgerops.App.Transfer.{post_transfer, ledger_currency}
use ledgerops.App.Links.{or_no_link}
use ledgerops.App.Coordinator.Movements.{
  platform_tenant_id, settlement_account_name, platform_mirror_account_id,
}
use ledgerops.App.Coordinator.Reversal.{wallet_account_id}
use ledgerops.App.Coordinator.Viewing.{TransferView}

-- `ensureAccount`
abbrev pub bootstrap : String → String → Shell (Unit {0})
bootstrap tenant_id account_id = do
  opening ← decide (new_money (pos 0) ledger_currency)
  account ← decide (new_account tenant_id account_id system opening)
  statement (Accounts.create tenant_id account)

-- What the refusal of a lookup leads to.
abbrev pub bootstrap_unknown : String → String → Violation → ViolationKind → Shell (Unit {0})
bootstrap_unknown tenant_id account_id v unknown_account = bootstrap tenant_id account_id
bootstrap_unknown tenant_id account_id v _ = raise (violation v)

abbrev pub after_miss : String → String → Error → Shell (Unit {0})
after_miss tenant_id account_id (violation v) = bootstrap_unknown tenant_id account_id v v.kind
after_miss tenant_id account_id e = raise e

abbrev pub bootstrap_if_missing :
    String → String → Result Error Account × World → Result Error (Unit {0}) × World
bootstrap_if_missing tenant_id account_id (ok _, w) = (ok tt, w)
bootstrap_if_missing tenant_id account_id (err e, w) = after_miss tenant_id account_id e w

unfoldable pub ensure_account : String → String → Shell (Unit {0})
ensure_account tenant_id account_id w =
    bootstrap_if_missing tenant_id account_id (query (Accounts.get tenant_id account_id) w)

unfoldable pub ensure_settlement_account : String → Shell (Unit {0})
unfolding ensure_account
ensure_settlement_account tenant_id = ensure_account tenant_id settlement_account_name

unfoldable pub ensure_platform_mirror_account : String → Shell (Unit {0})
unfolding ensure_account platform_mirror_account_id
ensure_platform_mirror_account business_tenant_id =
    ensure_account platform_tenant_id (platform_mirror_account_id business_tenant_id)

-- `linkSnapshotFor`
unfoldable pub link_snapshot_for : Option CounterpartyAlias → Shell (Option TenantLink)
link_snapshot_for none w = (ok none, w)
link_snapshot_for (some a) w =
    found_or some (λ kind. elim kind [ tenant_link_not_found ↦ some none | _ ↦ none ])
      (query (TenantLinks.by_id a.tenant_link_id) w)

-- The zero value that a lookup returns beside `false`.
abbrev pub no_alias : CounterpartyAlias
no_alias = record {
  tenant_id = "";
  alias = "";
  tenant_link_id = "";
  target_tenant_id = "";
  target_account_id = "";
}

abbrev pub or_no_alias : Option CounterpartyAlias → CounterpartyAlias × Bool
or_no_alias none = (no_alias, false)
or_no_alias (some a) = (a, true)

-- `prepareTransfer`: the counterparty's tenant and account.
unfoldable pub prepare_transfer : String → String → Shell (String × String)
unfolding link_snapshot_for ensure_settlement_account ensure_platform_mirror_account
prepare_transfer tenant_id alias = with_unit_of_work (do
  found ← query (CounterpartyAliases.by_tenant_and_alias tenant_id alias)
  link ← link_snapshot_for found
  counterparty ← decide (
      resolve_counterparty tenant_id alias (or_no_alias found).0 (or_no_alias found).1
        (or_no_link link).0 (or_no_link link).1)
  ensure_settlement_account tenant_id
  ensure_platform_mirror_account tenant_id
  ensure_settlement_account counterparty.0
  ensure_platform_mirror_account counterparty.0
  pure counterparty)

-- `existingTransfer`
unfoldable pub existing_transfer : String → String → Shell (Option TransferState)
existing_transfer tenant_id idempotency_key =
    with_unit_of_work
      (query (TransferStates.by_tenant_and_idempotency_key tenant_id idempotency_key))

-- `createTransferState`
unfoldable pub create_transfer_state : TransferState → Shell (Unit {0})
create_transfer_state s = with_unit_of_work (statement (TransferStates.create s))

-- `SendTransfer`, once the key is found to be new.
unfoldable pub send_new :
    ℕ → String → String → Money → String → String → Shell (TransferView × Bool)
unfolding prepare_transfer wallet_account_id post_transfer create_transfer_state
send_new tries tenant_id alias amount idempotency_key fingerprint = do
  counterparty ← prepare_transfer tenant_id alias
  sender_wallet_id ← wallet_account_id tenant_id
  post_transfer tries (record {
    from = sender_wallet_id;
    to = settlement_account_name;
    amount = amount;
    idempotency_key = idempotency_key;
    fingerprint = fingerprint;
    tenant_id = tenant_id;
  })
  id ← next_id
  now ← clock
  create_transfer_state (record {
    transfer_id = "xfr_" ++ id;
    tenant_id = tenant_id;
    idempotency_key = idempotency_key;
    status = pending;
    leg1_status = leg_posted;
    leg2_status = leg_pending;
    leg3_status = leg_pending;
    leg1_attempts = 0;
    leg2_attempts = 0;
    leg3_attempts = 0;
    next_attempt_at = now;
    reason = "";
    counterparty_tenant_id = counterparty.0;
    target_account_id = counterparty.1;
    amount = amount;
  })
  pure (
    record {
      transfer_id = "xfr_" ++ id;
      status = pending;
      reason = "";
      leg1 = some leg_posted;
      leg2 = none;
      leg3 = none;
    },
    true,
  )

abbrev pub replayed_view : TransferState → TransferView
replayed_view s = record {
  transfer_id = s.transfer_id;
  status = s.status;
  reason = "";
  leg1 = some leg_posted;
  leg2 = none;
  leg3 = none;
}

abbrev pub answer_existing :
    ℕ
    → String
    → String
    → Money
    → String
    → String
    → Option TransferState
    → Shell (TransferView × Bool)
answer_existing tries tenant_id alias amount idempotency_key fingerprint (some s) =
    pure (replayed_view s, false)
answer_existing tries tenant_id alias amount idempotency_key fingerprint none =
    send_new tries tenant_id alias amount idempotency_key fingerprint

-- `SendTransfer`: the view, and whether the transfer is new.
unfoldable pub send_transfer :
    ℕ → String → String → Money → String → String → Shell (TransferView × Bool)
unfolding existing_transfer send_new
send_transfer tries tenant_id alias amount idempotency_key fingerprint = do
  existing ← existing_transfer tenant_id idempotency_key
  answer_existing tries tenant_id alias amount idempotency_key fingerprint existing
