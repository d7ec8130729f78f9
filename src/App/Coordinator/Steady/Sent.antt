-- ===== src/App/Coordinator/Steady/Sent.antt =====
-- `SendTransfer` and `GetTransfer` of internal/app/transfer_coordinator.go leave sound books.
use Prim.Native.String.{◌++◌}
use mathlib.Core.Path.{subst}
use ledgerops.Prelude.{ℕ, String, ◌≡◌, sym, ap, ◌∙◌, Option, none, some, Result, ok, err, arith}
use ledgerops.Prelude.Int.{pos}
use ledgerops.Prelude.Int64.{IsInt64}
use ledgerops.Domain.Violation.{
  Money, Violation, ViolationKind, unbalanced, insufficient_funds, unknown_account,
  account_already_exists, invalid_amount, currency_mismatch, tenant_already_exists,
  tenant_not_found, tenant_link_already_exists, tenant_link_not_found, counterparty_not_found,
}
use ledgerops.Domain.Money.{new_money}
use ledgerops.Domain.Account.{Account, system, new_account}
use ledgerops.Domain.CounterpartyAlias.{CounterpartyAlias, resolve_counterparty}
use ledgerops.Domain.Post.Rules.{IsRange}
use ledgerops.Ports.Vocabulary.{Error, Claim, leg_reversed, TransferState}
use ledgerops.Ports.Shell.{World, pure, query, decide, clock, next_id}
use ledgerops.Ports.Shell.Laws.{Quiet-query, Quiet-clock, Quiet-next_id}
use ledgerops.Ports.Shell.Invariant.{Holds, Holds-SameEnv}
use ledgerops.Ports.Shell.Safety.{
  query-db, Safe-bind, Safe-bind-on, Safe-decide, Safe-query, Safe-pure, Safe-raise, Safe-statement,
  Safe-found_or,
}
use ledgerops.Postgres.Accounts
use ledgerops.Postgres.Idempotency
use ledgerops.Postgres.TenantLinks
use ledgerops.Postgres.TransferStates
use ledgerops.Postgres.CounterpartyAliases
use ledgerops.Books.Sound.{IsSound}
use ledgerops.Books.Recorded.{recorded_transfer-IsSound}
use ledgerops.App.Transfer.{ledger_currency, post_transfer}
use ledgerops.App.Transfer.Keeps.{Keeps, Keeps-bind, Keeps-Quiet}
use ledgerops.App.Transfer.Safe.{post_transfer-IsSound}
use ledgerops.App.Keeping.{IsSafe, unit-Keeps, opened-IsSafe, zero-new_money, decide-result}
use ledgerops.App.Links.{or_no_link}
use ledgerops.App.Coordinator.Movements.{
  platform_tenant_id, settlement_account_name, platform_mirror_account_id, leg_reverse_key,
}
use ledgerops.App.Coordinator.Reversal.{wallet_account_id, leg_posted_status}
use ledgerops.App.Coordinator.Sending.{
  bootstrap, bootstrap_unknown, after_miss, bootstrap_if_missing, ensure_account,
  ensure_settlement_account, ensure_platform_mirror_account, link_snapshot_for, or_no_alias,
  prepare_transfer, existing_transfer, create_transfer_state, send_new, answer_existing,
  send_transfer,
}
use ledgerops.App.Coordinator.Viewing.{
  leg1_display_status, leg2_display_status, view_of, get_transfer,
}
use ledgerops.App.Coordinator.Steady.Reversing.{leg_posted_status-IsSafe, wallet_account_id-Keeps}

new_account-balance :
    (t id : String) (balance : Money) {a : Account}
    → new_account t id system balance ≡ ok a
    → a.balance ≡ balance
unfolding new_account
new_account-balance t id balance h = ground arith

bootstrap-IsSafe : (t id : String) → IsSafe (bootstrap t id)
bootstrap-IsSafe t id =
    Safe-bind-on IsSound (decide (new_money (pos 0) ledger_currency)) _ (Safe-decide IsSound _)
      (λ opening w e.
        Safe-bind-on IsSound (decide (new_account t id system opening)) _ (Safe-decide IsSound _)
          (λ a v f. opened-IsSafe t a (
            ap Money.minor_units (new_account-balance t id opening (decide-result _ v f))
            ∙ zero-new_money ledger_currency (decide-result _ w e))))

-- What a refused lookup leads to.
bootstrap_unknown-IsSafe :
    (t id : String) (v : Violation) (kind : ViolationKind) → IsSafe (bootstrap_unknown t id v kind)
bootstrap_unknown-IsSafe t id v unknown_account = bootstrap-IsSafe t id
bootstrap_unknown-IsSafe t id v unbalanced = Safe-raise IsSound (Error.violation v)
bootstrap_unknown-IsSafe t id v insufficient_funds = Safe-raise IsSound (Error.violation v)
bootstrap_unknown-IsSafe t id v account_already_exists = Safe-raise IsSound (Error.violation v)
bootstrap_unknown-IsSafe t id v invalid_amount = Safe-raise IsSound (Error.violation v)
bootstrap_unknown-IsSafe t id v currency_mismatch = Safe-raise IsSound (Error.violation v)
bootstrap_unknown-IsSafe t id v tenant_already_exists = Safe-raise IsSound (Error.violation v)
bootstrap_unknown-IsSafe t id v tenant_not_found = Safe-raise IsSound (Error.violation v)
bootstrap_unknown-IsSafe t id v tenant_link_already_exists = Safe-raise IsSound (Error.violation v)
bootstrap_unknown-IsSafe t id v tenant_link_not_found = Safe-raise IsSound (Error.violation v)
bootstrap_unknown-IsSafe t id v counterparty_not_found = Safe-raise IsSound (Error.violation v)

after_miss-IsSafe : (t id : String) (e : Error) → IsSafe (after_miss t id e)
after_miss-IsSafe t id (Error.violation v) = bootstrap_unknown-IsSafe t id v v.kind
after_miss-IsSafe t id Error.idempotency_key_conflict = Safe-raise IsSound _
after_miss-IsSafe t id Error.idempotency_key_claim_conflict = Safe-raise IsSound _
after_miss-IsSafe t id Error.transfer_not_found = Safe-raise IsSound _
after_miss-IsSafe t id Error.simulated_transient_fault = Safe-raise IsSound _
after_miss-IsSafe t id Error.infrastructure = Safe-raise IsSound _
after_miss-IsSafe t id Error.out_of_fuel = Safe-raise IsSound _

missing-Holds :
    (t id : String) (r : Result Error Account × World)
    → Holds IsSound r.1
    → IsSound r.1.db
    → Holds IsSound (bootstrap_if_missing t id r).1
missing-Holds t id (ok a, w) h s = h
missing-Holds t id (err e, w) h s = (after_miss-IsSafe t id e).holds w h s

missing-sees :
    (t id : String) (r : Result Error Account × World)
    → Holds IsSound r.1
    → IsSound r.1.db
    → (u : Unit {0}) → (bootstrap_if_missing t id r).0 ≡ ok u
    → IsSound (bootstrap_if_missing t id r).1.db
missing-sees t id (ok a, w) h s u e = s
missing-sees t id (err x, w) h s u e = (after_miss-IsSafe t id x).sees w h s u e

ensure_account-IsSafe : (t id : String) → IsSafe (ensure_account t id)
unfolding ensure_account
ensure_account-IsSafe t id = record {
  holds = λ w h p.
      missing-Holds t id (query (Accounts.get t id) w)
        (Holds-SameEnv IsSound ((Quiet-query (Accounts.get t id)).at w) h)
        (subst IsSound (sym (query-db (Accounts.get t id) w)) p);
  sees = λ w h p.
      missing-sees t id (query (Accounts.get t id) w)
        (Holds-SameEnv IsSound ((Quiet-query (Accounts.get t id)).at w) h)
        (subst IsSound (sym (query-db (Accounts.get t id) w)) p);
}

ensure_settlement-IsSafe : (t : String) → IsSafe (ensure_settlement_account t)
unfolding ensure_settlement_account
ensure_settlement-IsSafe t = ensure_account-IsSafe t settlement_account_name

ensure_mirror-IsSafe : (t : String) → IsSafe (ensure_platform_mirror_account t)
unfolding ensure_platform_mirror_account
ensure_mirror-IsSafe t = ensure_account-IsSafe platform_tenant_id (platform_mirror_account_id t)

link_snapshot_for-IsSafe : (found : Option CounterpartyAlias) → IsSafe (link_snapshot_for found)
unfolding link_snapshot_for
link_snapshot_for-IsSafe none = Safe-pure IsSound none
link_snapshot_for-IsSafe (some a) = Safe-found_or IsSound _ _ (TenantLinks.by_id a.tenant_link_id)

prepare_transfer-Keeps : (t alias : String) → Keeps (prepare_transfer t alias)
unfolding prepare_transfer
prepare_transfer-Keeps t alias = unit-Keeps _ (
    Safe-bind IsSound (query (CounterpartyAliases.by_tenant_and_alias t alias)) _
      (Safe-query IsSound _)
      (λ found.
        Safe-bind IsSound (link_snapshot_for found) _ (link_snapshot_for-IsSafe found) (λ link.
          Safe-bind IsSound
            (decide (
              resolve_counterparty t alias (or_no_alias found).0 (or_no_alias found).1
                (or_no_link link).0 (or_no_link link).1))
            _ (Safe-decide IsSound _)
            (λ other.
              Safe-bind IsSound (ensure_settlement_account t) _ (ensure_settlement-IsSafe t) (λ _.
                Safe-bind IsSound (ensure_platform_mirror_account t) _ (ensure_mirror-IsSafe t)
                  (λ _.
                    Safe-bind IsSound (ensure_settlement_account other.0) _
                      (ensure_settlement-IsSafe other.0)
                      (λ _.
                        Safe-bind IsSound (ensure_platform_mirror_account other.0) _
                          (ensure_mirror-IsSafe other.0) (λ _. Safe-pure IsSound other))))))))

pub create_transfer_state-Keeps :
    (s : TransferState) → IsInt64 s.amount.minor_units → Keeps (create_transfer_state s)
unfolding create_transfer_state
create_transfer_state-Keeps s r =
    unit-Keeps _ (Safe-statement IsSound _ (λ d u d' p h. recorded_transfer-IsSound s d u d' r p h))

send_new-Keeps :
    (tries : ℕ) (t alias : String) (amount : Money) (key fingerprint : String)
    → IsRange amount
    → Keeps (send_new tries t alias amount key fingerprint)
unfolding send_new
send_new-Keeps tries t alias amount key fingerprint r =
    Keeps-bind (prepare_transfer t alias) _ (prepare_transfer-Keeps t alias) (λ other.
      Keeps-bind (wallet_account_id t) _ (wallet_account_id-Keeps t) (λ wallet.
        Keeps-bind (post_transfer tries _) _ (λ w h. post_transfer-IsSound tries _ w r h)
          (λ _. Keeps-bind next_id _ (Keeps-Quiet next_id Quiet-next_id) (λ id.
            Keeps-bind clock _ (Keeps-Quiet clock Quiet-clock) (λ now.
              Keeps-bind (create_transfer_state _) _ (create_transfer_state-Keeps _ r)
                (λ _ w h. h))))))

answer_existing-Keeps :
    (tries : ℕ) (t alias : String) (amount : Money) (key fingerprint : String)
    (found : Option TransferState)
    → IsRange amount
    → Keeps (answer_existing tries t alias amount key fingerprint found)
answer_existing-Keeps tries t alias amount key fingerprint (some s) r = λ w h. h
answer_existing-Keeps tries t alias amount key fingerprint none r =
    send_new-Keeps tries t alias amount key fingerprint r

pub send_transfer-Keeps :
    (tries : ℕ) (t alias : String) (amount : Money) (key fingerprint : String)
    → IsRange amount
    → Keeps (send_transfer tries t alias amount key fingerprint)
unfolding send_transfer existing_transfer
send_transfer-Keeps tries t alias amount key fingerprint r =
    Keeps-bind (existing_transfer t key) _
      (unit-Keeps _ (Safe-query IsSound (TransferStates.by_tenant_and_idempotency_key t key)))
      (λ found. answer_existing-Keeps tries t alias amount key fingerprint found r)

leg1_display-IsSafe : (key : String) → IsSafe (leg1_display_status key)
unfolding leg1_display_status
leg1_display-IsSafe key =
    Safe-bind IsSound (query (Idempotency.lookup (leg_reverse_key key 1))) _ (Safe-query IsSound _)
      (λ found. Safe-pure IsSound _)

leg2_found-IsSafe :
    (key : String) (found : Option Claim)
    → IsSafe (elim found [ some _ ↦ pure leg_reversed | none ↦ leg_posted_status (key ++ ":leg2") ])
leg2_found-IsSafe key none = leg_posted_status-IsSafe (key ++ ":leg2")
leg2_found-IsSafe key (some c) = Safe-pure IsSound leg_reversed

leg2_display-IsSafe : (key : String) → IsSafe (leg2_display_status key)
unfolding leg2_display_status
leg2_display-IsSafe key =
    Safe-bind IsSound (query (Idempotency.lookup (leg_reverse_key key 2))) _ (Safe-query IsSound _)
      (leg2_found-IsSafe key)

view_of-IsSafe : (found : Option TransferState) → IsSafe (view_of found)
view_of-IsSafe none = Safe-raise IsSound _
view_of-IsSafe (some s) =
    Safe-bind IsSound (leg1_display_status s.idempotency_key) _
      (leg1_display-IsSafe s.idempotency_key)
      (λ leg1.
        Safe-bind IsSound (leg2_display_status s.idempotency_key) _
          (leg2_display-IsSafe s.idempotency_key)
          (λ leg2.
            Safe-bind IsSound (leg_posted_status (s.idempotency_key ++ ":leg3")) _
              (leg_posted_status-IsSafe (s.idempotency_key ++ ":leg3"))
              (λ leg3. Safe-pure IsSound _)))

pub get_transfer-Keeps : (id : String) → Keeps (get_transfer id)
unfolding get_transfer
get_transfer-Keeps id =
    unit-Keeps _
      (Safe-bind IsSound (query (TransferStates.get id)) _ (Safe-query IsSound _) view_of-IsSafe)
