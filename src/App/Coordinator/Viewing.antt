-- ===== src/App/Coordinator/Viewing.antt =====
-- `GetTransfer` of internal/app/transfer_coordinator.go.
use Prim.Native.String.{◌++◌}
use ledgerops.Prelude.{String, Option, none, some}
use ledgerops.Ports.Vocabulary.{
  transfer_not_found, TransferState, TransferStatus, LegStatus, leg_posted, leg_reversed,
}
use ledgerops.Ports.Shell.{Shell, pure, raise, ◌>>=◌, query, with_unit_of_work}
use ledgerops.Postgres.Idempotency
use ledgerops.Postgres.TransferStates
use ledgerops.App.Coordinator.Movements.{leg_reverse_key}
use ledgerops.App.Coordinator.Reversal.{leg_posted_status}

-- `TransferView`, with the statuses of its legs: the empty status of a leg that is not filled in
-- is `none`.
pub record TransferView : Type 0 where
  pub transfer_id : String
  pub status : TransferStatus
  pub reason : String
  pub leg1 : Option LegStatus
  pub leg2 : Option LegStatus
  pub leg3 : Option LegStatus

-- `leg1DisplayStatus` and `leg2DisplayStatus`
unfoldable pub leg1_display_status : String → Shell LegStatus
unfolding leg_reverse_key
leg1_display_status idempotency_key = do
  found ← query (Idempotency.lookup (leg_reverse_key idempotency_key 1))
  pure (elim found [ some _ ↦ leg_reversed | none ↦ leg_posted ])

unfoldable pub leg2_display_status : String → Shell LegStatus
unfolding leg_reverse_key leg_posted_status
leg2_display_status idempotency_key = do
  found ← query (Idempotency.lookup (leg_reverse_key idempotency_key 2))
  elim found [ some _ ↦ pure leg_reversed | none ↦ leg_posted_status (idempotency_key ++ ":leg2") ]

-- `GetTransfer`
abbrev pub view_of : Option TransferState → Shell TransferView
view_of none = raise transfer_not_found
view_of (some s) = do
  leg1 ← leg1_display_status s.idempotency_key
  leg2 ← leg2_display_status s.idempotency_key
  leg3 ← leg_posted_status (s.idempotency_key ++ ":leg3")
  pure (record {
    transfer_id = s.transfer_id;
    status = s.status;
    reason = s.reason;
    leg1 = some leg1;
    leg2 = some leg2;
    leg3 = some leg3;
  })

unfoldable pub get_transfer : String → Shell TransferView
unfolding leg1_display_status leg2_display_status leg_posted_status
get_transfer transfer_id = with_unit_of_work (query (TransferStates.get transfer_id) >>= view_of)
