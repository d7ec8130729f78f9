-- ===== src/Postgres/Accounts/LockOrder.antt =====
-- The order of locks (`LockForUpdate` and `dedupedSorted` of internal/adapters/postgres/accounts.go).
use ledgerops.Prelude.{String, ◌≡◌, ap, [], ◌∷◌, compare-flip, arith}
use ledgerops.Ports.Shell.{World}
use text.Mathlib.TextEquality.{path_by_compare}
use ledgerops.Postgres.Accounts.{deduped_sorted, lock_each, lock_for_update}

deduped_sorted_comm : (a b : String) → deduped_sorted (a ∷ b ∷ []) ≡ deduped_sorted (b ∷ a ∷ [])
unfolding deduped_sorted
deduped_sorted_comm a b = ground (arith, compare-flip a b, path_by_compare a b)

-- `LockForUpdate` does the same with two accounts in whatever order they are named: on every
-- world it gives the same snapshots in the same order, or the same error, after the same calls of
-- the store.
pub lock_for_update_comm :
    (tenant_id a b : String) (w : World)
    → lock_for_update tenant_id (a ∷ b ∷ []) w ≡ lock_for_update tenant_id (b ∷ a ∷ []) w
unfolding lock_for_update
lock_for_update_comm tenant_id a b w =
    ap (λ ids. lock_each tenant_id ids w) (deduped_sorted_comm a b)
