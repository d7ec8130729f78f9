-- ===== src/Http/Metrics.antt =====
-- internal/adapters/http/metrics.go: what the observers do to the series. Durations are not kept.
use ledgerops.Prelude.{ℕ, ◌+◌}
use ledgerops.Prelude.Int.{ℤ}
use ledgerops.Http.Wire.{Metrics, Site}

pub data PostingOutcome : Type 0 where
  posting_posted posting_rejected posting_replayed : PostingOutcome

-- `ObservePosting`
abbrev pub observe_posting : PostingOutcome → Metrics → Metrics
observe_posting posting_posted m = record m { posted = m.posted + 1 }
observe_posting posting_rejected m = record m { rejected = m.rejected + 1 }
observe_posting posting_replayed m = record m { replayed = m.replayed + 1 }

-- `ObserveInsufficientFundsRejection`
abbrev pub observe_insufficient_funds_rejection : Metrics → Metrics
observe_insufficient_funds_rejection m = record m { insufficient_funds = m.insufficient_funds + 1 }

-- `ObserveIdempotentReplay`
abbrev pub observe_idempotent_replay : Metrics → Metrics
observe_idempotent_replay m = record m { idempotent_replays = m.idempotent_replays + 1 }

-- `SetTrialBalanceImbalance`
abbrev pub set_trial_balance_imbalance : ℤ → Metrics → Metrics
set_trial_balance_imbalance minor m = record m { trial_balance_imbalance = minor }

-- `ObserveTrialBalanceScanDuration`
abbrev pub observe_trial_balance_scan : Metrics → Metrics
observe_trial_balance_scan m = record m { trial_balance_scans = m.trial_balance_scans + 1 }

-- `SetDriftedAccounts`
abbrev pub set_drifted_accounts : ℕ → Metrics → Metrics
set_drifted_accounts n m = record m { drifted_accounts = n }

abbrev pub observe : (Metrics → Metrics) → Site → Site
observe f s = record s { metrics = f s.metrics }
