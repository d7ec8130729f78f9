-- ===== src/Http/Books.antt =====
-- `verdictHandler` of internal/adapters/http/handlers.go. The two positions in the rendered bytes
-- are those of members that the encoder puts first and second.
use ledgerops.Prelude.{String, List, [], ◌∷◌, ◌==◌, length, if◌then◌else◌}
use ledgerops.Prelude.Int.{pos}
use ledgerops.Ports.Vocabulary.{TenantScope, scoped_to_tenant, unscoped}
use ledgerops.App.Reading.{Drift, BooksReport, verify_books}
use ledgerops.App.Coordinator.Process.{shell}
use ledgerops.Http.Amount.{format_money}
use ledgerops.Http.Wire.{
  Scalar, text, number, Json, scalar, rows, Request, Response, Site, Handler, write_json, run,
}
use ledgerops.Http.Metrics.{
  set_trial_balance_imbalance, observe_trial_balance_scan, set_drifted_accounts, observe,
}
use ledgerops.Http.Status.{answer}

-- `trialBalanceScopeFromQuery`
abbrev pub trial_balance_scope_from_query : Request → TenantScope
trial_balance_scope_from_query req =
    if req.query_tenant_id == "" then unscoped else scoped_to_tenant req.query_tenant_id

-- `driftWire`
abbrev pub drift_wire : Drift → List (String × Scalar)
drift_wire d =
    ("tenant_id", text d.tenant_id)
    ∷ ("account_id", text d.account_id)
    ∷ ("stored", text (format_money d.stored))
    ∷ ("computed", text (format_money d.computed))
    ∷ ("delta", text (format_money d.delta))
    ∷ []

abbrev pub drifts_wire : List Drift → List (List (String × Scalar))
drifts_wire [] = []
drifts_wire (d ∷ ds) = drift_wire d ∷ drifts_wire ds

-- `verdictBodyFor`, in the order of the fields of `verdictBody`.
abbrev pub verdict_body_for : BooksReport → List (String × Json)
verdict_body_for report =
    (
      "verdict",
      scalar (text (if report.balanced then "Books balance: YES" else "Books balance: NO")),
    )
    ∷ ("imbalance_minor", scalar (number report.trial_balance.minor_units))
    ∷ ("entry_count", scalar (number (pos report.entry_count)))
    ∷ ("drifted", rows (drifts_wire report.drifted))
    ∷ []

abbrev pub answer_verdict : BooksReport → Site → Response × Site
answer_verdict report s = write_json 200 (verdict_body_for report) (
    observe (set_drifted_accounts (length report.drifted)) (
      observe observe_trial_balance_scan
        (observe (set_trial_balance_imbalance report.trial_balance.minor_units) s)))

-- `verdictHandler`
unfoldable pub verdict_handler : Handler
unfolding verify_books
verdict_handler req s =
    answer (run (shell (verify_books (trial_balance_scope_from_query req))) s) answer_verdict
