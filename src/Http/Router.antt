-- ===== src/Http/Router.antt =====
-- `NewRouter` of internal/adapters/http/router.go, with the request logger around it, and
-- `mountConsole` of internal/adapters/http/console_static.go.
pub mod Guarded
use Prim.Native.String.{◌++◌}
use ledgerops.Prelude.{
  ℕ, String, Bool, true, false, Option, none, some, List, [], ◌∷◌, leb, if◌then◌else◌,
}
use ledgerops.Prelude.Int.{pos}
use ledgerops.Http.Wire.{
  text, number, Json, scalar, Request, Response, LogLine, Site, Handler, put, write_json,
}
use ledgerops.Http.Auth.{
  Deps, require_operator_key, require_tenant_key, require_tenant_key_or_operator_key,
  require_transfer_party,
}
use ledgerops.Http.Accounts.{
  create_account_handler, register_counterparty_alias_handler, get_balance_handler,
  get_entries_handler,
}
use ledgerops.Http.Tenants.{
  provision_tenant_handler, authorize_tenant_pair_handler, revoke_tenant_link_handler,
}
use ledgerops.Http.Transfers.{post_transfer_or_cross_tenant_handler, get_transfer_handler}
use ledgerops.Http.Books.{verdict_handler}
use ledgerops.Http.Testonly.{
  inject_leg_fault_handler, inject_reversal_fault_handler,
  simulate_crash_before_forward_leg_handler, simulate_crash_before_reversal_handler,
  run_retry_ticker_once_handler, seed_transfers_due_for_retry_handler,
}

-- The routes, by the pattern that the request matched. `unrouted` is a request that matched none.
pub data Route : Type 0 where
  get_health post_tenants get_trial_balance get_verdict post_tenant_links delete_tenant_link : Route
  post_accounts get_account post_transfers post_counterparties get_transfer get_entries : Route
  post_leg_fault post_reversal_fault post_crash_forward post_crash_reversal : Route
  post_tick post_seed_due get_metrics get_console get_console_file unrouted : Route

-- `healthHandler`
abbrev pub health_handler : Handler
health_handler req = write_json 200 (("status", scalar (text "ok")) ∷ [])

-- The router's own answer, without its text.
abbrev pub not_found : Handler
not_found req = write_json 404 []

-- `(*Metrics).Handler`
abbrev pub metrics_handler : Deps → Handler
metrics_handler deps req s = (deps.metrics_page s.metrics, s)

-- `mountConsole`: the routes exist where the built console does.
abbrev pub serve_file : Option (String → Response) → String → Handler
serve_file none path req s = not_found req s
serve_file (some page) path req s = (page path, s)

-- `mountTestOnlyFaults`: the routes exist where the seam is enabled.
abbrev pub testonly : Deps → Handler → Handler
testonly deps next =
    if deps.enable_test_only_fault_seam then require_operator_key deps next else not_found

-- `NewRouter`: which middleware guards which handler.
abbrev pub dispatch : Deps → Route → Handler
dispatch deps get_health = health_handler
dispatch deps post_tenants = require_operator_key deps (provision_tenant_handler deps)
dispatch deps get_trial_balance = require_operator_key deps verdict_handler
dispatch deps get_verdict = require_operator_key deps verdict_handler
dispatch deps post_tenant_links = require_operator_key deps authorize_tenant_pair_handler
dispatch deps delete_tenant_link = require_operator_key deps revoke_tenant_link_handler
dispatch deps post_accounts = require_tenant_key deps create_account_handler
dispatch deps get_account = require_tenant_key deps get_balance_handler
dispatch deps post_transfers = require_tenant_key deps (post_transfer_or_cross_tenant_handler deps)
dispatch deps post_counterparties = require_tenant_key deps register_counterparty_alias_handler
dispatch deps get_transfer = require_transfer_party deps get_transfer_handler
dispatch deps get_entries = require_tenant_key_or_operator_key deps get_entries_handler
dispatch deps post_leg_fault = testonly deps inject_leg_fault_handler
dispatch deps post_reversal_fault = testonly deps inject_reversal_fault_handler
dispatch deps post_crash_forward = testonly deps simulate_crash_before_forward_leg_handler
dispatch deps post_crash_reversal = testonly deps simulate_crash_before_reversal_handler
dispatch deps post_tick = testonly deps run_retry_ticker_once_handler
dispatch deps post_seed_due = testonly deps (seed_transfers_due_for_retry_handler deps)
dispatch deps get_metrics = metrics_handler deps
dispatch deps get_console = serve_file deps.console_page "/index.html"
dispatch deps get_console_file = λ req. serve_file deps.console_page ("/" ++ req.url_param) req
dispatch deps unrouted = not_found

-- `requestLogger`: one line for each request, with what the handlers have set, and a warning from
-- status 500 on. The request id and the elapsed time are left out.
abbrev pub logged : String → Response × Site → Response × Site
logged route (r, s) = (
  r,
  record s {
    log =
        record {
          warning = leb 500 r.status;
          fields =
              put "status" (scalar (number (pos r.status)))
                (put "route" (scalar (text route)) s.fields);
        }
        ∷ s.log;
  },
)

abbrev pub request_logger : String → Handler → Handler
request_logger route next req s = logged route (next req (record s { fields = [] }))

unfoldable pub serve : Deps → Route → String → Handler
unfolding require_operator_key require_tenant_key require_tenant_key_or_operator_key
    require_transfer_party create_account_handler register_counterparty_alias_handler
    get_balance_handler get_entries_handler provision_tenant_handler authorize_tenant_pair_handler
    revoke_tenant_link_handler post_transfer_or_cross_tenant_handler get_transfer_handler
    verdict_handler inject_leg_fault_handler inject_reversal_fault_handler
    simulate_crash_before_forward_leg_handler simulate_crash_before_reversal_handler
    run_retry_ticker_once_handler seed_transfers_due_for_retry_handler
serve deps route pattern = request_logger pattern (dispatch deps route)
