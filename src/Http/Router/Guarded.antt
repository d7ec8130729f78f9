-- ===== src/Http/Router/Guarded.antt =====
-- Every route of internal/adapters/http/router.go but those that are open to everybody is guarded.
use ledgerops.Prelude.{[], String, ◌≡◌, Bool, true, false, if◌then◌else◌}
use ledgerops.Ports.Shell.Laws.{Quiet}
use ledgerops.Http.Wire.{Request, Site, Handler}
use ledgerops.Http.Auth.{Deps, bearer_token, resolver_of}
use ledgerops.Http.Auth.Refusal.{
  Unidentified, Refused, require_operator_key-Refused, require_tenant_key-Refused,
  require_tenant_key_or_operator_key-Refused, require_transfer_party-Refused,
}
use ledgerops.Http.Router

-- The routes that exist, without the liveness check, the metrics and the console's files.
abbrev pub is_guarded : Deps → Router.Route → Bool
is_guarded deps Router.get_health = false
is_guarded deps Router.get_metrics = false
is_guarded deps Router.get_console = false
is_guarded deps Router.get_console_file = false
is_guarded deps Router.unrouted = false
is_guarded deps Router.post_leg_fault = deps.enable_test_only_fault_seam
is_guarded deps Router.post_reversal_fault = deps.enable_test_only_fault_seam
is_guarded deps Router.post_crash_forward = deps.enable_test_only_fault_seam
is_guarded deps Router.post_crash_reversal = deps.enable_test_only_fault_seam
is_guarded deps Router.post_tick = deps.enable_test_only_fault_seam
is_guarded deps Router.post_seed_due = deps.enable_test_only_fault_seam
is_guarded deps _ = true

if-Refused :
    (b : Bool) (x y : Handler) (req : Request) (s : Site)
    → b ≡ true
    → Refused s (x req s)
    → Refused s ((if b then x else y) req s)
if-Refused true x y req s on h = h
if-Refused false x y req s on h = cc

module _ (deps : Deps)
    (quiet : (hash : String) → Quiet (resolver_of deps.tenant_key_resolver hash)) where
  testonly-Refused :
      (next : Handler) (req : Request) (s : Site)
      → deps.enable_test_only_fault_seam ≡ true
      → Unidentified deps s.process.world (bearer_token req)
      → Refused s (Router.testonly deps next req s)
  testonly-Refused next req s on h =
      if-Refused deps.enable_test_only_fault_seam _ Router.not_found req s on
        (require_operator_key-Refused deps quiet next req s h)

  dispatch-Refused :
      (route : Router.Route) (req : Request) (s : Site)
      → is_guarded deps route ≡ true
      → Unidentified deps s.process.world (bearer_token req)
      → Refused s (Router.dispatch deps route req s)
  dispatch-Refused Router.get_health req s on h = cc
  dispatch-Refused Router.get_metrics req s on h = cc
  dispatch-Refused Router.get_console req s on h = cc
  dispatch-Refused Router.get_console_file req s on h = cc
  dispatch-Refused Router.unrouted req s on h = cc
  dispatch-Refused Router.post_tenants req s on h =
      require_operator_key-Refused deps quiet _ req s h
  dispatch-Refused Router.get_trial_balance req s on h =
      require_operator_key-Refused deps quiet _ req s h
  dispatch-Refused Router.get_verdict req s on h = require_operator_key-Refused deps quiet _ req s h
  dispatch-Refused Router.post_tenant_links req s on h =
      require_operator_key-Refused deps quiet _ req s h
  dispatch-Refused Router.delete_tenant_link req s on h =
      require_operator_key-Refused deps quiet _ req s h
  dispatch-Refused Router.post_accounts req s on h = require_tenant_key-Refused deps quiet _ req s h
  dispatch-Refused Router.get_account req s on h = require_tenant_key-Refused deps quiet _ req s h
  dispatch-Refused Router.post_transfers req s on h =
      require_tenant_key-Refused deps quiet _ req s h
  dispatch-Refused Router.post_counterparties req s on h =
      require_tenant_key-Refused deps quiet _ req s h
  dispatch-Refused Router.get_transfer req s on h =
      require_transfer_party-Refused deps quiet _ req s h
  dispatch-Refused Router.get_entries req s on h =
      require_tenant_key_or_operator_key-Refused deps quiet _ req s h
  dispatch-Refused Router.post_leg_fault req s on h = testonly-Refused _ req s on h
  dispatch-Refused Router.post_reversal_fault req s on h = testonly-Refused _ req s on h
  dispatch-Refused Router.post_crash_forward req s on h = testonly-Refused _ req s on h
  dispatch-Refused Router.post_crash_reversal req s on h = testonly-Refused _ req s on h
  dispatch-Refused Router.post_tick req s on h = testonly-Refused _ req s on h
  dispatch-Refused Router.post_seed_due req s on h = testonly-Refused _ req s on h

  -- On every route that is mounted, but the liveness check, the metrics and the files of the
  -- console, which are open to everybody, with a resolver that commits nothing, a caller
  -- without a token, or with one that is neither the operator's key nor any tenant's, gets the
  -- one refusal with status 401, and nothing that is committed, scheduled or counted changes.
  pub serve-Refused :
      (route : Router.Route) (pattern : String) (req : Request) (s : Site)
      → is_guarded deps route ≡ true
      → Unidentified deps s.process.world (bearer_token req)
      → Refused s (Router.serve deps route pattern req s)
  unfolding Router.serve
  serve-Refused route pattern req s on h =
      let r = dispatch-Refused route req (record s { fields = [] }) on h in
      record {
        status = r.status;
        body = r.body;
        committed = r.committed;
        scheduled = r.scheduled;
        metrics = r.metrics;
      }
