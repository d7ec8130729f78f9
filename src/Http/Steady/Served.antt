-- ===== src/Http/Steady/Served.antt =====
-- The router keeps the process steady, and so does everything that happens to a running server:
-- requests, ticks, goroutines that wake, and the passing of time.
use ledgerops.Prelude.{
  String, ◌≡◌, Bool, true, false, Option, none, some, List, [], ◌∷◌, All, All-around, ◌++◌,
  if◌then◌else◌,
}
use ledgerops.App.Coordinator.Process.{Scheduled}
use ledgerops.App.Coordinator.Steady.{TaskInRange}
use ledgerops.App.Coordinator.Steady.Ticking.{
  process_due_transfers_once-SagaKeeps, run_task-SagaKeeps,
}
use ledgerops.Http.Wire.{Response, Site, Handler}
use ledgerops.Http.Auth.{Deps, require_operator_key}
use ledgerops.Http.Router.{
  Route, get_health, post_tenants, get_trial_balance, get_verdict, post_tenant_links,
  delete_tenant_link, post_accounts, get_account, post_transfers, post_counterparties, get_transfer,
  get_entries, post_leg_fault, post_reversal_fault, post_crash_forward, post_crash_reversal,
  post_tick, post_seed_due, get_metrics, get_console, get_console_file, serve_file, unrouted,
  not_found, testonly, dispatch, serve,
}
use mathlib.Core.Path.{subst}
use ledgerops.Http.Server.{Step, Reach, wake}
use ledgerops.Http.Steady.{SiteSteady}
use ledgerops.Http.Steady.Handlers.{
  create_account-ReplyKeeps, register-ReplyKeeps, get_balance-ReplyKeeps, get_entries-ReplyKeeps,
  verdict-ReplyKeeps, provision-ReplyKeeps, authorize-ReplyKeeps, revoke-ReplyKeeps,
}
use ledgerops.Http.Steady.Movements.{transfer_or_cross_tenant-ReplyKeeps, get_transfer-ReplyKeeps}
use ledgerops.Http.Steady.Seam.{
  inject_leg-ReplyKeeps, inject_reversal-ReplyKeeps, crash_forward-ReplyKeeps,
  crash_reversal-ReplyKeeps, tick_once-ReplyKeeps, seed-ReplyKeeps,
}
use ledgerops.Http.Steady.Guards.{
  ResolverKeeps, HandlerKeeps, require_operator_key-ReplyKeeps, require_tenant_key-ReplyKeeps,
  require_either_key-ReplyKeeps, require_transfer_party-ReplyKeeps,
}

testonly-ReplyKeeps :
    (deps : Deps) (next : Handler) → HandlerKeeps next → HandlerKeeps (testonly deps next)
testonly-ReplyKeeps deps next k = enabled deps.enable_test_only_fault_seam
  where
    enabled : (b : Bool) → HandlerKeeps (if b then require_operator_key deps next else not_found)
    enabled true = require_operator_key-ReplyKeeps deps next k
    enabled false = λ req. record { at = λ s h. h }

serve_file-ReplyKeeps :
    (page : Option (String → Response)) (path : String) → HandlerKeeps (serve_file page path)
serve_file-ReplyKeeps none path = λ req. record { at = λ s h. h }
serve_file-ReplyKeeps (some page) path = λ req. record { at = λ s h. h }

dispatch-ReplyKeeps :
    (deps : Deps) (route : Route) → ResolverKeeps deps → HandlerKeeps (dispatch deps route)
dispatch-ReplyKeeps deps get_health q = λ req. record { at = λ s h. h }
dispatch-ReplyKeeps deps post_tenants q =
    require_operator_key-ReplyKeeps deps _ (provision-ReplyKeeps deps)
dispatch-ReplyKeeps deps get_trial_balance q =
    require_operator_key-ReplyKeeps deps _ verdict-ReplyKeeps
dispatch-ReplyKeeps deps get_verdict q = require_operator_key-ReplyKeeps deps _ verdict-ReplyKeeps
dispatch-ReplyKeeps deps post_tenant_links q =
    require_operator_key-ReplyKeeps deps _ authorize-ReplyKeeps
dispatch-ReplyKeeps deps delete_tenant_link q =
    require_operator_key-ReplyKeeps deps _ revoke-ReplyKeeps
dispatch-ReplyKeeps deps post_accounts q =
    require_tenant_key-ReplyKeeps deps _ q create_account-ReplyKeeps
dispatch-ReplyKeeps deps get_account q =
    require_tenant_key-ReplyKeeps deps _ q get_balance-ReplyKeeps
dispatch-ReplyKeeps deps post_transfers q =
    require_tenant_key-ReplyKeeps deps _ q (transfer_or_cross_tenant-ReplyKeeps deps)
dispatch-ReplyKeeps deps post_counterparties q =
    require_tenant_key-ReplyKeeps deps _ q register-ReplyKeeps
dispatch-ReplyKeeps deps get_transfer q =
    require_transfer_party-ReplyKeeps deps _ q get_transfer-ReplyKeeps
dispatch-ReplyKeeps deps get_entries q =
    require_either_key-ReplyKeeps deps _ q get_entries-ReplyKeeps
dispatch-ReplyKeeps deps post_leg_fault q = testonly-ReplyKeeps deps _ inject_leg-ReplyKeeps
dispatch-ReplyKeeps deps post_reversal_fault q =
    testonly-ReplyKeeps deps _ inject_reversal-ReplyKeeps
dispatch-ReplyKeeps deps post_crash_forward q = testonly-ReplyKeeps deps _ crash_forward-ReplyKeeps
dispatch-ReplyKeeps deps post_crash_reversal q =
    testonly-ReplyKeeps deps _ crash_reversal-ReplyKeeps
dispatch-ReplyKeeps deps post_tick q = testonly-ReplyKeeps deps _ tick_once-ReplyKeeps
dispatch-ReplyKeeps deps post_seed_due q = testonly-ReplyKeeps deps _ (seed-ReplyKeeps deps)
dispatch-ReplyKeeps deps get_metrics q = λ req. record { at = λ s h. h }
dispatch-ReplyKeeps deps get_console q = serve_file-ReplyKeeps deps.console_page "/index.html"
dispatch-ReplyKeeps deps get_console_file q = λ req. serve_file-ReplyKeeps deps.console_page _ req
dispatch-ReplyKeeps deps unrouted q = λ req. record { at = λ s h. h }

serve-ReplyKeeps :
    (deps : Deps) (route : Route) (pattern : String)
    → ResolverKeeps deps
    → HandlerKeeps (serve deps route pattern)
unfolding serve
serve-ReplyKeeps deps route pattern q req = record {
  at = λ s h. (dispatch-ReplyKeeps deps route q req).at (record s { fields = [] }) h;
}

wake-Steady :
    (s : Site) (before : List Scheduled) (due : Scheduled) (later : List Scheduled)
    → s.process.scheduled ≡ before ++ (due ∷ later)
    → SiteSteady s
    → SiteSteady (wake due (before ++ later) s)
wake-Steady s before due later e h =
    let (ranged, others) =
      All-around (λ (t : Scheduled). TaskInRange t.task) before due later
        (subst (All (λ (t : Scheduled). TaskInRange t.task)) e h.tasks) in
    (run_task-SagaKeeps due.task ranged).at (record s.process { scheduled = before ++ later })
      (record { books = h.books; tasks = others })

Step-Steady :
    {deps : Deps} {s t : Site} → ResolverKeeps deps → Step deps s t → SiteSteady s → SiteSteady t
Step-Steady {s = s} q (Step.answers route pattern req) h =
    (serve-ReplyKeeps _ route pattern q req).at _ h
Step-Steady {s = s} q Step.ticks h = process_due_transfers_once-SagaKeeps.at _ h
Step-Steady {s = s} q (Step.wakes before due later e late) h = wake-Steady s before due later e h
Step-Steady {s = s} q (Step.waits n) h = record {
  books = record { committed = h.books.committed; rivals = h.books.rivals };
  tasks = h.tasks;
}
Step-Steady {s = s} q (Step.faces outages) h = record {
  books = record { committed = h.books.committed; rivals = h.books.rivals };
  tasks = h.tasks;
}

-- With a resolver of tenant keys that leaves sound books, a site with sound committed books,
-- sound rivals and sleeping goroutines that will move amounts in the range of `int64` leads, by
-- any sequence of answered requests, ticks, goroutines that wake, time that passes and calls of
-- the store that fail or succeed, only to sites of that kind.
pub Reach-Steady :
    {deps : Deps} {s t : Site} → ResolverKeeps deps → SiteSteady s → Reach deps s t → SiteSteady t
Reach-Steady q h Reach.start = h
Reach-Steady q h (Reach.next r step) = Step-Steady q step (Reach-Steady q h r)
