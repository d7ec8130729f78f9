-- ===== src/Http/Server.antt =====
-- What happens to a running server (cmd/ledgerops): it answers requests, its retry ticker fires,
-- goroutines wake up, time passes, and calls of the store start to fail or to succeed.
use ledgerops.Prelude.{ℕ, ◌+◌, ◌≤◌, String, ◌≡◌, List, ◌∷◌, ◌++◌}
use ledgerops.Ports.Shell.{Outcome}
use ledgerops.App.Coordinator.Process.{Scheduled}
use ledgerops.App.Coordinator.Ticker.{process_due_transfers_once, run_task}
use ledgerops.Http.Wire.{Request, Site, run}
use ledgerops.Http.Auth.{Deps}
use ledgerops.Http.Router.{Route, serve}

-- The goroutine leaves the sleepers, and runs.
abbrev pub wake : Scheduled → List Scheduled → Site → Site
wake due others s =
    (run (run_task due.task) (record s { process = record s.process { scheduled = others } })).1

abbrev pub wait : ℕ → Site → Site
wait n s = record s {
  process = record s.process { world = record s.process.world { now = s.process.world.now + n } };
}

-- The outcomes of the next calls of the store.
abbrev pub face : List Outcome → Site → Site
face outages s = record s {
  process = record s.process { world = record s.process.world { outages = outages } };
}

pub data Step (deps : Deps) (s : Site) : Site → Type 0 where
  answers :
      (route : Route) (pattern : String) (req : Request)
      → Step deps s (serve deps route pattern req s).1
  ticks : Step deps s (run process_due_transfers_once s).1
  wakes :
      (before : List Scheduled) (due : Scheduled) (later : List Scheduled)
      → s.process.scheduled ≡ before ++ (due ∷ later)
      → due.wakes_at ≤ s.process.world.now
      → Step deps s (wake due (before ++ later) s)
  waits : (n : ℕ) → Step deps s (wait n s)
  faces : (outages : List Outcome) → Step deps s (face outages s)

pub data Reach (deps : Deps) (s : Site) : Site → Type 0 where
  start : Reach deps s s
  next : {t u : Site} → Reach deps s t → Step deps t u → Reach deps s u
