-- ===== src/Tests/System.antt =====
-- A run of the server on the small ledger.
use ledgerops.Prelude.{◌≡◌, refl, Result, ok, true, false, none, [], ◌∷◌, String}
use ledgerops.Books.Sound.{IsSound}
use ledgerops.Prelude.Int
use ledgerops.Prelude.Int.{pos}
use ledgerops.Domain.Money.{new_money, add, negate, money_eq}
use ledgerops.Domain.Account.{new_account}
use ledgerops.Ports.Vocabulary.{Error, unscoped}
use ledgerops.Ports.Shell.{World, with_unit_of_work, begin, commit, rollback, statement}
use ledgerops.Postgres.Accounts
use ledgerops.Postgres.Balances.{computed_balances, trial_balance}
use ledgerops.App.Reading.{BooksReport, verify_books, require_tenant, drifted_accounts}
use ledgerops.Books.Verified.{verify_books_zero}
use ledgerops.App.Transfer.Keeps.{Keeps-Quiet}
use ledgerops.App.Coordinator.Ticker.{process_due_transfers_once}
use ledgerops.Http.Wire.{Request, Member, text_value, object, Site, run}
use ledgerops.Http.Auth
use ledgerops.Http.Auth.Refusal.{new_tenant_key_resolver-Quiet}
use ledgerops.Http.Router.{serve, post_transfers}
use ledgerops.Http.Server.{Step, Reach, wait}
use ledgerops.Http.Steady.{SiteSteady}
use ledgerops.Http.Steady.Guards.{ResolverKeeps}
use ledgerops.Http.Steady.Served.{Reach-Steady}
use ledgerops.Tests.{books-IsSound}
use ledgerops.Tests.Edge.{edge_books, edge_process, site, deps}

-- The tenant moves an amount between two of its accounts.
abbrev member : String → String → Member
member name value = record { name = name; value = text_value value }

abbrev moves : Request
moves = record {
  authorization = "Bearer tk";
  idempotency_key = "k9";
  url_param = "";
  query_tenant_id = "";
  body = object (member "from" "alice" ∷ member "to" "bob" ∷ member "amount" "0.30" ∷ []) false;
  scope = none;
}

edge_books-IsSound : IsSound edge_books
edge_books-IsSound = record {
  unique = books-IsSound.unique;
  stored = books-IsSound.stored;
  covered = books-IsSound.covered;
  balanced = books-IsSound.balanced;
  owned = books-IsSound.owned;
  ranged = books-IsSound.ranged;
}

site-Steady : SiteSteady site
site-Steady = record { books = record { committed = edge_books-IsSound; rivals = tt }; tasks = tt }

deps-ResolverKeeps : ResolverKeeps deps
deps-ResolverKeeps = record {
  at = λ hash. Keeps-Quiet (Auth.new_tenant_key_resolver hash) (new_tenant_key_resolver-Quiet hash);
}

-- The site after a transfer, an hour, and a tick.
abbrev moved : Site
moved = (serve deps post_transfers "/transfers" moves site).1

abbrev ticked : Site
ticked = (run process_due_transfers_once (wait 3600 moved)).1

-- The verification of the small ledger.
abbrev verdict : Result Error BooksReport × World
verdict = verify_books unscoped edge_process.world

abbrev report : BooksReport
report = record {
  balanced = true;
  trial_balance = record { minor_units = pos 0; currency = "USD" };
  entry_count = 2;
  drifted = [];
}

verified : verify_books unscoped edge_process.world ≡ (ok report, verdict.1)
unfolding verify_books require_tenant drifted_accounts Accounts.get_all Accounts.build_account
    computed_balances trial_balance with_unit_of_work begin commit rollback statement new_money add
    negate money_eq Int.◌+ℤ◌ new_account
verified = refl

verify_books_zero_example : report.trial_balance.minor_units ≡ pos 0
verify_books_zero_example = verify_books_zero edge_process.world site-Steady.books verified

Reach-Steady_example : SiteSteady ticked
Reach-Steady_example = Reach-Steady deps-ResolverKeeps site-Steady (
    Reach.next
      (Reach.next (Reach.next Reach.start (Step.answers post_transfers "/transfers" moves))
        (Step.waits 3600))
      Step.ticks)
