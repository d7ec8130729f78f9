-- ===== src/Books/Verified.antt =====
-- What `VerifyBooks` of internal/app/usecases.go reports of sound books.
use mathlib.Core.Path.{subst}
use ledgerops.Prelude.{◌≡◌, ap, sym, ◌∙◌, ok}
use ledgerops.Prelude.Int.{pos}
use ledgerops.Ports.Vocabulary.{unscoped}
use ledgerops.Ports.Shell.{World, query, decide}
use ledgerops.Ports.Shell.Laws.{bind-eq-ok, pure-eq-ok, query-eq-ok}
use ledgerops.Ports.Shell.Invariant.{Holds}
use ledgerops.Ports.Shell.Success.{with_unit_of_work-sees}
use ledgerops.Postgres.Accounts
use ledgerops.Postgres.Balances.{computed_balances, trial_balance}
use ledgerops.App.Reading.{BooksReport, require_tenant, drifted_accounts, verify_books}
use ledgerops.Books.Sound.{IsSound}
use ledgerops.Books.TrialBalance.{trial_balance_zero}

-- Where the committed books are sound and so are the changes of rivals, every report that the
-- verification over all tenants gives has a trial balance of zero.
pub verify_books_zero :
    (w : World) {report : BooksReport} {w' : World}
    → Holds IsSound w
    → verify_books unscoped w ≡ (ok report, w')
    → report.trial_balance.minor_units ≡ pos 0
unfolding verify_books require_tenant
verify_books_zero w {report} p h =
    let (start, end, sound, run) = with_unit_of_work-sees IsSound _ w p h in
    let (accounts, u, first, rest) = bind-eq-ok (query (Accounts.get_all unscoped)) _ start run in
    let (computed, v, second, rest2) = bind-eq-ok (query (computed_balances unscoped)) _ u rest in
    let (total, x, third, rest3) = bind-eq-ok (query (trial_balance unscoped)) _ v rest2 in
    let (drifted, y, _, rest4) =
      bind-eq-ok (decide (drifted_accounts accounts computed)) _ x rest3 in
    let (_, same_u, _) = query-eq-ok (Accounts.get_all unscoped) start first in
    let (_, same_v, _) = query-eq-ok (computed_balances unscoped) u second in
    let (read, _, _) = query-eq-ok (trial_balance unscoped) v third in
    sym (ap (λ (r : BooksReport). r.trial_balance.minor_units) (pure-eq-ok rest4).0)
    ∙ (trial_balance_zero (subst IsSound (sym (same_v ∙ same_u)) sound) read).0
