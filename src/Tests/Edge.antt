-- ===== src/Tests/Edge.antt =====
-- The driving adapter on the small ledger (internal/adapters/http).
use ledgerops.Prelude.{◌≡◌, refl, ◌⊎◌, false, some, none, [], ◌∷◌, arith, ok, String}
use ledgerops.Prelude.Int.{pos, negsuc}
use ledgerops.Domain.Money
use ledgerops.Domain.Violation.{new_insufficient_funds, insufficient_funds}
use ledgerops.Postgres.Tables.{Db}
use ledgerops.Postgres.Tenants
use ledgerops.Postgres.TransferStates
use ledgerops.App.Coordinator.Process.{Process}
use ledgerops.Http.Auth
use ledgerops.Http.Amount.{parse_amount, format_money}
use ledgerops.Http.Amount.RoundTrip.{parse-format}
use ledgerops.Http.Wire.{Request, garbled, Metrics, Site}
use ledgerops.Http.Status.{write_violation}
use ledgerops.Http.Status.Agreement.{Agrees, write_violation-Agrees}
use ledgerops.Http.Auth.{
  Deps, require_tenant_key_or_operator_key, require_transfer_party, refuse_transfer_not_found,
}
use ledgerops.Http.Auth.Parties.{Readable, after_read, resolved_site, require_transfer_party_iff}
use ledgerops.Http.Auth.Refusal.{Refused, new_tenant_key_resolver-Quiet}
use ledgerops.Http.Accounts.{get_entries_handler}
use ledgerops.Http.Accounts.Disclosure.{IsolatedAnswer, get_entries_isolated}
use ledgerops.Http.Transfers.{get_transfer_handler}
use ledgerops.Http.Router
use ledgerops.Http.Router.Guarded.{serve-Refused}
use ledgerops.Tests.{usd, due_transfer, books, world}

parse-format_example :
    parse_amount (format_money (record { minor_units = negsuc 1233; currency = "USD" }))
    ≡ ok (record { minor_units = negsuc 1233; currency = "USD" })
parse-format_example = parse-format (negsuc 1233) (omega arith, omega arith) (omega arith)

abbrev pub edge_books : Db
edge_books = record books {
  tenants = record { tenant_id = "t"; name = "T"; credential_hash = "h" } ∷ [];
}

abbrev pub edge_process : Process
edge_process = record {
  world = record world { committed = edge_books; db = edge_books };
  counts = [];
  leg_faults = [];
  skip_forward_crash = [];
  skip_reversal_crash = [];
  scheduled = [];
  reversal_failures = 0;
  jitter = λ n. 0;
  drawn = 0;
  tries = 2;
}

abbrev pub no_metrics : Metrics
no_metrics = record {
  posted = 0;
  rejected = 0;
  replayed = 0;
  insufficient_funds = 0;
  idempotent_replays = 0;
  trial_balance_imbalance = pos 0;
  trial_balance_scans = 0;
  drifted_accounts = 0;
}

abbrev pub site : Site
site = record { process = edge_process; fields = []; metrics = no_metrics; log = [] }

abbrev hash_of : String → String
hash_of token = "h"

abbrev pub deps : Deps
deps = record {
  operator_key = "op";
  tenant_key_resolver = some Auth.new_tenant_key_resolver;
  sha256_hex = hash_of;
  enable_test_only_fault_seam = false;
  metrics_page = λ m. record { status = 200; body = []; page = "" };
  console_page = none;
}

-- The tenant's own key, and a transfer or an account in the path.
abbrev pub asks_for : String → Request
asks_for id = record {
  authorization = "Bearer tk";
  idempotency_key = "";
  url_param = id;
  query_tenant_id = "";
  body = garbled;
  scope = none;
}

bearer : (id : String) → Auth.bearer_token (asks_for id) ≡ some "tk"
unfolding Auth.bearer_token
bearer id = refl

not_operator : Auth.is_operator_key "tk" "op" ≡ false
unfolding Auth.is_operator_key
not_operator = refl

resolved : Auth.new_tenant_key_resolver "h" edge_process.world ≡ (ok (some "t"), edge_process.world)
unfolding Auth.new_tenant_key_resolver Tenants.resolve_tenant_key
resolved = refl

found : TransferStates.get "xfr_1" edge_books ≡ ok (some due_transfer)
unfolding TransferStates.get TransferStates.scan Money.new_money
found = refl

require_transfer_party_iff_example :
    (Readable "t" (some due_transfer)
      × (require_transfer_party deps get_transfer_handler (asks_for "xfr_1") site
          ≡ get_transfer_handler
              (asks_for "xfr_1")
              (after_read (resolved_site site edge_process.world))))
    ⊎ (¬ Readable "t" (some due_transfer)
        × (require_transfer_party deps get_transfer_handler (asks_for "xfr_1") site
            ≡ refuse_transfer_not_found (after_read (resolved_site site edge_process.world))))
require_transfer_party_iff_example =
    require_transfer_party_iff deps get_transfer_handler (asks_for "xfr_1") site (bearer "xfr_1")
      not_operator resolved refl found

get_entries_isolated_example :
    IsolatedAnswer deps "tk" edge_process.world
      (require_tenant_key_or_operator_key deps get_entries_handler (asks_for "alice") site).0
get_entries_isolated_example =
    get_entries_isolated deps (asks_for "alice") site (bearer "alice") not_operator

-- A refusal that names an account.
write_violation-Agrees_example :
    Agrees insufficient_funds
      (write_violation (new_insufficient_funds "alice" (usd 1) (usd 2)) site)
write_violation-Agrees_example =
    write_violation-Agrees (new_insufficient_funds "alice" (usd 1) (usd 2)) site (λ h. cc)

-- A token that nobody was given.
abbrev closed : Deps
closed = record deps { sha256_hex = λ token. "x" }

stranger :
    Auth.Refusal.Unidentified closed edge_process.world (Auth.bearer_token (asks_for "alice"))
unfolding Auth.bearer_token Auth.new_tenant_key_resolver Tenants.resolve_tenant_key
stranger = (not_operator, tt)

serve-Refused_example :
    Refused site (Router.serve closed Router.get_account "/accounts/{id}" (asks_for "alice") site)
serve-Refused_example =
    serve-Refused closed new_tenant_key_resolver-Quiet Router.get_account "/accounts/{id}"
      (asks_for "alice") site refl stranger
