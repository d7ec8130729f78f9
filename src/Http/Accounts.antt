-- ===== src/Http/Accounts.antt =====
-- Handlers of internal/adapters/http/handlers.go: accounts, their balances and entries, and
-- counterparties.
pub mod Isolated
pub mod Disclosure
use ledgerops.Prelude.{
  String, Bool, true, false, not, ◌||◌, Option, none, some, List, [], ◌∷◌, ◌==◌, map, if◌then◌else◌,
  Result, ok, err,
}
use ledgerops.Domain.Violation.{new_unknown_account}
use ledgerops.Domain.Account.{Account, AccountKind, wallet, system}
use ledgerops.Domain.CounterpartyAlias.{CounterpartyAlias}
use ledgerops.Ports.Vocabulary.{Error, violation, TenantScope, scoped_to_tenant}
use ledgerops.App.Transfer.{create_account}
use ledgerops.App.Links.{register_alias}
use ledgerops.App.Reading.{TracedEntry, get_balance, get_entries}
use ledgerops.App.Coordinator.Process.{shell}
use ledgerops.Http.Amount.{format_money}
use ledgerops.Http.Wire.{
  Scalar, text, time, Json, scalar, rows, Request, Response, Site, Handler, write_json,
  malformed_request, run, tenant_scope_from_context, decode_texts,
}
use ledgerops.Http.Status.{write_domain_error, answer}

abbrev pub is_empty : String → Bool
is_empty t = t == ""

abbrev pub kind_text : AccountKind → String
kind_text wallet = "wallet"
kind_text system = "system"

-- `parseAccountKind`
abbrev pub parse_account_kind : String → Option AccountKind
parse_account_kind kind =
    if kind == "wallet" then some wallet else if kind == "system" then some system else none

-- The caller's own tenant: `scope.Resolve()`.
abbrev pub caller_tenant : Request → String
caller_tenant req = (tenant_scope_from_context req).tenant_id

abbrev pub open_account : String → String → Option AccountKind → Site → Response × Site
open_account tenant_id account_id none = malformed_request
open_account tenant_id account_id (some kind) = λ s.
    answer (run (shell (create_account tenant_id account_id kind)) s) (λ _.
      write_json 201
        (("account_id", scalar (text account_id)) ∷ ("type", scalar (text (kind_text kind))) ∷ []))

-- `createAccountHandler`, on the fields `account_id` and `type`.
abbrev pub create_account_fields : Request → Option (List String) → Site → Response × Site
create_account_fields req (some (account_id ∷ kind ∷ [])) s =
    if is_empty account_id
    then malformed_request s
    else open_account (caller_tenant req) account_id (parse_account_kind kind) s
create_account_fields req _ s = malformed_request s

unfoldable pub create_account_handler : Handler
unfolding create_account
create_account_handler req =
    create_account_fields req (decode_texts ("account_id" ∷ "type" ∷ []) req.body)

abbrev pub register_fields : Request → Option (List String) → Site → Response × Site
register_fields req (some (alias ∷ tenant ∷ account ∷ [])) s =
    if is_empty alias || is_empty tenant || is_empty account
    then malformed_request s
    else answer (run (shell (register_alias (caller_tenant req) alias tenant account)) s)
        (λ registered. write_json 201 (
          ("alias", scalar (text registered.alias))
          ∷ ("target_tenant_id", scalar (text registered.target_tenant_id))
          ∷ ("target_account_id", scalar (text registered.target_account_id))
          ∷ []))
register_fields req _ s = malformed_request s

-- `registerCounterpartyAliasHandler`
unfoldable pub register_counterparty_alias_handler : Handler
unfolding register_alias
register_counterparty_alias_handler req =
    register_fields req
      (decode_texts ("alias" ∷ "target_tenant_id" ∷ "target_account_id" ∷ []) req.body)

-- `getBalanceHandler`
unfoldable pub get_balance_handler : Handler
unfolding get_balance format_money
get_balance_handler req s =
    answer (run (shell (get_balance (caller_tenant req) req.url_param)) s) (λ account.
      write_json 200 (
        ("account_id", scalar (text account.id))
        ∷ ("type", scalar (text (kind_text account.kind)))
        ∷ ("balance", scalar (text (format_money account.balance)))
        ∷ []))

-- `entriesScopeFromQuery`
unfoldable pub entries_scope_from_query : TenantScope → String → String → Result Error TenantScope
entries_scope_from_query caller account_id named =
    if named == ""
    then ok caller
    else if not caller.scoped
    then ok (scoped_to_tenant named)
    else if caller.tenant_id == named
    then ok caller
    else err (violation (new_unknown_account account_id))

abbrev pub entry_to_wire : TracedEntry → List (String × Scalar)
entry_to_wire traced =
    ("tenant_id", text traced.tenant_id)
    ∷ ("transaction_id", text traced.entry.transaction_id)
    ∷ ("counterparty", text traced.entry.counterparty)
    ∷ ("amount", text (format_money traced.entry.amount))
    ∷ ("recorded_at", time traced.entry.recorded_at)
    ∷ ("running_balance", text (format_money traced.running_balance))
    ∷ []

-- `entriesToWire`
abbrev pub entries_to_wire : List TracedEntry → List (List (String × Scalar))
entries_to_wire [] = []
entries_to_wire (traced ∷ more) = entry_to_wire traced ∷ entries_to_wire more

abbrev pub entries_in : Request → Result Error TenantScope → Site → Response × Site
entries_in req (err e) s = write_domain_error e s
entries_in req (ok scope) s =
    answer (run (shell (get_entries scope req.url_param)) s)
      (λ traced. write_json 200 (("entries", rows (entries_to_wire traced)) ∷ []))

-- `getEntriesHandler`
unfoldable pub get_entries_handler : Handler
unfolding entries_scope_from_query get_entries write_domain_error
get_entries_handler req =
    entries_in req
      (entries_scope_from_query (tenant_scope_from_context req) req.url_param req.query_tenant_id)
