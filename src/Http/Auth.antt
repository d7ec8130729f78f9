-- ===== src/Http/Auth.antt =====
-- Who calls: the middleware of internal/adapters/http/router.go. SHA-256 is a parameter.
pub mod Parties
pub mod Refusal
use ledgerops.Prelude.{
  String, Bool, true, false, not, ◌&&◌, Option, none, some, List, [], ◌∷◌, ◌==◌, strip_prefix,
  if◌then◌else◌, Result, ok, err,
}
use ledgerops.Domain.Violation.{Violation}
use ledgerops.Ports.Vocabulary.{
  Error, infrastructure, TenantScope, scoped_to_tenant, unscoped, TransferState,
}
use ledgerops.Ports.Shell.{
  World, Outcome, done, failed, lost, Shell, pure, ◌>>=◌, draw, query, begin, rollback,
}
use ledgerops.Postgres.Tables.{Db}
use ledgerops.Postgres.Tenants.{resolve_tenant_key}
use ledgerops.Postgres.TransferStates
use ledgerops.App.Coordinator.Process.{Process, shell}
use ledgerops.Http.Wire.{
  text, scalar, Metrics, Request, Response, Site, Handler, set_field, write_json, error_body,
  write_refusal, back, run, with_tenant_scope,
}
use ledgerops.Http.Status.{write_domain_error, answer}

-- `Deps`, and the hash that the credentials are stored under. A resolver that is not wired is
-- `none`. `metrics_page` is what the Prometheus client answers with the series, `console_page` what
-- the file server answers with a path of the built console, where it is there.
pub record Deps : Type 0 where
  pub operator_key : String
  pub tenant_key_resolver : Option (String → Shell (Option String))
  pub sha256_hex : String → String
  pub enable_test_only_fault_seam : Bool
  pub metrics_page : Metrics → Response
  pub console_page : Option (String → Response)

-- `NewTenantKeyResolver` of internal/adapters/postgres/tenants.go: it reads what is committed, on a
-- connection of its own.
abbrev pub resolved : String → Outcome × World → Result Error (Option String) × World
resolved hash (done, w) = (ok (resolve_tenant_key hash w.committed), w)
resolved hash (failed, w) = (err infrastructure, w)
resolved hash (lost, w) = (err infrastructure, w)

unfoldable pub new_tenant_key_resolver : String → Shell (Option String)
unfolding resolve_tenant_key
new_tenant_key_resolver hash w = resolved hash (draw w)

-- `resolveTenantKeyResolver`
abbrev pub resolver_of : Option (String → Shell (Option String)) → String → Shell (Option String)
resolver_of none hash = pure none
resolver_of (some resolve) hash = resolve hash

-- `bearerToken`
unfoldable pub bearer_token : Request → Option String
bearer_token req = strip_prefix "Bearer " req.authorization

-- `isOperatorKey`
unfoldable pub is_operator_key : String → String → Bool
is_operator_key presented expected = not (expected == "") && presented == expected

-- `refuseUnidentifiedCaller`
unfoldable pub refuse_unidentified_caller : Site → Response × Site
unfolding set_field
refuse_unidentified_caller s =
    write_json 401 (error_body "unidentified_caller")
      (set_field "violation_kind" (scalar (text "unidentified_caller")) s)

abbrev pub token_or_empty : Option String → String
token_or_empty none = ""
token_or_empty (some token) = token

-- `requireOperatorKey`
unfoldable pub require_operator_key : Deps → Handler → Handler
unfolding bearer_token is_operator_key refuse_unidentified_caller
require_operator_key deps next req s =
    if is_operator_key (token_or_empty (bearer_token req)) deps.operator_key
    then next req s
    else refuse_unidentified_caller s

-- The tenant that a token belongs to, or a refusal.
abbrev pub identified :
    (String → Site → Response × Site) → Result Error (Option String) × Site → Response × Site
identified next (ok (some tenant_id), s) = next tenant_id s
identified next (ok none, s) = refuse_unidentified_caller s
identified next (err e, s) = refuse_unidentified_caller s

abbrev pub resolve_token : Deps → String → Site → Result Error (Option String) × Site
resolve_token deps token =
    run (shell (resolver_of deps.tenant_key_resolver (deps.sha256_hex token)))

-- `requireTenantKey`
abbrev pub admit_tenant : Deps → Handler → Request → Option String → Site → Response × Site
admit_tenant deps next req none s = refuse_unidentified_caller s
admit_tenant deps next req (some token) s =
    identified (λ tenant_id. next (with_tenant_scope (scoped_to_tenant tenant_id) req))
      (resolve_token deps token s)

unfoldable pub require_tenant_key : Deps → Handler → Handler
unfolding bearer_token
require_tenant_key deps next req s = admit_tenant deps next req (bearer_token req) s

-- `requireTenantKeyOrOperatorKey`
abbrev pub admit_tenant_or_operator :
    Deps → Handler → Request → Option String → Site → Response × Site
admit_tenant_or_operator deps next req none s = refuse_unidentified_caller s
admit_tenant_or_operator deps next req (some token) s =
    if is_operator_key token deps.operator_key
    then next (with_tenant_scope unscoped req) s
    else admit_tenant deps next req (some token) s

unfoldable pub require_tenant_key_or_operator_key : Deps → Handler → Handler
unfolding bearer_token
require_tenant_key_or_operator_key deps next req s =
    admit_tenant_or_operator deps next req (bearer_token req) s

-- A unit of work that is rolled back whatever it answered.
abbrev pub rolled_back {ℓ} : {A : Type ℓ} → Result Error A × World → Result Error A × World
rolled_back (r, w) = (r, rollback w)

abbrev pub read_only {ℓ} : {A : Type ℓ} → Shell A → Shell A
read_only m = begin >>= λ _ w. rolled_back (m w)

-- `transferStateByID`
unfoldable pub transfer_state_by_id : String → Shell (Option TransferState)
transfer_state_by_id transfer_id = read_only (query (TransferStates.get transfer_id))

-- `refuseTransferNotFound`
abbrev pub refuse_transfer_not_found : Site → Response × Site
refuse_transfer_not_found = write_refusal 404 "transfer_not_found" []

-- Whether the caller, who is the operator where there is no tenant, is one of a transfer's parties.
abbrev pub is_party : Option String → TransferState → Bool
is_party none s = true
is_party (some tenant_id) s =
    if tenant_id == s.tenant_id then true else tenant_id == s.counterparty_tenant_id

abbrev pub admit_party :
    Handler → Request → Option String → Option TransferState → Site → Response × Site
admit_party next req caller none s = refuse_transfer_not_found s
admit_party next req caller (some state) s =
    if is_party caller state then next req s else refuse_transfer_not_found s

abbrev pub admit_caller : Handler → Request → Option String → Site → Response × Site
admit_caller next req caller s =
    answer (run (shell (transfer_state_by_id req.url_param)) s) (admit_party next req caller)

-- `requireTransferParty`
abbrev pub admit_by_token : Deps → Handler → Request → Option String → Site → Response × Site
admit_by_token deps next req none s = refuse_unidentified_caller s
admit_by_token deps next req (some token) s =
    if is_operator_key token deps.operator_key
    then admit_caller next req none s
    else identified (λ tenant_id. admit_caller next req (some tenant_id))
        (resolve_token deps token s)

unfoldable pub require_transfer_party : Deps → Handler → Handler
unfolding bearer_token
require_transfer_party deps next req s = admit_by_token deps next req (bearer_token req) s
