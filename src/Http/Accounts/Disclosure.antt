-- ===== src/Http/Accounts/Disclosure.antt =====
-- What the answer of `getEntriesHandler` (internal/adapters/http/handlers.go) discloses.
use mathlib.Core.Path.{subst}
use ledgerops.Prelude.{
  String, ◌≡◌, refl, ap, sym, false, ◌==◌, ◌⊎◌, inl, inr, Option, none, some, List, [], ◌∷◌, ◌++◌,
  All, All-append, if◌then◌else◌, Result, ok, err, arith,
}
use ledgerops.Domain.Violation.{
  Violation, ViolationKind, unbalanced, insufficient_funds, unknown_account, account_already_exists,
  invalid_amount, currency_mismatch, tenant_already_exists, tenant_not_found,
  tenant_link_already_exists, tenant_link_not_found, counterparty_not_found,
}
use ledgerops.Ports.Vocabulary.{
  Error, violation, infrastructure, out_of_fuel, idempotency_key_conflict,
  idempotency_key_claim_conflict, transfer_not_found, simulated_transient_fault, TenantScope,
  scoped_to_tenant,
}
use ledgerops.Ports.Shell.{World}
use ledgerops.App.Reading.{TracedEntry, get_entries}
use ledgerops.App.Coordinator.Process.{back_in}
use ledgerops.Http.Wire.{
  Scalar, text, Json, row, rows, Request, Response, Site, back, with_extra, put, write_json,
  write_refusal, with_tenant_scope,
}
use ledgerops.Http.Status.{refuse_violation, write_violation, write_domain_error, answer}
use ledgerops.Http.Auth.{
  Deps, bearer_token, is_operator_key, resolver_of, identified, refuse_unidentified_caller,
  require_tenant_key_or_operator_key,
}
use ledgerops.Http.Accounts.{
  entries_to_wire, entries_in, entries_scope_from_query, get_entries_handler,
}
use ledgerops.Http.Accounts.Isolated.{Traced, get_entries-Traced}

-- The rows of an answer, and what a row says of its tenant.
abbrev pub rows_of : List (String × Json) → List (List (String × Scalar))
rows_of [] = []
rows_of ((name, rows rs) ∷ ms) = rs ++ rows_of ms
rows_of ((name, row r) ∷ ms) = r ∷ rows_of ms
rows_of (_ ∷ ms) = rows_of ms

abbrev pub member_of : String → List (String × Scalar) → Option Scalar
member_of name [] = none
member_of name ((n, v) ∷ ms) = if n == name then some v else member_of name ms

abbrev pub Discloses : String → Response → Type 0
Discloses t r = All (λ row. member_of "tenant_id" row ≡ some (text t)) (rows_of r.body)

entries-Discloses :
    (t : String) (traced : List TracedEntry)
    → Traced t traced
    → All (λ row. member_of "tenant_id" row ≡ some (text t)) (entries_to_wire traced)
entries-Discloses t [] h = tt
entries-Discloses t (e ∷ traced) h = (ap (λ t. some (text t)) h.0, entries-Discloses t traced h.1)

-- A refusal has no rows.
refusal_rows :
    (kind : ViolationKind) (v : Violation) (s : Site)
    → rows_of (refuse_violation kind v s).0.body ≡ []
unfolding write_refusal with_extra put
refusal_rows unbalanced v s = refl
refusal_rows insufficient_funds v s = refl
refusal_rows unknown_account v s = refl
refusal_rows account_already_exists v s = refl
refusal_rows invalid_amount v s = refl
refusal_rows currency_mismatch v s = refl
refusal_rows tenant_already_exists v s = refl
refusal_rows tenant_not_found v s = refl
refusal_rows tenant_link_already_exists v s = refl
refusal_rows tenant_link_not_found v s = refl
refusal_rows counterparty_not_found v s = refl

error_rows : (e : Error) (s : Site) → rows_of (write_domain_error e s).0.body ≡ []
unfolding write_domain_error write_violation
error_rows (violation v) s = refusal_rows v.kind v _
error_rows idempotency_key_conflict s = refl
error_rows idempotency_key_claim_conflict s = refl
error_rows transfer_not_found s = refl
error_rows simulated_transient_fault s = refl
error_rows infrastructure s = refl
error_rows out_of_fuel s = refl

error-Discloses : (t : String) (e : Error) (s : Site) → Discloses t (write_domain_error e s).0
error-Discloses t e s =
    subst (All (λ row. member_of "tenant_id" row ≡ some (text t))) (sym (error_rows e s)) tt

-- A tenant's scope is never widened: it is the tenant's own, or the request is refused.
entries_scope_own :
    (t id named : String) {scope : TenantScope}
    → entries_scope_from_query (scoped_to_tenant t) id named ≡ ok scope
    → scope ≡ scoped_to_tenant t
unfolding entries_scope_from_query
entries_scope_own t id named h = ground arith

answered-Discloses :
    (t id : String) (s : Site) (w : World) (r : Result Error (List TracedEntry) × World)
    → get_entries (scoped_to_tenant t) id w ≡ r
    → Discloses t
        (answer
          (back s (back_in s.process r))
          (λ traced. write_json 200 (("entries", rows (entries_to_wire traced)) ∷ []))).0
answered-Discloses t id s w (ok traced, u) e =
    All-append (λ row. member_of "tenant_id" row ≡ some (text t)) (entries_to_wire traced) []
      (entries-Discloses t traced (get_entries-Traced t id w e)) tt
answered-Discloses t id s w (err e, u) h = error-Discloses t e _

entries_in-Discloses :
    (t : String) (req : Request) (r : Result Error TenantScope) (s : Site)
    → ((scope : TenantScope) → r ≡ ok scope → scope ≡ scoped_to_tenant t)
    → Discloses t (entries_in req r s).0
entries_in-Discloses t req (err e) s h = error-Discloses t e s
entries_in-Discloses t req (ok scope) s h =
    subst (λ scope. Discloses t (entries_in req (ok scope) s).0) (sym (h scope refl))
      (answered-Discloses t req.url_param s s.process.world _ refl)

get_entries_handler-Discloses :
    (t : String) (req : Request) (s : Site)
    → Discloses t (get_entries_handler (with_tenant_scope (scoped_to_tenant t) req) s).0
unfolding get_entries_handler
get_entries_handler-Discloses t req s =
    entries_in-Discloses t (with_tenant_scope (scoped_to_tenant t) req)
      (entries_scope_from_query (scoped_to_tenant t) req.url_param req.query_tenant_id) s
      (λ scope. entries_scope_own t req.url_param req.query_tenant_id)

-- A caller whose token is not the operator's is told of one tenant's entries alone: that of the
-- token.
abbrev pub IsolatedAnswer : Deps → String → World → Response → Type 0
IsolatedAnswer deps token w r =
    (r.status ≡ 401)
    ⊎ ((tenant : String) × ((resolver_of deps.tenant_key_resolver (deps.sha256_hex token) w).0
          ≡ ok (some tenant))
        × Discloses tenant r)

identified-Isolated :
    (deps : Deps) (req : Request) (s : Site) (r : Result Error (Option String) × World)
    → let a =
        (identified
          (λ t. get_entries_handler (with_tenant_scope (scoped_to_tenant t) req))
          (back s (back_in s.process r))).0 in
      (a.status ≡ 401) ⊎ ((tenant : String) × (r.0 ≡ ok (some tenant)) × Discloses tenant a)
unfolding refuse_unidentified_caller
identified-Isolated deps req s (ok (some tenant), w) =
    inr (tenant, refl, get_entries_handler-Discloses tenant req _)
identified-Isolated deps req s (ok none, w) = inl refl
identified-Isolated deps req s (err e, w) = inl refl

-- Whatever account and tenant a request for entries names, a caller whose token is not the
-- operator's key gets status 401, or an answer all of whose rows belong to the tenant that the
-- token resolves to.
pub get_entries_isolated :
    (deps : Deps) (req : Request) (s : Site) {token : String}
    → bearer_token req ≡ some token
    → is_operator_key token deps.operator_key ≡ false
    → IsolatedAnswer deps token s.process.world
        (require_tenant_key_or_operator_key deps get_entries_handler req s).0
unfolding require_tenant_key_or_operator_key bearer_token
get_entries_isolated deps req s {token} bearer operator =
    rw (bearer, operator)
      (identified-Isolated deps req s
        (resolver_of deps.tenant_key_resolver (deps.sha256_hex token) s.process.world))
