-- ===== src/Http/Status.antt =====
-- internal/adapters/http/status.go, and `writeDomainError` of handlers.go: what a refusal of the
-- domain is answered with.
pub mod Agreement
use ledgerops.Prelude.{ℕ, String, List, [], ◌∷◌, Result, ok, err}
use ledgerops.Domain.Violation.{
  Violation, ViolationKind, unbalanced, insufficient_funds, unknown_account, account_already_exists,
  invalid_amount, currency_mismatch, tenant_already_exists, tenant_not_found,
  tenant_link_already_exists, tenant_link_not_found, counterparty_not_found,
}
use ledgerops.Ports.Vocabulary.{Error, violation}
use ledgerops.Http.Amount.{format_money}
use ledgerops.Http.Wire.{
  text, Json, scalar, Response, Site, Handler, set_field, write_json, error_body, write_refusal,
}

-- `string(v.Kind())`
abbrev pub kind_name : ViolationKind → String
kind_name unbalanced = "unbalanced"
kind_name insufficient_funds = "insufficient_funds"
kind_name unknown_account = "account_not_found"
kind_name account_already_exists = "account_already_exists"
kind_name invalid_amount = "invalid_amount"
kind_name currency_mismatch = "currency_mismatch"
kind_name tenant_already_exists = "tenant_already_exists"
kind_name tenant_not_found = "tenant_not_found"
kind_name tenant_link_already_exists = "tenant_link_already_exists"
kind_name tenant_link_not_found = "tenant_link_not_found"
kind_name counterparty_not_found = "counterparty_not_found"

abbrev pub detail : String → String → List (String × Json)
detail name value = (name, scalar (text value)) ∷ []

abbrev pub internal_error : Site → Response × Site
internal_error = write_json 500 (error_body "internal_error")

-- The switch of `writeViolation`.
abbrev pub refuse_violation : ViolationKind → Violation → Site → Response × Site
refuse_violation unknown_account v =
    write_refusal 404 (kind_name unknown_account) (detail "account_id" v.account)
refuse_violation account_already_exists v =
    write_refusal 409 (kind_name account_already_exists) (detail "account_id" v.account)
refuse_violation insufficient_funds v = write_refusal 422 (kind_name insufficient_funds) (
    ("account_id", scalar (text v.account))
    ∷ ("available", scalar (text (format_money v.available)))
    ∷ ("requested", scalar (text (format_money v.requested)))
    ∷ [])
refuse_violation invalid_amount v = write_refusal 422 (kind_name invalid_amount) []
refuse_violation currency_mismatch v = write_refusal 422 (kind_name currency_mismatch) (
    ("from_currency", scalar (text v.from_currency))
    ∷ ("to_currency", scalar (text v.to_currency))
    ∷ [])
refuse_violation tenant_already_exists v =
    write_refusal 409 (kind_name tenant_already_exists) (detail "tenant" v.tenant)
refuse_violation tenant_not_found v =
    write_refusal 404 (kind_name tenant_not_found) (detail "tenant" v.tenant)
refuse_violation tenant_link_already_exists v =
    write_refusal 409 (kind_name tenant_link_already_exists) []
refuse_violation tenant_link_not_found v = write_refusal 404 (kind_name tenant_link_not_found) []
refuse_violation counterparty_not_found v = write_refusal 404 (kind_name counterparty_not_found) []
refuse_violation unbalanced v = internal_error

-- `writeViolation`
unfoldable pub write_violation : Violation → Site → Response × Site
unfolding set_field
write_violation v s =
    refuse_violation v.kind v (set_field "violation_kind" (scalar (text (kind_name v.kind))) s)

-- `writeDomainError`
unfoldable pub write_domain_error : Error → Site → Response × Site
unfolding write_violation
write_domain_error (violation v) = write_violation v
write_domain_error _ = internal_error

-- `if err != nil { writeDomainError(…); return }`, and the answer to a success.
abbrev pub answer {ℓ} :
    {A : Type ℓ} → Result Error A × Site → (A → Site → Response × Site) → Response × Site
answer (err e, s) rest = write_domain_error e s
answer (ok a, s) rest = rest a s
