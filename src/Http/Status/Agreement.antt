-- ===== src/Http/Status/Agreement.antt =====
-- The answer to a refusal, and its line in the log (`writeViolation` of
-- internal/adapters/http/status.go).
use ledgerops.Prelude.{
  ℕ, String, ◌≡◌, ◌≢◌, refl, ◌==◌, Option, none, some, List, [], ◌∷◌, if◌then◌else◌, arith, eq_refl,
}
use ledgerops.Domain.Violation.{
  Violation, ViolationKind, unbalanced, insufficient_funds, unknown_account, account_already_exists,
  invalid_amount, currency_mismatch, tenant_already_exists, tenant_not_found,
  tenant_link_already_exists, tenant_link_not_found, counterparty_not_found,
}
use ledgerops.Http.Wire.{
  text, Json, scalar, Response, Site, put, set_field, with_extra, write_refusal,
}
use ledgerops.Http.Status.{refuse_violation, write_violation}

abbrev pub field_of : String → List (String × Json) → Option Json
field_of name [] = none
field_of name ((n, v) ∷ ms) = if n == name then some v else field_of name ms

field_of-put :
    (name : String) (value : Json) (ms : List (String × Json))
    → field_of name (put name value ms) ≡ some value
unfolding put
field_of-put name value [] = ground (arith, eq_refl name)
field_of-put name value ((n, v) ∷ ms) = ground (arith, field_of-put name value ms)

-- The classes of a refusal.
abbrev pub class_of : ViolationKind → ℕ
class_of unknown_account = 404
class_of tenant_not_found = 404
class_of tenant_link_not_found = 404
class_of counterparty_not_found = 404
class_of account_already_exists = 409
class_of tenant_already_exists = 409
class_of tenant_link_already_exists = 409
class_of insufficient_funds = 422
class_of invalid_amount = 422
class_of currency_mismatch = 422
class_of unbalanced = 500

-- The names that the clients of the service know.
abbrev pub wire_name : ViolationKind → String
wire_name unknown_account = "account_not_found"
wire_name tenant_not_found = "tenant_not_found"
wire_name tenant_link_not_found = "tenant_link_not_found"
wire_name counterparty_not_found = "counterparty_not_found"
wire_name account_already_exists = "account_already_exists"
wire_name tenant_already_exists = "tenant_already_exists"
wire_name tenant_link_already_exists = "tenant_link_already_exists"
wire_name insufficient_funds = "insufficient_funds"
wire_name invalid_amount = "invalid_amount"
wire_name currency_mismatch = "currency_mismatch"
wire_name unbalanced = "unbalanced"

-- The answer has the class of the refusal and its name, and the log has the same name.
pub record Agrees (kind : ViolationKind) (r : Response × Site) : Type 0 where
  pub status : r.0.status ≡ class_of kind
  pub told : field_of "error" r.0.body ≡ some (scalar (text (wire_name kind)))
  pub logged : field_of "violation_kind" r.1.fields ≡ some (scalar (text (wire_name kind)))

kind_logged :
    (kind : ViolationKind) (fields : List (String × Json))
    → field_of "violation_kind" (put "violation_kind" (scalar (text (wire_name kind))) fields)
      ≡ some (scalar (text (wire_name kind)))
kind_logged kind fields = field_of-put "violation_kind" (scalar (text (wire_name kind))) fields

refuse_violation-Agrees :
    (kind : ViolationKind) (v : Violation) (s : Site)
    → kind ≢ unbalanced
    → Agrees kind (refuse_violation kind v s)
unfolding write_refusal with_extra set_field put
refuse_violation-Agrees unbalanced v s h = absurd (h refl)
refuse_violation-Agrees insufficient_funds v s h = record {
  status = refl;
  told = refl;
  logged = kind_logged insufficient_funds s.fields;
}
refuse_violation-Agrees unknown_account v s h = record {
  status = refl;
  told = refl;
  logged = kind_logged unknown_account s.fields;
}
refuse_violation-Agrees account_already_exists v s h = record {
  status = refl;
  told = refl;
  logged = kind_logged account_already_exists s.fields;
}
refuse_violation-Agrees invalid_amount v s h = record {
  status = refl;
  told = refl;
  logged = kind_logged invalid_amount s.fields;
}
refuse_violation-Agrees currency_mismatch v s h = record {
  status = refl;
  told = refl;
  logged = kind_logged currency_mismatch s.fields;
}
refuse_violation-Agrees tenant_already_exists v s h = record {
  status = refl;
  told = refl;
  logged = kind_logged tenant_already_exists s.fields;
}
refuse_violation-Agrees tenant_not_found v s h = record {
  status = refl;
  told = refl;
  logged = kind_logged tenant_not_found s.fields;
}
refuse_violation-Agrees tenant_link_already_exists v s h = record {
  status = refl;
  told = refl;
  logged = kind_logged tenant_link_already_exists s.fields;
}
refuse_violation-Agrees tenant_link_not_found v s h = record {
  status = refl;
  told = refl;
  logged = kind_logged tenant_link_not_found s.fields;
}
refuse_violation-Agrees counterparty_not_found v s h = record {
  status = refl;
  told = refl;
  logged = kind_logged counterparty_not_found s.fields;
}

-- Every refusal of the domain but that of unbalanced entries is answered with the status of its
-- class (404 for what is absent, 409 for what is taken, 422 for what the rules refuse) and under
-- its name, and the log of the request has the same name.
pub write_violation-Agrees :
    (v : Violation) (s : Site) → v.kind ≢ unbalanced → Agrees v.kind (write_violation v s)
unfolding write_violation
write_violation-Agrees v s h = refuse_violation-Agrees v.kind v _ h
