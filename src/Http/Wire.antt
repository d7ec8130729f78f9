-- ===== src/Http/Wire.antt =====
-- Requests, answers and the log fields of a request (internal/adapters/http: handlers.go,
-- router.go, logfields.go, request_logging.go). A request arrives routed and with its body read by
-- the JSON parser, member names folded to lower case.
use ledgerops.Prelude.{
  ℕ, String, Bool, true, false, Option, none, some, List, [], ◌∷◌, ◌==◌, any, if◌then◌else◌, Result,
}
use ledgerops.Prelude.Int.{ℤ, pos}
use ledgerops.Ports.Vocabulary.{Error, TenantScope, unscoped}
use ledgerops.App.Coordinator.Process.{Process, Saga}

-- What an answer's members and the log fields hold.
pub data Scalar : Type 0 where
  text : String → Scalar
  number : ℤ → Scalar
  flag : Bool → Scalar
  time : ℕ → Scalar

pub data Json : Type 0 where
  scalar : Scalar → Json
  texts : List String → Json
  row : List (String × Scalar) → Json
  rows : List (List (String × Scalar)) → Json

-- A member of a request's body: `other` is every value that no field of the requests takes.
pub data Value : Type 0 where
  text_value : String → Value
  number_value : ℤ → Value
  null other : Value

pub record Member : Type 0 where
  pub name : String
  pub value : Value

-- A body that could not be read, one that is not an object (or null), and an object, with whether
-- anything stands behind it.
pub data Body : Type 0 where
  unreadable garbled : Body
  object : List Member → Bool → Body

-- `scope` is what the middleware puts into the request's context.
pub record Request : Type 0 where
  pub authorization : String
  pub idempotency_key : String
  pub url_param : String
  pub query_tenant_id : String
  pub body : Body
  pub scope : Option TenantScope

-- `body` is what the encoder writes as JSON, `page` the text of a page that is not JSON.
pub record Response : Type 0 where
  pub status : ℕ
  pub body : List (String × Json)
  pub page : String

-- The Prometheus series that requests change, without the times.
pub record Metrics : Type 0 where
  pub posted : ℕ
  pub rejected : ℕ
  pub replayed : ℕ
  pub insufficient_funds : ℕ
  pub idempotent_replays : ℕ
  pub trial_balance_imbalance : ℤ
  pub trial_balance_scans : ℕ
  pub drifted_accounts : ℕ

-- One record of the log: a warning or not, and its fields.
pub record LogLine : Type 0 where
  pub warning : Bool
  pub fields : List (String × Json)

-- What a request runs on: the coordinator's process with the store in it, the fields of the request
-- that is being answered, the metrics and the log.
pub record Site : Type 0 where
  pub process : Process
  pub fields : List (String × Json)
  pub metrics : Metrics
  pub log : List LogLine

abbrev pub Handler : Type 0
Handler = Request → Site → Response × Site

-- `m[key] = value`
unfoldable pub put : String → Json → List (String × Json) → List (String × Json)
put key value [] = (key, value) ∷ []
put key value ((k, v) ∷ ms) =
    let rest = put key value ms in if k == key then (k, value) ∷ ms else (k, v) ∷ rest

-- `fields.Set`
unfoldable pub set_field : String → Json → Site → Site
unfolding put
set_field key value s = record s { fields = put key value s.fields }

-- `writeJSON`
abbrev pub write_json : ℕ → List (String × Json) → Site → Response × Site
write_json status body s = (record { status = status; body = body; page = "" }, s)

abbrev pub error_body : String → List (String × Json)
error_body kind = ("error", scalar (text kind)) ∷ []

-- `for k, v := range extra { body[k] = v }`
unfoldable pub with_extra : List (String × Json) → List (String × Json) → List (String × Json)
unfolding put
with_extra body [] = body
with_extra body ((k, v) ∷ extra) = with_extra (put k v body) extra

-- `writeRefusal`
unfoldable pub write_refusal : ℕ → String → List (String × Json) → Site → Response × Site
unfolding set_field with_extra
write_refusal status kind extra s =
    write_json status (with_extra (error_body kind) extra)
      (set_field "violation_kind" (scalar (text kind)) s)

abbrev pub malformed_request : Site → Response × Site
malformed_request s = write_refusal 400 "malformed_request" [] s

-- A call of a use case, and of the coordinator.
abbrev pub back {ℓ} : {A : Type ℓ} → Site → Result Error A × Process → Result Error A × Site
back s (r, p) = (r, record s { process = p })

abbrev pub run {ℓ} : {A : Type ℓ} → Saga A → Site → Result Error A × Site
run m s = back s (m s.process)

-- `TenantScopeFromContext`: the zero value where the context holds none.
abbrev pub scope_or_zero : Option TenantScope → TenantScope
scope_or_zero none = unscoped
scope_or_zero (some scope) = scope

abbrev pub tenant_scope_from_context : Request → TenantScope
tenant_scope_from_context req = scope_or_zero req.scope

-- `withTenantScope`
abbrev pub with_tenant_scope : TenantScope → Request → Request
with_tenant_scope scope req = record req { scope = some scope }

-- `encoding/json` on a field of a struct: a text field that a member names takes the last text that
-- it is given, null leaves it, and any other value is an error. So does a number field.
abbrev pub text_of : Value → String → Option String
text_of (text_value t) current = some t
text_of null current = some current
text_of _ current = none

abbrev pub number_of : Value → ℤ → Option ℤ
number_of (number_value n) current = some n
number_of null current = some current
number_of _ current = none

abbrev pub decode_field {ℓ} :
    {A : Type ℓ} → (Value → A → Option A) → String → List Member → A → Option A
decode_field read name [] current = some current
decode_field read name (m ∷ ms) current =
    elim (if m.name == name then read m.value current else some current) [
      | none ↦ none
      | some next ↦ decode_field read name ms next
    ]

abbrev pub text_field : String → List Member → Option String
text_field name ms = decode_field text_of name ms ""

abbrev pub number_field : String → List Member → Option ℤ
number_field name ms = decode_field number_of name ms (pos 0)

-- `json.NewDecoder(r.Body).Decode`: the members of the object in front of the body.
abbrev pub members : Body → Option (List Member)
members unreadable = none
members garbled = none
members (object ms trailing) = some ms

-- `DisallowUnknownFields`
abbrev pub all_known : List String → List Member → Bool
all_known names [] = true
all_known names (m ∷ ms) = if any (λ name. name == m.name) names then all_known names ms else false

abbrev pub members_known : List String → Body → Option (List Member)
members_known names body = elim (members body) [
  | none ↦ none
  | some ms ↦ if all_known names ms then some ms else none
]

-- The fields of a request of texts, in order; an error where one cannot be decoded.
abbrev pub text_fields : List String → List Member → Option (List String)
text_fields [] ms = some []
text_fields (name ∷ names) ms = elim (text_field name ms) [
  | none ↦ none
  | some t ↦ elim (text_fields names ms) [ none ↦ none | some ts ↦ some (t ∷ ts) ]
]

abbrev pub decode_texts : List String → Body → Option (List String)
decode_texts names body = elim (members body) [ none ↦ none | some ms ↦ text_fields names ms ]

abbrev pub decode_known_texts : List String → Body → Option (List String)
decode_known_texts names body = elim (members_known names body) [
  | none ↦ none
  | some ms ↦ text_fields names ms
]

-- `json.Unmarshal` of one text field, its error ignored: nothing is read where anything stands
-- behind the object, and a value that is no text leaves the field.
abbrev pub kept_text : Value → String → Option String
kept_text (text_value t) current = some t
kept_text _ current = some current

abbrev pub unmarshalled : Option String → String
unmarshalled none = ""
unmarshalled (some t) = t

abbrev pub unmarshal_text : String → Body → String
unmarshal_text name (object ms false) = unmarshalled (decode_field kept_text name ms "")
unmarshal_text name _ = ""
