-- ===== src/Http/Transfers.antt =====
-- Handlers of internal/adapters/http/handlers.go: transfers within a tenant, and between two.
use Prim.Native.String.{◌++◌}
use ledgerops.Prelude.{
  ℕ, String, Bool, true, false, ◌||◌, Option, none, some, List, [], ◌∷◌, if◌then◌else◌, Result, ok,
  err,
}
use ledgerops.Prelude.Decimal.{signed_decimal}
use ledgerops.Domain.Violation.{Money, insufficient_funds}
use ledgerops.Domain.Posting.{Entry}
use ledgerops.Ports.Vocabulary.{
  Error, violation, idempotency_key_conflict, transfer_not_found, TransferStatus, pending, retrying,
  settled, reversed, reversal_failed, LegStatus, leg_pending, leg_posted, leg_reversed,
}
use ledgerops.App.Transfer.{TransferRequest, Answer, post_transfer}
use ledgerops.App.Coordinator.Process.{shell}
use ledgerops.App.Coordinator.Viewing.{TransferView, get_transfer}
use ledgerops.App.Coordinator.Sending.{send_transfer}
use ledgerops.App.Coordinator.Ticker.{trigger_forward_legs}
use ledgerops.Http.Amount.{AmountError, not_lexically_a_number, illegal, parse_amount, format_money}
use ledgerops.Http.Wire.{
  Scalar, text, number, flag, Json, scalar, texts, row, rows, Body, unreadable, Request, Response,
  Site, Handler, set_field, write_json, write_refusal, malformed_request, run, decode_known_texts,
  unmarshal_text,
}
use ledgerops.Http.Metrics.{
  posting_posted, posting_rejected, posting_replayed, observe_posting,
  observe_insufficient_funds_rejection, observe_idempotent_replay, observe,
}
use ledgerops.Http.Status.{write_domain_error, answer}
use ledgerops.Http.Auth.{Deps}
use ledgerops.Http.Accounts.{is_empty, caller_tenant}

-- `fingerprintTransfer` and `fingerprintCrossTenantTransfer`
unfoldable pub fingerprint_transfer : String → String → Money → String
unfolding signed_decimal
fingerprint_transfer from to amount =
    from
    ++ ("|" ++ (to ++ ("|" ++ (signed_decimal amount.minor_units ++ ("|" ++ amount.currency)))))

unfoldable pub fingerprint_cross_tenant_transfer : String → Money → String
unfolding signed_decimal
fingerprint_cross_tenant_transfer alias amount =
    alias ++ ("|" ++ (signed_decimal amount.minor_units ++ ("|" ++ amount.currency)))

abbrev pub leg_to_wire : Entry → List (String × Scalar)
leg_to_wire entry =
    ("account", text entry.account_id) ∷ ("amount", text (format_money entry.amount)) ∷ []

abbrev pub legs_to_wire : List Entry → List (List (String × Scalar))
legs_to_wire [] = []
legs_to_wire (entry ∷ entries) = leg_to_wire entry ∷ legs_to_wire entries

-- `transferAnswer`
abbrev pub transfer_answer : Answer → List (String × Json)
transfer_answer result =
    ("transaction_id", scalar (text result.posting.transaction.id))
    ∷ ("legs", rows (legs_to_wire result.posting.entries))
    ∷ []

-- `recordPostingFailure`
abbrev pub is_insufficient_funds : Error → Bool
is_insufficient_funds (violation v) = elim v.kind [ insufficient_funds ↦ true | _ ↦ false ]
is_insufficient_funds _ = false

abbrev pub record_posting_failure : Error → Site → Site
record_posting_failure e s =
    let counted = observe (observe_posting posting_rejected) s in
    if is_insufficient_funds e
    then observe observe_insufficient_funds_rejection counted
    else counted

-- `recordPostingSuccess`: the status of the answer, beside what it counts.
abbrev pub record_posting_success : Bool → Site → ℕ × Site
record_posting_success true s =
    (200, observe observe_idempotent_replay (observe (observe_posting posting_replayed) s))
record_posting_success false s = (201, observe (observe_posting posting_posted) s)

-- `recordTransferLogFields`
abbrev pub record_transfer_log_fields :
    Deps → String → String → Money → String → Answer → Site → Site
record_transfer_log_fields deps from to amount key result s =
    set_field "replayed" (scalar (flag result.replayed)) (
      set_field "idempotency_key_hash" (scalar (text (deps.sha256_hex key))) (
        set_field "currency" (scalar (text amount.currency)) (
          set_field "amount_minor" (scalar (number amount.minor_units)) (
            set_field "account_ids" (texts (from ∷ to ∷ []))
              (set_field "transaction_id" (scalar (text result.posting.transaction.id)) s)))))

abbrev pub answer_posting :
    Deps → String → String → Money → String → Result Error Answer × Site → Response × Site
answer_posting deps from to amount key (err idempotency_key_conflict, s) =
    write_refusal 409 "idempotency_key_conflict" [] s
answer_posting deps from to amount key (err e, s) =
    write_domain_error e (record_posting_failure e s)
answer_posting deps from to amount key (ok result, s) =
    let (status, counted) = record_posting_success result.replayed s in
    write_json status (transfer_answer result)
      (record_transfer_log_fields deps from to amount key result counted)

-- What the amount of a request leads to: `parseAmount`, and the two refusals.
abbrev pub with_amount :
    Result AmountError Money → (Money → Site → Response × Site) → Site → Response × Site
with_amount (err not_lexically_a_number) rest s = malformed_request s
with_amount (err (illegal v)) rest s = write_domain_error (violation v) s
with_amount (ok amount) rest s = rest amount s

abbrev pub transfer_request_of : Request → String → String → Money → TransferRequest
transfer_request_of req from to amount = record {
  from = from;
  to = to;
  amount = amount;
  idempotency_key = req.idempotency_key;
  fingerprint = fingerprint_transfer from to amount;
  tenant_id = caller_tenant req;
}

abbrev pub post_amount : Deps → Request → String → String → Money → Site → Response × Site
post_amount deps req from to amount s =
    answer_posting deps from to amount req.idempotency_key
      (run (shell (post_transfer s.process.tries (transfer_request_of req from to amount))) s)

abbrev pub post_fields : Deps → Request → Option (List String) → Site → Response × Site
post_fields deps req (some (from ∷ to ∷ amount ∷ [])) s =
    if is_empty from || is_empty to || is_empty amount
    then malformed_request s
    else with_amount (parse_amount amount) (post_amount deps req from to) s
post_fields deps req _ s = malformed_request s

-- `postTransferHandler`
unfoldable pub post_transfer_handler : Deps → Handler
unfolding post_transfer fingerprint_transfer write_domain_error parse_amount set_field write_refusal
post_transfer_handler deps req s =
    if is_empty req.idempotency_key
    then write_refusal 400 "missing_idempotency_key" [] s
    else post_fields deps req (decode_known_texts ("from" ∷ "to" ∷ "amount" ∷ []) req.body) s

abbrev pub status_text : TransferStatus → String
status_text pending = "pending"
status_text retrying = "retrying"
status_text settled = "settled"
status_text reversed = "reversed"
status_text reversal_failed = "reversal_failed"

-- `legViewWire`: a leg that is not filled in has the empty status.
abbrev pub leg_view_wire : Option LegStatus → Json
leg_view_wire none = row (("status", text "") ∷ [])
leg_view_wire (some leg_pending) = row (("status", text "pending") ∷ [])
leg_view_wire (some leg_posted) = row (("status", text "posted") ∷ [])
leg_view_wire (some leg_reversed) = row (("status", text "reversed") ∷ [])

abbrev pub reason_member : String → List (String × Json) → List (String × Json)
reason_member reason rest =
    if is_empty reason then rest else ("reason", scalar (text reason)) ∷ rest

-- `transferViewAnswer`
abbrev pub transfer_view_answer : TransferView → Bool → List (String × Json)
transfer_view_answer view all_legs =
    ("transfer_id", scalar (text view.transfer_id))
    ∷ ("status", scalar (text (status_text view.status)))
    ∷ ("leg1", leg_view_wire view.leg1)
    ∷ reason_member view.reason (
        if all_legs
        then ("leg2", leg_view_wire view.leg2) ∷ ("leg3", leg_view_wire view.leg3) ∷ []
        else [])

-- The legs are triggered after the answer is written, for a new transfer.
abbrev pub trigger_if : Bool → String → Response × Site → Response × Site
trigger_if true transfer_id (r, s) = (r, (run (trigger_forward_legs transfer_id) s).1)
trigger_if false transfer_id (r, s) = (r, s)

abbrev pub answer_sent : TransferView × Bool → Site → Response × Site
answer_sent (view, created) s =
    trigger_if created view.transfer_id (write_json 202 (transfer_view_answer view false) s)

abbrev pub send_amount : Request → String → Money → Site → Response × Site
send_amount req alias amount s =
    answer
      (run
        (shell (
          send_transfer s.process.tries (caller_tenant req) alias amount req.idempotency_key
            (fingerprint_cross_tenant_transfer alias amount)))
        s)
      answer_sent

abbrev pub send_fields : Request → Option (List String) → Site → Response × Site
send_fields req (some (alias ∷ amount ∷ [])) s =
    if is_empty alias || is_empty amount
    then malformed_request s
    else with_amount (parse_amount amount) (send_amount req alias) s
send_fields req _ s = malformed_request s

-- `sendCrossTenantTransferHandler`
unfoldable pub send_cross_tenant_transfer_handler : Handler
unfolding send_transfer fingerprint_cross_tenant_transfer trigger_forward_legs parse_amount
    write_refusal
send_cross_tenant_transfer_handler req s =
    if is_empty req.idempotency_key
    then write_refusal 400 "missing_idempotency_key" [] s
    else send_fields req (decode_known_texts ("counterparty_alias" ∷ "amount" ∷ []) req.body) s

-- `postTransferOrCrossTenantHandler`
abbrev pub discriminate : Deps → Body → Handler
discriminate deps unreadable req s = malformed_request s
discriminate deps body req s =
    if is_empty (unmarshal_text "counterparty_alias" body)
    then post_transfer_handler deps req s
    else send_cross_tenant_transfer_handler req s

unfoldable pub post_transfer_or_cross_tenant_handler : Deps → Handler
unfolding post_transfer_handler send_cross_tenant_transfer_handler
post_transfer_or_cross_tenant_handler deps req s = discriminate deps req.body req s

-- `getTransferHandler`
abbrev pub answer_view : Result Error TransferView × Site → Response × Site
answer_view (err transfer_not_found, s) = write_refusal 404 "transfer_not_found" [] s
answer_view (err e, s) = write_domain_error e s
answer_view (ok view, s) = write_json 200 (transfer_view_answer view true) s

unfoldable pub get_transfer_handler : Handler
unfolding get_transfer write_refusal write_domain_error
get_transfer_handler req s = answer_view (run (shell (get_transfer req.url_param)) s)
