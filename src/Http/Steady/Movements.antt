-- ===== src/Http/Steady/Movements.antt =====
-- The handlers of transfers keep the process steady.
use ledgerops.Prelude.{
  String, ◌≡◌, refl, Bool, true, false, ◌||◌, Option, none, some, List, [], ◌∷◌, if◌then◌else◌,
  Result, ok, err,
}
use ledgerops.Domain.Violation.{Money}
use ledgerops.Domain.Post.Rules.{IsRange}
use ledgerops.Ports.Vocabulary.{Error}
use ledgerops.App.Transfer.{Answer, post_transfer}
use ledgerops.App.Transfer.Safe.{post_transfer-IsSound}
use ledgerops.App.Coordinator.Process.{shell}
use ledgerops.App.Coordinator.Viewing.{TransferView, get_transfer}
use ledgerops.App.Coordinator.Sending.{send_transfer}
use ledgerops.App.Coordinator.Steady.{shell-SagaKeeps}
use ledgerops.App.Coordinator.Steady.Ticking.{trigger_forward_legs-SagaKeeps}
use ledgerops.App.Coordinator.Steady.Sent.{send_transfer-Keeps, get_transfer-Keeps}
use ledgerops.Http.Amount.{AmountError, not_lexically_a_number, illegal, parse_amount}
use ledgerops.Http.Wire.{
  set_field, run, Request, Response, Site, Body, unreadable, garbled, object, decode_known_texts,
  unmarshal_text,
}
use ledgerops.Http.Status.{write_domain_error}
use ledgerops.Http.Auth.{Deps}
use ledgerops.Http.Accounts
use ledgerops.Http.Transfers
use ledgerops.Http.Steady.{
  SiteSteady, ReplyKeeps, write_refusal-ReplyKeeps, write_domain_error-ReplyKeeps, answer-Steady,
  if-ReplyKeeps,
}
use ledgerops.Http.Steady.Handlers.{malformed-ReplyKeeps, parse_amount-IsRange}

if-SiteSteady :
    (b : Bool) (s t : Site) → SiteSteady s → SiteSteady t → SiteSteady (if b then s else t)
if-SiteSteady true s t h k = h
if-SiteSteady false s t h k = k

failure-Steady :
    (e : Error) (s : Site) → SiteSteady s → SiteSteady (Transfers.record_posting_failure e s)
failure-Steady e s h = if-SiteSteady (Transfers.is_insufficient_funds e) _ _ h h

refused-Steady :
    (e : Error) (s : Site)
    → SiteSteady s
    → SiteSteady (write_domain_error e (Transfers.record_posting_failure e s)).1
refused-Steady e s h = (write_domain_error-ReplyKeeps e).at _ (failure-Steady e s h)

success-Steady :
    (replayed : Bool) (s : Site)
    → SiteSteady s
    → SiteSteady (Transfers.record_posting_success replayed s).1
success-Steady true s h = h
success-Steady false s h = h

answer_posting-Steady :
    (deps : Deps) (from to : String) (amount : Money) (key : String)
    (r : Result Error Answer × Site)
    → SiteSteady r.1
    → SiteSteady (Transfers.answer_posting deps from to amount key r).1
unfolding set_field
answer_posting-Steady deps from to amount key (err Error.idempotency_key_conflict, s) h =
    (write_refusal-ReplyKeeps _ _ _).at s h
answer_posting-Steady deps from to amount key (err (Error.violation v), s) h =
    refused-Steady (Error.violation v) s h
answer_posting-Steady deps from to amount key (err Error.idempotency_key_claim_conflict, s) h =
    refused-Steady Error.idempotency_key_claim_conflict s h
answer_posting-Steady deps from to amount key (err Error.transfer_not_found, s) h =
    refused-Steady Error.transfer_not_found s h
answer_posting-Steady deps from to amount key (err Error.simulated_transient_fault, s) h =
    refused-Steady Error.simulated_transient_fault s h
answer_posting-Steady deps from to amount key (err Error.infrastructure, s) h =
    refused-Steady Error.infrastructure s h
answer_posting-Steady deps from to amount key (err Error.out_of_fuel, s) h =
    refused-Steady Error.out_of_fuel s h
answer_posting-Steady deps from to amount key (ok result, s) h = success-Steady result.replayed s h

with_amount-ReplyKeeps :
    (t : String) (rest : Money → Site → Response × Site)
    → ((m : Money) → IsRange m → ReplyKeeps (rest m))
    → ReplyKeeps (Transfers.with_amount (parse_amount t) rest)
with_amount-ReplyKeeps t rest k = cases (parse_amount t) (λ m e. k m (parse_amount-IsRange t e))
  where
    cases :
        (r : Result AmountError Money)
        → ((m : Money) → r ≡ ok m → ReplyKeeps (rest m))
        → ReplyKeeps (Transfers.with_amount r rest)
    cases (err not_lexically_a_number) l = malformed-ReplyKeeps
    cases (err (illegal v)) l = write_domain_error-ReplyKeeps _
    cases (ok m) l = l m refl

post_amount-ReplyKeeps :
    (deps : Deps) (req : Request) (from to : String) (amount : Money)
    → IsRange amount
    → ReplyKeeps (Transfers.post_amount deps req from to amount)
post_amount-ReplyKeeps deps req from to amount r = record {
  at = λ s h.
      answer_posting-Steady deps from to amount req.idempotency_key
        (run
          (shell (post_transfer s.process.tries (Transfers.transfer_request_of req from to amount)))
          s)
        ((shell-SagaKeeps
            (post_transfer s.process.tries (Transfers.transfer_request_of req from to amount))
            (λ w g. post_transfer-IsSound s.process.tries _ w r g)).at
          s.process h);
}

pub post_transfer-ReplyKeeps :
    (deps : Deps) (req : Request) → ReplyKeeps (Transfers.post_transfer_handler deps req)
unfolding Transfers.post_transfer_handler
post_transfer-ReplyKeeps deps req =
    if-ReplyKeeps (Accounts.is_empty req.idempotency_key) _ _
      (write_refusal-ReplyKeeps 400 "missing_idempotency_key" [])
      (fields (decode_known_texts ("from" ∷ "to" ∷ "amount" ∷ []) req.body))
  where
    fields : (ts : Option (List String)) → ReplyKeeps (Transfers.post_fields deps req ts)
    fields none = malformed-ReplyKeeps
    fields (some []) = malformed-ReplyKeeps
    fields (some (a ∷ [])) = malformed-ReplyKeeps
    fields (some (a ∷ b ∷ [])) = malformed-ReplyKeeps
    fields (some (a ∷ b ∷ c ∷ [])) =
        if-ReplyKeeps (Accounts.is_empty a || Accounts.is_empty b || Accounts.is_empty c) _ _
          malformed-ReplyKeeps
          (with_amount-ReplyKeeps c _ (λ m r. post_amount-ReplyKeeps deps req a b m r))
    fields (some (a ∷ b ∷ c ∷ x ∷ xs)) = malformed-ReplyKeeps

sent-ReplyKeeps : (a : TransferView × Bool) → ReplyKeeps (Transfers.answer_sent a)
sent-ReplyKeeps (view, true) = record {
  at = λ s h. (trigger_forward_legs-SagaKeeps view.transfer_id).at s.process h;
}
sent-ReplyKeeps (view, false) = record { at = λ s h. h }

send_amount-ReplyKeeps :
    (req : Request) (alias : String) (amount : Money)
    → IsRange amount
    → ReplyKeeps (Transfers.send_amount req alias amount)
unfolding Transfers.fingerprint_cross_tenant_transfer
send_amount-ReplyKeeps req alias amount r = record {
  at = λ s h.
      answer-Steady
        (run
          (shell (
            send_transfer s.process.tries (Accounts.caller_tenant req) alias amount
              req.idempotency_key (Transfers.fingerprint_cross_tenant_transfer alias amount)))
          s)
        Transfers.answer_sent
        ((shell-SagaKeeps
            (send_transfer s.process.tries (Accounts.caller_tenant req) alias amount
              req.idempotency_key (Transfers.fingerprint_cross_tenant_transfer alias amount))
            (send_transfer-Keeps s.process.tries (Accounts.caller_tenant req) alias amount
              req.idempotency_key (Transfers.fingerprint_cross_tenant_transfer alias amount) r)).at
          s.process h)
        sent-ReplyKeeps;
}

pub send_transfer-ReplyKeeps :
    (req : Request) → ReplyKeeps (Transfers.send_cross_tenant_transfer_handler req)
unfolding Transfers.send_cross_tenant_transfer_handler
send_transfer-ReplyKeeps req =
    if-ReplyKeeps (Accounts.is_empty req.idempotency_key) _ _
      (write_refusal-ReplyKeeps 400 "missing_idempotency_key" [])
      (fields (decode_known_texts ("counterparty_alias" ∷ "amount" ∷ []) req.body))
  where
    fields : (ts : Option (List String)) → ReplyKeeps (Transfers.send_fields req ts)
    fields none = malformed-ReplyKeeps
    fields (some []) = malformed-ReplyKeeps
    fields (some (a ∷ [])) = malformed-ReplyKeeps
    fields (some (a ∷ b ∷ [])) =
        if-ReplyKeeps (Accounts.is_empty a || Accounts.is_empty b) _ _ malformed-ReplyKeeps
          (with_amount-ReplyKeeps b _ (λ m r. send_amount-ReplyKeeps req a m r))
    fields (some (a ∷ b ∷ x ∷ xs)) = malformed-ReplyKeeps

either-ReplyKeeps :
    (deps : Deps) (req : Request) (b : Bool)
    → ReplyKeeps (λ s.
      if b
      then Transfers.post_transfer_handler deps req s
      else Transfers.send_cross_tenant_transfer_handler req s)
either-ReplyKeeps deps req b =
    if-ReplyKeeps b _ _ (post_transfer-ReplyKeeps deps req) (send_transfer-ReplyKeeps req)

pub transfer_or_cross_tenant-ReplyKeeps :
    (deps : Deps) (req : Request)
    → ReplyKeeps (Transfers.post_transfer_or_cross_tenant_handler deps req)
unfolding Transfers.post_transfer_or_cross_tenant_handler
transfer_or_cross_tenant-ReplyKeeps deps req = by_body req.body
  where
    by_body : (b : Body) → ReplyKeeps (Transfers.discriminate deps b req)
    by_body unreadable = malformed-ReplyKeeps
    by_body garbled =
        either-ReplyKeeps deps req (Accounts.is_empty (unmarshal_text "counterparty_alias" garbled))
    by_body (object ms end) =
        either-ReplyKeeps deps req
          (Accounts.is_empty (unmarshal_text "counterparty_alias" (object ms end)))

view-Steady :
    (r : Result Error TransferView × Site) → SiteSteady r.1 → SiteSteady (Transfers.answer_view r).1
view-Steady (err Error.transfer_not_found, s) h = (write_refusal-ReplyKeeps _ _ _).at s h
view-Steady (err (Error.violation v), s) h =
    (write_domain_error-ReplyKeeps (Error.violation v)).at s h
view-Steady (err Error.idempotency_key_conflict, s) h =
    (write_domain_error-ReplyKeeps Error.idempotency_key_conflict).at s h
view-Steady (err Error.idempotency_key_claim_conflict, s) h =
    (write_domain_error-ReplyKeeps Error.idempotency_key_claim_conflict).at s h
view-Steady (err Error.simulated_transient_fault, s) h =
    (write_domain_error-ReplyKeeps Error.simulated_transient_fault).at s h
view-Steady (err Error.infrastructure, s) h =
    (write_domain_error-ReplyKeeps Error.infrastructure).at s h
view-Steady (err Error.out_of_fuel, s) h = (write_domain_error-ReplyKeeps Error.out_of_fuel).at s h
view-Steady (ok view, s) h = h

pub get_transfer-ReplyKeeps : (req : Request) → ReplyKeeps (Transfers.get_transfer_handler req)
unfolding Transfers.get_transfer_handler
get_transfer-ReplyKeeps req = record {
  at = λ s h. view-Steady (run (shell (get_transfer req.url_param)) s) (
      (shell-SagaKeeps (get_transfer req.url_param) (get_transfer-Keeps req.url_param)).at s.process
        h);
}
