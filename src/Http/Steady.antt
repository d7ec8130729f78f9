-- ===== src/Http/Steady.antt =====
-- Handlers that keep the process of a site steady (internal/adapters/http).
pub mod Handlers
pub mod Movements
pub mod Guards
pub mod Seam
pub mod Served
use ledgerops.Prelude.{
  ℕ, String, ◌≡◌, refl, Bool, true, false, Option, none, some, List, [], ◌∷◌, if◌then◌else◌, Result,
  ok, err,
}
use ledgerops.Domain.Violation.{
  Violation, ViolationKind, unbalanced, insufficient_funds, unknown_account, account_already_exists,
  invalid_amount, currency_mismatch, tenant_already_exists, tenant_not_found,
  tenant_link_already_exists, tenant_link_not_found, counterparty_not_found,
}
use ledgerops.Ports.Vocabulary.{Error}
use ledgerops.App.Coordinator.Process.{Process, Saga}
use ledgerops.App.Coordinator.Steady.{Steady, SagaKeeps}
use ledgerops.Http.Wire.{Json, Request, Response, Site, Handler, set_field, write_refusal, run}
use ledgerops.Http.Status.{refuse_violation, write_violation, write_domain_error, answer}

-- A reply that keeps the process steady, and a handler all of whose replies do.
abbrev pub SiteSteady : Site → Type 0
SiteSteady s = Steady s.process

pub record ReplyKeeps (f : Site → Response × Site) : Type 0 where
  pub at : (s : Site) → SiteSteady s → SiteSteady (f s).1

pub write_refusal-ReplyKeeps :
    (status : ℕ) (kind : String) (extra : List (String × Json))
    → ReplyKeeps (write_refusal status kind extra)
unfolding write_refusal set_field
write_refusal-ReplyKeeps status kind extra = record { at = λ s h. h }

refuse_violation-ReplyKeeps :
    (kind : ViolationKind) (v : Violation) → ReplyKeeps (refuse_violation kind v)
refuse_violation-ReplyKeeps unknown_account v = write_refusal-ReplyKeeps _ _ _
refuse_violation-ReplyKeeps unbalanced v = record { at = λ s h. h }
refuse_violation-ReplyKeeps insufficient_funds v = write_refusal-ReplyKeeps _ _ _
refuse_violation-ReplyKeeps account_already_exists v = write_refusal-ReplyKeeps _ _ _
refuse_violation-ReplyKeeps invalid_amount v = write_refusal-ReplyKeeps _ _ _
refuse_violation-ReplyKeeps currency_mismatch v = write_refusal-ReplyKeeps _ _ _
refuse_violation-ReplyKeeps tenant_already_exists v = write_refusal-ReplyKeeps _ _ _
refuse_violation-ReplyKeeps tenant_not_found v = write_refusal-ReplyKeeps _ _ _
refuse_violation-ReplyKeeps tenant_link_already_exists v = write_refusal-ReplyKeeps _ _ _
refuse_violation-ReplyKeeps tenant_link_not_found v = write_refusal-ReplyKeeps _ _ _
refuse_violation-ReplyKeeps counterparty_not_found v = write_refusal-ReplyKeeps _ _ _

pub write_domain_error-ReplyKeeps : (e : Error) → ReplyKeeps (write_domain_error e)
unfolding write_domain_error write_violation set_field
write_domain_error-ReplyKeeps (Error.violation v) = record {
  at = λ s h. (refuse_violation-ReplyKeeps v.kind v).at _ h;
}
write_domain_error-ReplyKeeps Error.idempotency_key_conflict = record { at = λ s h. h }
write_domain_error-ReplyKeeps Error.idempotency_key_claim_conflict = record { at = λ s h. h }
write_domain_error-ReplyKeeps Error.transfer_not_found = record { at = λ s h. h }
write_domain_error-ReplyKeeps Error.simulated_transient_fault = record { at = λ s h. h }
write_domain_error-ReplyKeeps Error.infrastructure = record { at = λ s h. h }
write_domain_error-ReplyKeeps Error.out_of_fuel = record { at = λ s h. h }

pub answer-Steady {ℓ} :
    {A : Type ℓ} (r : Result Error A × Site) (rest : A → Site → Response × Site)
    → SiteSteady r.1
    → ((a : A) → ReplyKeeps (rest a))
    → SiteSteady (answer r rest).1
answer-Steady (ok a, s) rest h k = (k a).at s h
answer-Steady (err e, s) rest h k = (write_domain_error-ReplyKeeps e).at s h

-- A use case, and the answer to what it gives.
pub run-answer-ReplyKeeps {ℓ} :
    {A : Type ℓ} (m : Saga A) (rest : A → Site → Response × Site)
    → SagaKeeps m
    → ((a : A) → ReplyKeeps (rest a))
    → ReplyKeeps (λ s. answer (run m s) rest)
run-answer-ReplyKeeps m rest h k = record {
  at = λ s g. answer-Steady (run m s) rest (h.at s.process g) k;
}

pub if-ReplyKeeps :
    (b : Bool) (f g : Site → Response × Site)
    → ReplyKeeps f
    → ReplyKeeps g
    → ReplyKeeps (λ s. if b then f s else g s)
if-ReplyKeeps true f g h k = h
if-ReplyKeeps false f g h k = k
