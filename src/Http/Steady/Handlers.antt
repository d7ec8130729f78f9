-- ===== src/Http/Steady/Handlers.antt =====
-- Each handler of internal/adapters/http/handlers.go keeps the process steady.
use ledgerops.Prelude.{
  ℕ, String, ◌≡◌, Bool, ◌||◌, Option, none, some, List, [], ◌∷◌, Result, ok, err, arith,
}
use ledgerops.Domain.Violation.{Money, Violation}
use ledgerops.Domain.Money.{new_money_from_decimal_literal}
use ledgerops.Domain.Account.{AccountKind}
use ledgerops.Domain.Post.Rules.{IsRange}
use ledgerops.Ports.Vocabulary.{Error, TenantScope}
use ledgerops.Ports.Shell.{Shell, rollback, query}
use ledgerops.Ports.Shell.Safety.{begin-closing-Holds, Safe-query, Safe-bind, Safe-pure}
use ledgerops.Postgres.Tenants
use ledgerops.Books.Sound.{IsSound}
use ledgerops.App.Transfer.{create_account}
use ledgerops.App.Transfer.Keeps.{Keeps}
use ledgerops.App.Provisioning.{provision}
use ledgerops.App.Links.{authorize, register_alias, revoke}
use ledgerops.App.Reading.{get_balance, get_entries, verify_books}
use ledgerops.App.Keeping.{
  IsSafe, create_account-Keeps, provision-Keeps, authorize-Keeps, register_alias-Keeps,
  revoke-Keeps, get_balance-Keeps, get_entries-Keeps, verify_books-Keeps,
}
use ledgerops.App.Coordinator.Process.{shell}
use ledgerops.App.Coordinator.Steady.{shell-SagaKeeps}
use ledgerops.Http.Amount.{parse_amount, read_literal, legal}
use ledgerops.Http.Wire.{run, Request, Response, Site, malformed_request, decode_texts}
use ledgerops.Http.Status.{answer}
use ledgerops.Http.Auth.{Deps, read_only, rolled_back}
use ledgerops.Http.Accounts
use ledgerops.Http.Tenants as TenantHandlers
use ledgerops.Http.Books
use ledgerops.Http.Steady.{
  ReplyKeeps, write_refusal-ReplyKeeps, write_domain_error-ReplyKeeps, run-answer-ReplyKeeps,
  if-ReplyKeeps,
}

pub malformed-ReplyKeeps : ReplyKeeps malformed_request
malformed-ReplyKeeps = write_refusal-ReplyKeeps 400 "malformed_request" []

-- A use case, answered without a change of the process.
told {ℓ} :
    {A : Type ℓ} (m : Shell A) (rest : A → Site → Response × Site)
    → Keeps m
    → ((a : A) → ReplyKeeps (rest a))
    → ReplyKeeps (λ s. answer (run (shell m) s) rest)
told m rest k l = run-answer-ReplyKeeps (shell m) rest (shell-SagaKeeps m k) l

new_money_literal-IsRange :
    (negative : Bool) (whole frac : List ℕ) (currency : String) {m : Money}
    → new_money_from_decimal_literal negative whole frac currency ≡ ok m
    → IsRange m
unfolding new_money_from_decimal_literal
new_money_literal-IsRange negative whole frac currency h = ground arith

legal-eq-ok : (r : Result Violation Money) {m : Money} → legal r ≡ ok m → r ≡ ok m
legal-eq-ok (ok x) h = cc
legal-eq-ok (err v) h = cc

read_literal-IsRange :
    (l : Option (Bool × List ℕ × List ℕ)) {m : Money} → read_literal l ≡ ok m → IsRange m
read_literal-IsRange none h = cc
read_literal-IsRange (some (negative, whole, frac)) {m} h =
    new_money_literal-IsRange negative whole frac "USD" (legal-eq-ok _ h)

pub parse_amount-IsRange : (t : String) {m : Money} → parse_amount t ≡ ok m → IsRange m
unfolding parse_amount
parse_amount-IsRange t h = read_literal-IsRange _ h

-- Handlers that decode the fields of the body, and refuse one that has others.
pub create_account-ReplyKeeps : (req : Request) → ReplyKeeps (Accounts.create_account_handler req)
unfolding Accounts.create_account_handler
create_account-ReplyKeeps req = fields (decode_texts ("account_id" ∷ "type" ∷ []) req.body)
  where
    opened :
        (t id : String) (kind : Option AccountKind) → ReplyKeeps (Accounts.open_account t id kind)
    opened t id none = malformed-ReplyKeeps
    opened t id (some kind) =
        told (create_account t id kind) _ (create_account-Keeps t id kind)
          (λ _. record { at = λ s h. h })

    fields : (ts : Option (List String)) → ReplyKeeps (Accounts.create_account_fields req ts)
    fields none = malformed-ReplyKeeps
    fields (some []) = malformed-ReplyKeeps
    fields (some (a ∷ [])) = malformed-ReplyKeeps
    fields (some (a ∷ k ∷ [])) =
        if-ReplyKeeps (Accounts.is_empty a) _ _ malformed-ReplyKeeps
          (opened (Accounts.caller_tenant req) a (Accounts.parse_account_kind k))
    fields (some (a ∷ k ∷ x ∷ xs)) = malformed-ReplyKeeps

pub register-ReplyKeeps :
    (req : Request) → ReplyKeeps (Accounts.register_counterparty_alias_handler req)
unfolding Accounts.register_counterparty_alias_handler
register-ReplyKeeps req =
    fields (decode_texts ("alias" ∷ "target_tenant_id" ∷ "target_account_id" ∷ []) req.body)
  where
    fields : (ts : Option (List String)) → ReplyKeeps (Accounts.register_fields req ts)
    fields none = malformed-ReplyKeeps
    fields (some []) = malformed-ReplyKeeps
    fields (some (a ∷ [])) = malformed-ReplyKeeps
    fields (some (a ∷ b ∷ [])) = malformed-ReplyKeeps
    fields (some (a ∷ b ∷ c ∷ [])) =
        if-ReplyKeeps (Accounts.is_empty a || Accounts.is_empty b || Accounts.is_empty c) _ _
          malformed-ReplyKeeps
          (told (register_alias (Accounts.caller_tenant req) a b c) _
            (register_alias-Keeps (Accounts.caller_tenant req) a b c)
            (λ _. record { at = λ s h. h }))
    fields (some (a ∷ b ∷ c ∷ x ∷ xs)) = malformed-ReplyKeeps

pub get_balance-ReplyKeeps : (req : Request) → ReplyKeeps (Accounts.get_balance_handler req)
unfolding Accounts.get_balance_handler
get_balance-ReplyKeeps req =
    told (get_balance (Accounts.caller_tenant req) req.url_param) _
      (get_balance-Keeps (Accounts.caller_tenant req) req.url_param) (λ _. record { at = λ s h. h })

entries_in-ReplyKeeps :
    (req : Request) (r : Result Error TenantScope) → ReplyKeeps (Accounts.entries_in req r)
entries_in-ReplyKeeps req (err e) = write_domain_error-ReplyKeeps e
entries_in-ReplyKeeps req (ok scope) =
    told (get_entries scope req.url_param) _ (get_entries-Keeps scope req.url_param)
      (λ _. record { at = λ s h. h })

pub get_entries-ReplyKeeps : (req : Request) → ReplyKeeps (Accounts.get_entries_handler req)
unfolding Accounts.get_entries_handler
get_entries-ReplyKeeps req = entries_in-ReplyKeeps req _

pub verdict-ReplyKeeps : (req : Request) → ReplyKeeps (Books.verdict_handler req)
unfolding Books.verdict_handler
verdict-ReplyKeeps req =
    told (verify_books (Books.trial_balance_scope_from_query req)) _
      (verify_books-Keeps (Books.trial_balance_scope_from_query req))
      (λ _. record { at = λ s h. h })

pub provision-ReplyKeeps :
    (deps : Deps) (req : Request) → ReplyKeeps (TenantHandlers.provision_tenant_handler deps req)
unfolding TenantHandlers.provision_tenant_handler
provision-ReplyKeeps deps req = fields (decode_texts ("name" ∷ []) req.body)
  where
    fields : (ts : Option (List String)) → ReplyKeeps (TenantHandlers.provision_fields deps ts)
    fields none = malformed-ReplyKeeps
    fields (some []) = malformed-ReplyKeeps
    fields (some (name ∷ [])) = if-ReplyKeeps (Accounts.is_empty name) _ _ malformed-ReplyKeeps (
        told (provision deps.sha256_hex name) _ (provision-Keeps deps.sha256_hex name)
          (λ _. record { at = λ s h. h }))
    fields (some (name ∷ x ∷ xs)) = malformed-ReplyKeeps

-- A unit of work that is rolled back.
pub read_only-Keeps {ℓ} : {A : Type ℓ} (m : Shell A) → IsSafe m → Keeps (read_only m)
unfolding rollback
read_only-Keeps m safe w h =
    begin-closing-Holds IsSound m rolled_back safe
      (λ r g p. record { committed = g.committed; rivals = g.rivals }) w h

resolve-Keeps : (name : String) → Keeps (TenantHandlers.resolve_provisioned_tenant_id name)
unfolding TenantHandlers.resolve_provisioned_tenant_id
resolve-Keeps name = read_only-Keeps _ (
    Safe-bind IsSound (query (Tenants.by_name name)) _ (Safe-query IsSound _)
      (λ t. Safe-pure IsSound _))

pub authorize-ReplyKeeps :
    (req : Request) → ReplyKeeps (TenantHandlers.authorize_tenant_pair_handler req)
unfolding TenantHandlers.authorize_tenant_pair_handler
authorize-ReplyKeeps req = fields (decode_texts ("tenant_a" ∷ "tenant_b" ∷ []) req.body)
  where
    fields : (ts : Option (List String)) → ReplyKeeps (TenantHandlers.authorize_fields ts)
    fields none = malformed-ReplyKeeps
    fields (some []) = malformed-ReplyKeeps
    fields (some (a ∷ [])) = malformed-ReplyKeeps
    fields (some (a ∷ b ∷ [])) =
        if-ReplyKeeps (Accounts.is_empty a || Accounts.is_empty b) _ _ malformed-ReplyKeeps (
          told (TenantHandlers.resolve_provisioned_tenant_id a) _ (resolve-Keeps a) (λ ta.
            told (TenantHandlers.resolve_provisioned_tenant_id b) _ (resolve-Keeps b) (λ tb.
              told (authorize ta tb) _ (authorize-Keeps ta tb) (λ _. record { at = λ s h. h }))))
    fields (some (a ∷ b ∷ x ∷ xs)) = malformed-ReplyKeeps

pub revoke-ReplyKeeps : (req : Request) → ReplyKeeps (TenantHandlers.revoke_tenant_link_handler req)
unfolding TenantHandlers.revoke_tenant_link_handler
revoke-ReplyKeeps req =
    told (revoke req.url_param) _ (revoke-Keeps req.url_param) (λ _. record { at = λ s h. h })
