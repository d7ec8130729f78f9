-- ===== src/Http/Steady/Guards.antt =====
-- The middleware of internal/adapters/http/router.go keeps the process steady, where the handler
-- that it guards does.
use ledgerops.Prelude.{String, Option, none, some, Result, ok, err}
use ledgerops.Ports.Vocabulary.{Error, TransferState}
use ledgerops.Ports.Shell.{query}
use ledgerops.Ports.Shell.Safety.{Safe-query}
use ledgerops.Postgres.TransferStates
use ledgerops.Books.Sound.{IsSound}
use ledgerops.App.Transfer.Keeps.{Keeps}
use ledgerops.App.Coordinator.Process.{shell}
use ledgerops.App.Coordinator.Steady.{shell-SagaKeeps}
use ledgerops.Http.Wire.{Request, Response, Site, Handler}
use ledgerops.Http.Auth.{
  Deps, resolver_of, bearer_token, token_or_empty, is_operator_key, refuse_unidentified_caller,
  require_operator_key, identified, resolve_token, admit_tenant, require_tenant_key,
  admit_tenant_or_operator, require_tenant_key_or_operator_key, transfer_state_by_id, is_party,
  admit_party, admit_caller, admit_by_token, require_transfer_party,
}
use ledgerops.Http.Steady.{
  SiteSteady, ReplyKeeps, write_refusal-ReplyKeeps, run-answer-ReplyKeeps, if-ReplyKeeps,
}
use ledgerops.Http.Steady.Handlers.{read_only-Keeps}

-- A resolver of tenant keys that leaves sound books.
pub record ResolverKeeps (deps : Deps) : Type 0 where
  pub at : (hash : String) → Keeps (resolver_of deps.tenant_key_resolver hash)

abbrev pub HandlerKeeps : Handler → Type 0
HandlerKeeps next = (req : Request) → ReplyKeeps (next req)

unidentified-ReplyKeeps : ReplyKeeps refuse_unidentified_caller
unfolding refuse_unidentified_caller
unidentified-ReplyKeeps = record { at = λ s h. h }

pub require_operator_key-ReplyKeeps :
    (deps : Deps) (next : Handler)
    → HandlerKeeps next
    → HandlerKeeps (require_operator_key deps next)
unfolding require_operator_key
require_operator_key-ReplyKeeps deps next k req =
    if-ReplyKeeps (is_operator_key (token_or_empty (bearer_token req)) deps.operator_key) _ _
      (k req) unidentified-ReplyKeeps

identified-Steady :
    (next : String → Site → Response × Site) (r : Result Error (Option String) × Site)
    → ((t : String) → ReplyKeeps (next t))
    → SiteSteady r.1
    → SiteSteady (identified next r).1
identified-Steady next (ok (some t), s) k h = (k t).at s h
identified-Steady next (ok none, s) k h = unidentified-ReplyKeeps.at s h
identified-Steady next (err e, s) k h = unidentified-ReplyKeeps.at s h

identified-ReplyKeeps :
    (deps : Deps) (token : String) (next : String → Site → Response × Site)
    → ResolverKeeps deps
    → ((t : String) → ReplyKeeps (next t))
    → ReplyKeeps (λ s. identified next (resolve_token deps token s))
identified-ReplyKeeps deps token next q k = record {
  at = λ s h. identified-Steady next (resolve_token deps token s) k (
      (shell-SagaKeeps (resolver_of deps.tenant_key_resolver (deps.sha256_hex token))
          (q.at (deps.sha256_hex token))).at
        s.process h);
}

admit_tenant-ReplyKeeps :
    (deps : Deps) (next : Handler) (req : Request) (token : Option String)
    → ResolverKeeps deps
    → HandlerKeeps next
    → ReplyKeeps (admit_tenant deps next req token)
admit_tenant-ReplyKeeps deps next req none q k = unidentified-ReplyKeeps
admit_tenant-ReplyKeeps deps next req (some token) q k =
    identified-ReplyKeeps deps token _ q (λ t. k _)

pub require_tenant_key-ReplyKeeps :
    (deps : Deps) (next : Handler)
    → ResolverKeeps deps
    → HandlerKeeps next
    → HandlerKeeps (require_tenant_key deps next)
unfolding require_tenant_key
require_tenant_key-ReplyKeeps deps next q k req =
    admit_tenant-ReplyKeeps deps next req (bearer_token req) q k

admit_tenant_or_operator-ReplyKeeps :
    (deps : Deps) (next : Handler) (req : Request) (token : Option String)
    → ResolverKeeps deps
    → HandlerKeeps next
    → ReplyKeeps (admit_tenant_or_operator deps next req token)
admit_tenant_or_operator-ReplyKeeps deps next req none q k = unidentified-ReplyKeeps
admit_tenant_or_operator-ReplyKeeps deps next req (some token) q k =
    if-ReplyKeeps (is_operator_key token deps.operator_key) _ _ (k _)
      (admit_tenant-ReplyKeeps deps next req (some token) q k)

pub require_either_key-ReplyKeeps :
    (deps : Deps) (next : Handler)
    → ResolverKeeps deps
    → HandlerKeeps next
    → HandlerKeeps (require_tenant_key_or_operator_key deps next)
unfolding require_tenant_key_or_operator_key
require_either_key-ReplyKeeps deps next q k req =
    admit_tenant_or_operator-ReplyKeeps deps next req (bearer_token req) q k

transfer_state_by_id-Keeps : (id : String) → Keeps (transfer_state_by_id id)
unfolding transfer_state_by_id
transfer_state_by_id-Keeps id =
    read_only-Keeps (query (TransferStates.get id)) (Safe-query IsSound _)

admit_party-ReplyKeeps :
    (next : Handler) (req : Request) (caller : Option String) (found : Option TransferState)
    → HandlerKeeps next
    → ReplyKeeps (admit_party next req caller found)
admit_party-ReplyKeeps next req caller none k = write_refusal-ReplyKeeps _ _ _
admit_party-ReplyKeeps next req caller (some state) k =
    if-ReplyKeeps (is_party caller state) _ _ (k req) (write_refusal-ReplyKeeps _ _ _)

admit_caller-ReplyKeeps :
    (next : Handler) (req : Request) (caller : Option String)
    → HandlerKeeps next
    → ReplyKeeps (admit_caller next req caller)
admit_caller-ReplyKeeps next req caller k =
    run-answer-ReplyKeeps (shell (transfer_state_by_id req.url_param)) (admit_party next req caller)
      (shell-SagaKeeps (transfer_state_by_id req.url_param)
        (transfer_state_by_id-Keeps req.url_param))
      (λ found. admit_party-ReplyKeeps next req caller found k)

admit_by_token-ReplyKeeps :
    (deps : Deps) (next : Handler) (req : Request) (token : Option String)
    → ResolverKeeps deps
    → HandlerKeeps next
    → ReplyKeeps (admit_by_token deps next req token)
admit_by_token-ReplyKeeps deps next req none q k = unidentified-ReplyKeeps
admit_by_token-ReplyKeeps deps next req (some token) q k =
    if-ReplyKeeps (is_operator_key token deps.operator_key) _ _
      (admit_caller-ReplyKeeps next req none k)
      (identified-ReplyKeeps deps token _ q (λ t. admit_caller-ReplyKeeps next req (some t) k))

pub require_transfer_party-ReplyKeeps :
    (deps : Deps) (next : Handler)
    → ResolverKeeps deps
    → HandlerKeeps next
    → HandlerKeeps (require_transfer_party deps next)
unfolding require_transfer_party
require_transfer_party-ReplyKeeps deps next q k req =
    admit_by_token-ReplyKeeps deps next req (bearer_token req) q k
