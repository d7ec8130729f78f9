-- ===== src/Http/Auth/Refusal.antt =====
-- What the middleware of internal/adapters/http/router.go does with a caller whom it cannot
-- identify.
use ledgerops.Prelude.{String, ◌≡◌, refl, false, Option, none, some, Result, ok, err, arith, eq_iff}
use ledgerops.Ports.Vocabulary.{Error}
use ledgerops.Ports.Shell.{Outcome, done, failed, lost, World, draw}
use ledgerops.Ports.Shell.Laws.{SameEnv, SameEnv-refl, SameEnv-trans, draw_same, Quiet}
use ledgerops.App.Coordinator.Process.{back_in}
use ledgerops.Http.Wire.{error_body, Request, Response, Site, Handler, back}
use ledgerops.Http.Auth.{
  Deps, resolved, new_tenant_key_resolver, bearer_token, token_or_empty, is_operator_key,
  resolver_of, identified, refuse_unidentified_caller, resolve_token, admit_tenant,
  admit_tenant_or_operator, admit_by_token, require_operator_key, require_tenant_key,
  require_tenant_key_or_operator_key, require_transfer_party,
}

resolved-SameEnv : (hash : String) (d : Outcome × World) → SameEnv d.1 (resolved hash d).1
resolved-SameEnv hash (done, w) = SameEnv-refl w
resolved-SameEnv hash (failed, w) = SameEnv-refl w
resolved-SameEnv hash (lost, w) = SameEnv-refl w

-- The resolver of the store changes nothing that is committed.
pub new_tenant_key_resolver-Quiet : (hash : String) → Quiet (new_tenant_key_resolver hash)
unfolding new_tenant_key_resolver
new_tenant_key_resolver-Quiet hash = record {
  at = λ w. SameEnv-trans (draw_same w).1 (resolved-SameEnv hash (draw w));
}

-- A resolver's answer that names no tenant.
abbrev pub NamesNobody : Result Error (Option String) → Type 0
NamesNobody (ok (some tenant)) = ⊥
NamesNobody _ = Unit

-- A token, or none, that is neither the operator's key nor a tenant's.
abbrev pub Unidentified : Deps → World → Option String → Type 0
Unidentified deps w none = Unit
Unidentified deps w (some token) =
    (is_operator_key token deps.operator_key ≡ false)
    × NamesNobody (resolver_of deps.tenant_key_resolver (deps.sha256_hex token) w).0

-- The one refusal, with nothing changed that anybody else sees.
pub record Refused (s : Site) (r : Response × Site) : Type 0 where
  pub status : r.0.status ≡ 401
  pub body : r.0.body ≡ error_body "unidentified_caller"
  pub committed : r.1.process.world.committed ≡ s.process.world.committed
  pub scheduled : r.1.process.scheduled ≡ s.process.scheduled
  pub metrics : r.1.metrics ≡ s.metrics

refuse_unidentified_caller-Refused : (s : Site) → Refused s (refuse_unidentified_caller s)
unfolding refuse_unidentified_caller
refuse_unidentified_caller-Refused s = record {
  status = refl;
  body = refl;
  committed = refl;
  scheduled = refl;
  metrics = refl;
}

identified-Refused :
    (next : String → Site → Response × Site) (s : Site) (r : Result Error (Option String) × World)
    → SameEnv s.process.world r.1
    → NamesNobody r.0
    → Refused s (identified next (back s (back_in s.process r)))
unfolding refuse_unidentified_caller
identified-Refused next s (ok (some tenant), w) same h = absurd h
identified-Refused next s (ok none, w) same h = record {
  status = refl;
  body = refl;
  committed = same.committed;
  scheduled = refl;
  metrics = refl;
}
identified-Refused next s (err e, w) same h = record {
  status = refl;
  body = refl;
  committed = same.committed;
  scheduled = refl;
  metrics = refl;
}

module _ (deps : Deps)
    (quiet : (hash : String) → Quiet (resolver_of deps.tenant_key_resolver hash)) where
  resolve_token-Refused :
      (next : String → Site → Response × Site) (token : String) (s : Site)
      → NamesNobody (resolver_of deps.tenant_key_resolver (deps.sha256_hex token) s.process.world).0
      → Refused s (identified next (resolve_token deps token s))
  resolve_token-Refused next token s h =
      identified-Refused next s
        (resolver_of deps.tenant_key_resolver (deps.sha256_hex token) s.process.world)
        ((quiet (deps.sha256_hex token)).at s.process.world) h

  admit_tenant-Refused :
      (next : Handler) (req : Request) (token : Option String) (s : Site)
      → Unidentified deps s.process.world token
      → Refused s (admit_tenant deps next req token s)
  admit_tenant-Refused next req none s h = refuse_unidentified_caller-Refused s
  admit_tenant-Refused next req (some token) s h = resolve_token-Refused _ token s h.1

  admit_tenant_or_operator-Refused :
      (next : Handler) (req : Request) (token : Option String) (s : Site)
      → Unidentified deps s.process.world token
      → Refused s (admit_tenant_or_operator deps next req token s)
  admit_tenant_or_operator-Refused next req none s h = refuse_unidentified_caller-Refused s
  admit_tenant_or_operator-Refused next req (some token) s h =
      rw h.0 (admit_tenant-Refused next req (some token) s h)

  admit_by_token-Refused :
      (next : Handler) (req : Request) (token : Option String) (s : Site)
      → Unidentified deps s.process.world token
      → Refused s (admit_by_token deps next req token s)
  admit_by_token-Refused next req none s h = refuse_unidentified_caller-Refused s
  admit_by_token-Refused next req (some token) s h = rw h.0 (resolve_token-Refused _ token s h.1)

  empty_is_nobody : is_operator_key "" deps.operator_key ≡ false
  unfolding is_operator_key
  empty_is_nobody = ground (arith, eq_iff deps.operator_key "", eq_iff "" deps.operator_key)

  not_operator :
      (token : Option String) (s : Site)
      → Unidentified deps s.process.world token
      → is_operator_key (token_or_empty token) deps.operator_key ≡ false
  not_operator none s h = empty_is_nobody
  not_operator (some token) s h = h.0

  pub require_operator_key-Refused :
      (next : Handler) (req : Request) (s : Site)
      → Unidentified deps s.process.world (bearer_token req)
      → Refused s (require_operator_key deps next req s)
  unfolding require_operator_key
  require_operator_key-Refused next req s h =
      rw (not_operator (bearer_token req) s h) (refuse_unidentified_caller-Refused s)

  pub require_tenant_key-Refused :
      (next : Handler) (req : Request) (s : Site)
      → Unidentified deps s.process.world (bearer_token req)
      → Refused s (require_tenant_key deps next req s)
  unfolding require_tenant_key
  require_tenant_key-Refused next req s h = admit_tenant-Refused next req (bearer_token req) s h

  pub require_tenant_key_or_operator_key-Refused :
      (next : Handler) (req : Request) (s : Site)
      → Unidentified deps s.process.world (bearer_token req)
      → Refused s (require_tenant_key_or_operator_key deps next req s)
  unfolding require_tenant_key_or_operator_key
  require_tenant_key_or_operator_key-Refused next req s h =
      admit_tenant_or_operator-Refused next req (bearer_token req) s h

  pub require_transfer_party-Refused :
      (next : Handler) (req : Request) (s : Site)
      → Unidentified deps s.process.world (bearer_token req)
      → Refused s (require_transfer_party deps next req s)
  unfolding require_transfer_party
  require_transfer_party-Refused next req s h =
      admit_by_token-Refused next req (bearer_token req) s h
