-- ===== src/Http/Auth/Parties.antt =====
-- `requireTransferParty` (internal/adapters/http/router.go): who reads a transfer.
use mathlib.Core.Path.{subst}
use ledgerops.Prelude.{
  String, ◌≡◌, refl, ap, ◌∙◌, ◌↔◌, arith, eq_iff, true, false, ◌⊎◌, inl, inr, Option, none, some,
  [], Bool-cases, ok,
}
use ledgerops.Ports.Vocabulary.{TransferState}
use ledgerops.Ports.Shell.{World, query, rollback, continue}
use ledgerops.Ports.Shell.Laws.{query-calm, begin-calm}
use ledgerops.Postgres.TransferStates
use ledgerops.App.Coordinator.Process.{back_in}
use ledgerops.Http.Status.{answer}
use ledgerops.Http.Wire.{back, Request, Site, Handler}
use ledgerops.Http.Auth.{
  Deps, is_party, admit_caller, admit_party, rolled_back, transfer_state_by_id, bearer_token,
  is_operator_key, resolver_of, require_transfer_party, identified, admit_by_token,
  refuse_transfer_not_found,
}

transfer_state_by_id-calm :
    (id : String) (w : World) {found : Option TransferState}
    → w.outages ≡ []
    → TransferStates.get id w.committed ≡ ok found
    → transfer_state_by_id id w ≡ (ok found, rollback (record w { db = w.committed }))
unfolding transfer_state_by_id
transfer_state_by_id-calm id w {found} calm e =
    ap (λ r. continue r (λ _ u. rolled_back (query (TransferStates.get id) u))) (begin-calm w calm)
    ∙ ap rolled_back (query-calm (TransferStates.get id) (record w { db = w.committed }) calm e)

-- The site after the read.
abbrev pub after_read : Site → Site
after_read s = record s {
  process = record s.process {
    world = rollback (record s.process.world { db = s.process.world.committed });
  };
}

-- A lookup found a transfer that the tenant sends or receives.
abbrev pub Readable : String → Option TransferState → Type 0
Readable tenant found =
    (state : TransferState) × (found ≡ some state)
    × ((tenant ≡ state.tenant_id) ⊎ (tenant ≡ state.counterparty_tenant_id))

is_party_iff :
    (tenant : String) (state : TransferState)
    → (is_party (some tenant) state ≡ true)
      ↔ ((tenant ≡ state.tenant_id) ⊎ (tenant ≡ state.counterparty_tenant_id))
is_party_iff tenant state =
    ground (arith, eq_iff tenant state.tenant_id, eq_iff tenant state.counterparty_tenant_id)

admit_caller-calm :
    (next : Handler) (req : Request) (caller : Option String) (s : Site)
    {found : Option TransferState}
    → s.process.world.outages ≡ []
    → TransferStates.get req.url_param s.process.world.committed ≡ ok found
    → admit_caller next req caller s ≡ admit_party next req caller found (after_read s)
admit_caller-calm next req caller s calm e =
    ap (λ r. answer (back s (back_in s.process r)) (admit_party next req caller))
      (transfer_state_by_id-calm req.url_param s.process.world calm e)

other_tenant :
    (tenant : String) (state : TransferState)
    → is_party (some tenant) state ≡ false
    → ¬ Readable tenant (some state)
other_tenant tenant state h (other, e, k) =
    let same : state ≡ other = cc in
    let one : is_party (some tenant) other ≡ false =
      subst (λ x. is_party (some tenant) x ≡ false) same h in
    let two = (is_party_iff tenant other).1 k in cc

admit_party_cases :
    (next : Handler) (req : Request) (tenant : String) (found : Option TransferState) (s : Site)
    → (Readable tenant found × (admit_party next req (some tenant) found s ≡ next req s))
      ⊎ (¬ Readable tenant found
          × (admit_party next req (some tenant) found s ≡ refuse_transfer_not_found s))
admit_party_cases next req tenant none s = inr (λ h. cc, refl)
admit_party_cases next req tenant (some state) s =
    elim (Bool-cases (is_party (some tenant) state)) [
      | inl h ↦ inl ((state, refl, (is_party_iff tenant state).0 h), rw h refl)
      | inr h ↦ inr (other_tenant tenant state h, rw h refl)
    ]

-- The site after the token has been resolved.
abbrev pub resolved_site : Site → World → Site
resolved_site s w = record s { process = record s.process { world = w } }

-- Where a token that is not the operator's key resolves to a tenant, and no call of the store
-- fails, the request for a transfer reaches its handler if the transfer exists and the tenant is
-- the one that sends or the one that receives it, and otherwise has the one refusal, which is the
-- same whether the transfer exists or not.
pub require_transfer_party_iff :
    (deps : Deps) (next : Handler) (req : Request) (s : Site) {token tenant : String} {w : World}
    {found : Option TransferState}
    → bearer_token req ≡ some token
    → is_operator_key token deps.operator_key ≡ false
    → resolver_of deps.tenant_key_resolver (deps.sha256_hex token) s.process.world
      ≡ (ok (some tenant), w)
    → w.outages ≡ []
    → TransferStates.get req.url_param w.committed ≡ ok found
    → (Readable tenant found
        × (require_transfer_party deps next req s ≡ next req (after_read (resolved_site s w))))
      ⊎ (¬ Readable tenant found
          × (require_transfer_party deps next req s
              ≡ refuse_transfer_not_found (after_read (resolved_site s w))))
unfolding require_transfer_party bearer_token
require_transfer_party_iff deps next req s {token} {tenant} {w} {found} bearer operator resolved
      calm e =
    let start : require_transfer_party deps next req s
        ≡ admit_by_token deps next req (some token) s =
      ap (λ t. admit_by_token deps next req t s) bearer in
    let asked : admit_by_token deps next req (some token) s
        ≡ admit_caller next req (some tenant) (resolved_site s w) =
      rw operator (
        ap (λ r. identified (λ t. admit_caller next req (some t)) (back s (back_in s.process r)))
          resolved) in
    let run = start ∙ asked ∙ admit_caller-calm next req (some tenant) (resolved_site s w) calm e in
    elim (admit_party_cases next req tenant found (after_read (resolved_site s w))) [
      | inl (h, r) ↦ inl (h, run ∙ r)
      | inr (h, r) ↦ inr (h, run ∙ r)
    ]
