-- ===== src/Tests/Core.antt =====
-- The pure core at work on the small ledger (internal/domain).
use ledgerops.Prelude.{String, ◌≡◌, refl, ◌≢◌, ◌↔◌, Bool, true, [], ◌∷◌, arith, ok, err, map}
use ledgerops.Prelude.Int
use ledgerops.Prelude.Int64
use ledgerops.Domain.Money
use ledgerops.Domain.Account
use ledgerops.Domain.Posting
use ledgerops.Domain.Post
use ledgerops.Domain.TenantLink
use ledgerops.Prelude.Int.{ℤ, pos, negsuc, ◌+ℤ◌, ◌≤ℤ◌}
use ledgerops.Domain.Violation.{
  new_insufficient_funds, unbalanced, new_violation, invalid_amount, new_tenant_link_already_exists,
  new_counterparty_not_found, new_tenant_link_not_found,
}
use ledgerops.Domain.Account.{Account, wallet, system}
use ledgerops.Domain.Posting.{TransferCommand, Posting}
use ledgerops.Domain.Post.{post}
use ledgerops.Domain.Post.Rules.{exact_sum, delta_of, post_conserves}
use ledgerops.Domain.Post.Decision.{
  Admissible, posting_of, post_accepts_iff, post_overdraft, post_ne_unbalanced,
}
use ledgerops.Domain.TenantLink.{
  TenantLink, active, revoked, authorize_tenant_pair, revoke_tenant_link,
}
use ledgerops.Domain.TenantLink.Laws.{authorize_twice, authorize_tenant_pair_comm}
use ledgerops.Domain.CounterpartyAlias.{
  CounterpartyAlias, register_counterparty_alias, resolve_counterparty,
}
use ledgerops.Domain.CounterpartyAlias.Laws.{resolve-register, resolve-revoke}
use ledgerops.Tests.{usd, alice, bob, snapshots, to_bob}

post_accepts_iff_example :
    ((p : Posting) × (post (to_bob 30) snapshots 1 "x" ≡ ok p)) ↔ Admissible (to_bob 30) alice bob
unfolding Post.find_account
post_accepts_iff_example =
    post_accepts_iff (to_bob 30) snapshots 1 "x" (omega arith, omega arith) refl refl
      (omega arith, omega arith) (omega arith, omega arith) (λ _. omega arith) (λ _. omega arith)

post_overdraft_example :
    post (to_bob 101) snapshots 1 "x" ≡ err (new_insufficient_funds "alice" (usd 100) (usd 101))
unfolding Post.find_account
post_overdraft_example =
    post_overdraft (to_bob 101) snapshots 1 "x" (omega arith, omega arith) refl refl
      (omega arith, omega arith) (omega arith, omega arith) (λ _. omega arith) (λ _. omega arith)
      (omega arith) refl refl refl refl (λ h. omega arith)

accepted_posting : post (to_bob 30) snapshots 1 "x" ≡ ok (posting_of (to_bob 30) 1 "x")
unfolding post Post.find_account Money.is_positive Money.negate Account.apply Money.add
    Posting.new_entry Posting.new_transaction Posting.entries_sum_to_zero Int64.add64 Int64.neg64
    Int64.wrap64 Int.◌+ℤ◌ Int.◌-ℤ◌
accepted_posting = refl

post_conserves_example :
    (exact_sum (posting_of (to_bob 30) 1 "x").entries ≡ pos 0)
    × ((posting_of (to_bob 30) 1 "x").deltas ≡ map delta_of (posting_of (to_bob 30) 1 "x").entries)
post_conserves_example =
    post_conserves (to_bob 30) snapshots 1 "x" (omega arith, omega arith) accepted_posting

refused_zero : post (to_bob 0) snapshots 1 "x" ≡ err (new_violation invalid_amount)
unfolding post Money.is_positive
refused_zero = refl

post_ne_unbalanced_example : invalid_amount ≢ unbalanced
post_ne_unbalanced_example =
    post_ne_unbalanced (to_bob 0) snapshots 1 "x" (omega arith, omega arith) refused_zero

-- Links and aliases.
abbrev link : TenantLink
link = record { link_id = "l1"; tenant_a = "a"; tenant_b = "b"; status = active }

abbrev everybody : String → Bool
everybody t = true

authorized : authorize_tenant_pair "l1" "b" "a" [] everybody ≡ ok link
unfolding authorize_tenant_pair TenantLink.canonicalize_pair
authorized = refl

authorize_twice_example :
    authorize_tenant_pair "l2" "a" "b" (link ∷ []) everybody ≡ err new_tenant_link_already_exists
authorize_twice_example = authorize_twice "l1" "l2" "b" "a" [] [] everybody authorized

authorize_tenant_pair_comm_example :
    authorize_tenant_pair "l1" "b" "a" [] everybody
    ≡ authorize_tenant_pair "l1" "a" "b" [] everybody
authorize_tenant_pair_comm_example = authorize_tenant_pair_comm "l1" "b" "a" [] everybody

abbrev shop : CounterpartyAlias
shop = record {
  tenant_id = "a";
  alias = "shop";
  tenant_link_id = "l1";
  target_tenant_id = "b";
  target_account_id = "till";
}

registered_shop : register_counterparty_alias "a" "shop" link true "b" "till" ≡ ok shop
unfolding register_counterparty_alias
registered_shop = refl

resolve-register_example : resolve_counterparty "a" "shop" shop true link true ≡ ok ("b", "till")
resolve-register_example = resolve-register "a" "shop" link link "b" "till" registered_shop refl

abbrev ended : TenantLink
ended = record link { status = revoked }

revoked_link : revoke_tenant_link "l1" (link ∷ []) ≡ ok ended
unfolding revoke_tenant_link
revoked_link = refl

resolve-revoke_example :
    (resolve_counterparty "a" "shop" shop true ended true ≡ err new_counterparty_not_found)
    × (register_counterparty_alias "a" "shop" ended true "b" "till" ≡ err new_tenant_link_not_found)
resolve-revoke_example = resolve-revoke "a" "shop" "b" "till" "l1" (link ∷ []) shop revoked_link
