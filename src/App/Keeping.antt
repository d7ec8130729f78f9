-- ===== src/App/Keeping.antt =====
-- The use cases of internal/app/usecases.go leave sound books, whatever fails.
use Prim.Native.String.{◌++◌}
use ledgerops.Prelude.{
  any, ◌==◌, if◌then◌else◌, String, ◌≡◌, refl, ap, ◌∙◌, Bool, true, false, List, [], ◌∷◌, Result,
  ok, err, arith,
}
use ledgerops.Prelude.Int.{pos}
use ledgerops.Domain.Violation.{Money, Violation}
use ledgerops.Domain.Money.{new_money}
use ledgerops.Domain.Account.{Account, AccountKind, new_account}
use ledgerops.Domain.Post.{open_account}
use ledgerops.Ports.Vocabulary.{TenantScope}
use ledgerops.Ports.Shell.{
  World, Shell, decide, ◌>>=◌, ◌>>◌, next_id, query, statement, with_unit_of_work,
}
use ledgerops.Ports.Shell.Invariant.{Safe, with_unit_of_work-Holds}
use ledgerops.Ports.Shell.Safety.{
  Safe-bind, Safe-bind-on, Safe-decide, Safe-found_or, Safe-query, Safe-statement, Safe-pure,
  Safe-next_id, Safe-raise,
}
use ledgerops.Postgres.Accounts
use ledgerops.Postgres.Tenants
use ledgerops.Postgres.TenantLinks
use ledgerops.Postgres.Transactions
use ledgerops.Postgres.CounterpartyAliases
use ledgerops.Postgres.Balances.{computed_balances, trial_balance}
use ledgerops.Domain.Tenant.{provision_tenant}
use ledgerops.Domain.TenantLink.{authorize_tenant_pair, revoke_tenant_link}
use ledgerops.Domain.CounterpartyAlias.{register_counterparty_alias}
use ledgerops.App.Provisioning.{provision, tenant_name_already_taken}
use ledgerops.App.Links.{
  is_provisioned, provisioned_tenants, active_link_snapshot, authorize, or_no_link, register_alias,
  tenant_link_snapshot, revoke,
}
use ledgerops.App.Reading.{
  get_balance, require_account, get_entries, running_balances, require_tenant, verify_books,
  drifted_accounts,
}
use ledgerops.Ports.Shell.Laws.{Quiet-decide}
use ledgerops.Books.Sound.{IsSound}
use ledgerops.Books.Opening.{create-IsSound}
use ledgerops.Books.Recorded.{tenant-IsSound, link-IsSound, revocation-IsSound, alias-IsSound}
use ledgerops.App.Transfer.{ledger_currency, account_already_open, create_account}
use ledgerops.App.Transfer.Keeps.{Keeps, Keeps-Quiet, Keeps-bind}

abbrev pub IsSafe {κ} : {A : Type κ} → Shell A → Type κ
IsSafe m = Safe IsSound m

pub unit-Keeps {κ} : {A : Type κ} (m : Shell A) → IsSafe m → Keeps (with_unit_of_work m)
unit-Keeps m s w h = with_unit_of_work-Holds IsSound m s w h

pub zero-new_money :
    (currency : String) {m : Money} → new_money (pos 0) currency ≡ ok m → m.minor_units ≡ pos 0
unfolding new_money
zero-new_money currency h = ground arith

pub decide-result {κ} :
    {A : Type κ} (r : Result Violation A) (w : World) {a : A} → (decide r w).0 ≡ ok a → r ≡ ok a
decide-result (ok x) w h = cc
decide-result (err v) w h = cc

open_account-balance :
    (t id : String) (kind : AccountKind) (balance : Money) (taken : Bool) {a : Account}
    → open_account t id kind balance taken ≡ ok a
    → a.balance ≡ balance
unfolding open_account new_account
open_account-balance t id kind balance taken h = ground arith

account_already_open-IsSafe : (t id : String) → IsSafe (account_already_open t id)
unfolding account_already_open
account_already_open-IsSafe t id = Safe-found_or IsSound _ _ (Accounts.get t id)

pub opened-IsSafe :
    (t : String) (a : Account)
    → a.balance.minor_units ≡ pos 0
    → IsSafe (statement (Accounts.create t a))
opened-IsSafe t a zero =
    Safe-statement IsSound (Accounts.create t a) (λ d u d' s h. create-IsSound t a d zero s h)

pub Keeps-decide {κ μ} :
    {A : Type κ} {B : Type μ} (r : Result Violation A) (f : A → Shell B)
    → ((a : A) → r ≡ ok a → Keeps (f a))
    → Keeps (decide r >>= f)
Keeps-decide (ok a) f k w h = k a refl w h
Keeps-decide (err v) f k w h = h

pub create_account-Keeps : (t id : String) (kind : AccountKind) → Keeps (create_account t id kind)
unfolding create_account
create_account-Keeps t id kind = Keeps-decide (new_money (pos 0) ledger_currency) _ (λ opening zero.
    unit-Keeps _ (
      Safe-bind IsSound (account_already_open t id) _ (account_already_open-IsSafe t id) (λ taken.
        Safe-bind-on IsSound (decide (open_account t id kind opening taken)) _
          (Safe-decide IsSound _)
          (λ a w e. opened-IsSafe t a (
            ap Money.minor_units
              (open_account-balance t id kind opening taken (decide-result _ w e))
            ∙ zero-new_money ledger_currency zero)))))

pub provision-Keeps : (hash : String → String) (name : String) → Keeps (provision hash name)
unfolding provision tenant_name_already_taken
provision-Keeps hash name = unit-Keeps _ (
    Safe-bind IsSound (tenant_name_already_taken name) _
      (Safe-found_or IsSound _ _ (Tenants.by_name name))
      (λ taken. Safe-bind IsSound next_id _ (Safe-next_id IsSound) (λ id.
        Safe-bind IsSound next_id _ (Safe-next_id IsSound) (λ key.
          Safe-bind IsSound (decide (provision_tenant ("tnt_" ++ id) name ("tk_" ++ key) taken)) _
            (Safe-decide IsSound _)
            (λ tenant.
              Safe-bind IsSound (statement (Tenants.create hash tenant)) _
                (Safe-statement IsSound _ (λ d u d' s h. tenant-IsSound hash tenant d u d' s h))
                (λ _. Safe-pure IsSound _))))))

is_provisioned-IsSafe : (id : String) → IsSafe (is_provisioned id)
unfolding is_provisioned
is_provisioned-IsSafe id = Safe-found_or IsSound _ _ (Tenants.by_id id)

provisioned_tenants-IsSafe : (ids : List String) → IsSafe (provisioned_tenants ids)
unfolding provisioned_tenants
provisioned_tenants-IsSafe [] = Safe-pure IsSound []
provisioned_tenants-IsSafe (id ∷ ids) =
    Safe-bind IsSound (is_provisioned id) _ (is_provisioned-IsSafe id) (λ found.
      Safe-bind IsSound (provisioned_tenants ids) _ (provisioned_tenants-IsSafe ids)
        (λ known. Safe-pure IsSound _))

pub authorize-Keeps : (a b : String) → Keeps (authorize a b)
unfolding authorize active_link_snapshot
authorize-Keeps a b = unit-Keeps _ (
    Safe-bind IsSound (provisioned_tenants (a ∷ b ∷ [])) _ (provisioned_tenants-IsSafe (a ∷ b ∷ []))
      (λ known.
        Safe-bind IsSound (active_link_snapshot a b) _
          (Safe-bind IsSound (query (TenantLinks.active_by_pair a b)) _ (Safe-query IsSound _)
            (λ found. Safe-pure IsSound _))
          (λ existing. Safe-bind IsSound next_id _ (Safe-next_id IsSound) (λ id.
            Safe-bind IsSound
              (decide
                (authorize_tenant_pair ("lnk_" ++ id) a b existing (λ t. any (λ k. k == t) known)))
              _ (Safe-decide IsSound _)
              (λ link.
                Safe-bind IsSound (statement (TenantLinks.create link)) _
                  (Safe-statement IsSound _ (link-IsSound link)) (λ _. Safe-pure IsSound _))))))

pub register_alias-Keeps :
    (t alias target account : String) → Keeps (register_alias t alias target account)
unfolding register_alias
register_alias-Keeps t alias target account = unit-Keeps _ (
    Safe-bind IsSound (query (TenantLinks.active_by_pair t target)) _ (Safe-query IsSound _)
      (λ found.
        Safe-bind IsSound
          (decide (
            register_counterparty_alias t alias (or_no_link found).0 (or_no_link found).1 target
              account))
          _ (Safe-decide IsSound _)
          (λ registered.
            Safe-bind IsSound (statement (CounterpartyAliases.create registered)) _
              (Safe-statement IsSound _ (alias-IsSound registered)) (λ _. Safe-pure IsSound _))))

pub revoke-Keeps : (id : String) → Keeps (revoke id)
unfolding revoke tenant_link_snapshot
revoke-Keeps id = unit-Keeps _ (
    Safe-bind IsSound (tenant_link_snapshot id) _ (Safe-found_or IsSound _ _ (TenantLinks.by_id id))
      (λ existing.
        Safe-bind IsSound (decide (revoke_tenant_link id existing)) _ (Safe-decide IsSound _)
          (λ ended. Safe-statement IsSound _ (revocation-IsSound ended.link_id))))

pub get_balance-Keeps : (t id : String) → Keeps (get_balance t id)
unfolding get_balance
get_balance-Keeps t id = unit-Keeps _ (Safe-query IsSound (Accounts.get t id))

pub if-IsSafe {κ} :
    {A : Type κ} (b : Bool) (x y : Shell A) → IsSafe x → IsSafe y → IsSafe (if b then x else y)
if-IsSafe true x y h k = h
if-IsSafe false x y h k = k

require_account-IsSafe : (scope : TenantScope) (id : String) → IsSafe (require_account scope id)
unfolding require_account
require_account-IsSafe scope id =
    if-IsSafe scope.scoped _ _
      (Safe-bind IsSound (query (Accounts.get scope.tenant_id id)) _ (Safe-query IsSound _)
        (λ _. Safe-pure IsSound tt))
      (Safe-bind IsSound (query (Accounts.exists_any_tenant id)) _ (Safe-query IsSound _)
        (λ found. if-IsSafe found _ _ (Safe-pure IsSound tt) (Safe-raise IsSound _)))

pub get_entries-Keeps : (scope : TenantScope) (id : String) → Keeps (get_entries scope id)
unfolding get_entries
get_entries-Keeps scope id =
    Keeps-bind
      (with_unit_of_work (require_account scope id >> query (Transactions.entries_for scope id))) _
      (unit-Keeps _ (
        Safe-bind IsSound (require_account scope id) _ (require_account-IsSafe scope id)
          (λ _. Safe-query IsSound _)))
      (λ entries. Keeps-Quiet _ (Quiet-decide (running_balances entries)))

require_tenant-IsSafe : (scope : TenantScope) → IsSafe (require_tenant scope)
unfolding require_tenant
require_tenant-IsSafe scope =
    if-IsSafe scope.scoped _ _
      (Safe-bind IsSound (query (Tenants.by_id scope.tenant_id)) _ (Safe-query IsSound _)
        (λ _. Safe-pure IsSound tt))
      (Safe-pure IsSound tt)

pub verify_books-Keeps : (scope : TenantScope) → Keeps (verify_books scope)
unfolding verify_books
verify_books-Keeps scope = unit-Keeps _ (
    Safe-bind IsSound (require_tenant scope) _ (require_tenant-IsSafe scope) (λ _.
      Safe-bind IsSound (query (Accounts.get_all scope)) _ (Safe-query IsSound _) (λ accounts.
        Safe-bind IsSound (query (computed_balances scope)) _ (Safe-query IsSound _) (λ computed.
          Safe-bind IsSound (query (trial_balance scope)) _ (Safe-query IsSound _) (λ total.
            Safe-bind IsSound (decide (drifted_accounts accounts computed)) _
              (Safe-decide IsSound _) (λ drifted. Safe-pure IsSound _))))))
