-- ===== src/App/Transfer/Safe.antt =====
-- `PostTransfer` (internal/app/usecases.go) keeps the committed books sound, whatever fails and
-- whatever sound movements other sessions commit meanwhile.
use ledgerops.Prelude.{ℕ, ◌≡◌, ap, Bool, true, false, Result, ok, if◌then◌else◌, zero, suc}
use ledgerops.Domain.Post.Rules.{IsRange}
use ledgerops.Ports.Vocabulary.{Error}
use ledgerops.Ports.Shell.{World, with_unit_of_work}
use ledgerops.Ports.Shell.Invariant.{Holds, Safe, with_unit_of_work-Holds}
use ledgerops.Books.Sound.{IsSound}
use ledgerops.App.Transfer.{TransferRequest, Answer, attempt, lost_race, post_transfer}
use ledgerops.App.Transfer.Keeps.{attempt-Keeps}
use ledgerops.App.Transfer.Seen.{attempt-sees}

pair_eta {ℓ} : {A : Type ℓ} (r : Result Error A × World) {a : A} → r.0 ≡ ok a → r ≡ (ok a, r.1)
pair_eta (x, w) h = ap (λ y. (y, w)) h

-- One unit of work of `PostTransfer` is safe for the soundness of the books.
pub attempt-Safe : (cmd : TransferRequest) → IsRange cmd.amount → Safe IsSound (attempt cmd)
attempt-Safe cmd range = record {
  holds = λ w h p. attempt-Keeps cmd w h;
  sees = λ w h p a e. attempt-sees cmd w range h p (pair_eta (attempt cmd w) e);
}

if-Holds :
    (b : Bool) (x y : Result Error Answer × World)
    → Holds IsSound x.1
    → Holds IsSound y.1
    → Holds IsSound (if b then x else y).1
if-Holds true x y h k = h
if-Holds false x y h k = k

-- However often it is tried, whatever calls of the store fail, and whatever sound changes other
-- sessions commit meanwhile, `PostTransfer` of an amount in the range of `int64` leaves sound
-- books committed: unique accounts, stored balances that are the sums of their entries, no
-- negative wallet, entries that sum to zero and belong to accounts, and transfers in that range.
pub post_transfer-IsSound :
    (fuel : ℕ) (cmd : TransferRequest) (w : World)
    → IsRange cmd.amount
    → Holds IsSound w
    → Holds IsSound (post_transfer fuel cmd w).1
unfolding post_transfer
post_transfer-IsSound zero cmd w range h = h
post_transfer-IsSound (suc fuel) cmd w range h =
    let r = with_unit_of_work (attempt cmd) w in
    let k = with_unit_of_work-Holds IsSound (attempt cmd) (attempt-Safe cmd range) w h in
    if-Holds (lost_race r.0) (post_transfer fuel cmd r.1) r
      (post_transfer-IsSound fuel cmd r.1 range k) k
