-- ===== src/App/Coordinator/Steady/Attempting.antt =====
-- An attempt of a leg (`attemptLeg` of internal/app/transfer_coordinator.go) keeps the process
-- steady.
use mathlib.Core.Path.{subst}
use ledgerops.Prelude.{
  ℕ, ◌+◌, String, ◌≡◌, refl, ap, ◌∙◌, Bool, true, false, ◌&&◌, Option, none, some, eqb,
  if◌then◌else◌, Result, ok, err,
}
use ledgerops.Ports.Vocabulary.{Error, TransferState, settled, pending}
use ledgerops.Ports.Shell
use ledgerops.Ports.Shell.{World, Shell, begin, commit, rollback, query, statement}
use ledgerops.Ports.Shell.Laws.{bind-eq-ok, pure-eq-ok, query-eq-ok}
use ledgerops.Ports.Shell.Invariant.{Holds, close-Holds}
use ledgerops.Ports.Shell.Safety.{
  pair_eta, Safe-bind, Safe-query, Safe-pure, Safe-clock, Safe-statement, begin-closing-Holds,
  begin-sees,
}
use ledgerops.Postgres.TransferStates
use ledgerops.Postgres.TransferStates.{claim_one, claim_if_due, extend_lease, is_due}
use ledgerops.Books.Sound.{IsSound}
use ledgerops.Books.Recorded.{get-ranged, extend_lease-IsSound}
use ledgerops.App.Transfer.Keeps.{Keeps}
use ledgerops.App.Keeping.{IsSafe, if-IsSafe}
use ledgerops.App.Coordinator.Movements.{
  Movement, leg_movement, backoff_for_attempt, transfer_leg_key, claim_lease_duration,
}
use ledgerops.App.Coordinator.Attempt.{
  settle_claim, claim_transfer, record_leg_success, schedule_retry, retry_leg, plus_delay,
  retry_or_reverse, handle_leg_failure, post_leg, leg_outcome, move_leg, crash_or_move,
  attempt_claimed, attempt_leg, then_leg_3, attempt_forward_legs_from,
}
use ledgerops.App.Coordinator.Reversal.{
  advance_after_leg_outcome, attempt_leg1_reversal, reverse_leg2_then_leg1,
}
use ledgerops.App.Coordinator.Process.{
  forward_legs_from, Process, return, shell, ignore, record_failed_attempt, consume_fault,
  consume_forward_crash_simulation, draw_jitter, clock,
}
use ledgerops.App.Coordinator.Steady.Reversing.{
  advance-SagaKeeps, attempt_leg1_reversal-SagaKeeps, reverse_leg2_then_leg1-SagaKeeps,
  fault_or_move-SagaKeeps,
}
use ledgerops.App.Coordinator.Steady.{
  InRange, Steady, SagaKeeps, return-SagaKeeps, fail-SagaKeeps, shell-SagaKeeps, bind-SagaKeeps,
  bind-SagaKeeps_on, if-SagaKeeps, if-Steady, clock-SagaKeeps, draw_jitter-SagaKeeps,
  record_failed_attempt-SagaKeeps, consume_fault-SagaKeeps, consume_forward-SagaKeeps,
  after-SagaKeeps,
}

claim_if_due-IsSafe :
    (id : String) (lease now : ℕ) (found : Option TransferState)
    → IsSafe (claim_if_due id lease now found)
claim_if_due-IsSafe id lease now none = Safe-pure IsSound none
claim_if_due-IsSafe id lease now (some s) =
    if-IsSafe (is_due now s) _ _
      (Safe-bind IsSound (statement (extend_lease id (now + lease))) _
        (Safe-statement IsSound _ (extend_lease-IsSound id _)) (λ _. Safe-pure IsSound _))
      (Safe-pure IsSound none)

claim_one-IsSafe : (id : String) (lease : ℕ) → IsSafe (claim_one id lease)
unfolding claim_one
claim_one-IsSafe id lease =
    Safe-bind IsSound (query (TransferStates.get id)) _ (Safe-query IsSound _) (λ found.
      Safe-bind IsSound Shell.clock _ (Safe-clock IsSound)
        (λ now. claim_if_due-IsSafe id lease now found))

settle_claim-Holds :
    (r : Result Error (Option TransferState) × World)
    → Holds IsSound r.1
    → ((a : Option TransferState) → r.0 ≡ ok a → IsSound r.1.db)
    → Holds IsSound (settle_claim r).1
unfolding rollback
settle_claim-Holds (ok (some s), w) h p = close-Holds IsSound (ok (some s), w) h p
settle_claim-Holds (ok none, w) h p = record { committed = h.committed; rivals = h.rivals }
settle_claim-Holds (err e, w) h p = record { committed = h.committed; rivals = h.rivals }

pub claim_transfer-Keeps : (id : String) → Keeps (claim_transfer id)
unfolding claim_transfer
claim_transfer-Keeps id w h =
    begin-closing-Holds IsSound (claim_one id claim_lease_duration) settle_claim
      (claim_one-IsSafe id claim_lease_duration) settle_claim-Holds w h

-- What a claim answers with is the recorded transfer, with another lease.
leased-ranged :
    (id : String) (until : ℕ) (due : Bool) (x : TransferState) (w : World) {s : TransferState}
    {w' : World}
    → InRange x
    → (if due
          then (Shell.◌>>◌
              (statement (extend_lease id until))
              (Shell.pure (some (record x { next_attempt_at = until }))))
          else Shell.pure none)
        w
      ≡ (ok (some s), w')
    → InRange s
leased-ranged id until true x w {s} r e =
    let (_, u, _, e1) = bind-eq-ok (statement (extend_lease id until)) _ w e in
    let found = (pure-eq-ok e1).0 in
    let same : record x { next_attempt_at = until } ≡ s = cc in subst InRange same r
leased-ranged id until false x w r e = cc

claim_if_due-ranged :
    (id : String) (lease now : ℕ) (found : Option TransferState) (w : World) {s : TransferState}
    {w' : World}
    → ((x : TransferState) → found ≡ some x → InRange x)
    → claim_if_due id lease now found w ≡ (ok (some s), w')
    → InRange s
claim_if_due-ranged id lease now none w k e = cc
claim_if_due-ranged id lease now (some x) w {s} k e =
    leased-ranged id (now + lease) (is_due now x) x w (k x refl) e

claim_one-ranged :
    (id : String) (lease : ℕ) (w : World) {s : TransferState} {w' : World}
    → IsSound w.db
    → claim_one id lease w ≡ (ok (some s), w')
    → InRange s
unfolding claim_one
claim_one-ranged id lease w {s} sound e =
    let (found, u, q, e1) = bind-eq-ok (query (TransferStates.get id)) _ w e in
    let (now, v, c, e2) = bind-eq-ok Shell.clock _ u e1 in
    claim_if_due-ranged id lease now found v
      (λ x f. get-ranged id w.db sound ((query-eq-ok (TransferStates.get id) w q).0 ∙ ap ok f)) e2

settled-claim :
    (r : Result Error (Option TransferState) × World) {s : TransferState} {w' : World}
    → settle_claim r ≡ (ok (some s), w')
    → r ≡ (ok (some s), r.1)
unfolding rollback
settled-claim (ok (some x), w) e =
    let (_, u, _, k) = bind-eq-ok commit (λ _. Shell.pure (some x)) w e in
    ap (λ o. (ok o, w)) (pure-eq-ok k).0
settled-claim (ok none, w) e = cc
settled-claim (err x, w) e = cc

pub claim_transfer-ranged :
    (id : String) (w : World) {s : TransferState}
    → Holds IsSound w
    → (claim_transfer id w).0 ≡ ok (some s)
    → InRange s
unfolding claim_transfer
claim_transfer-ranged id w {s} h e =
    let (_, u, b, k) =
      bind-eq-ok begin (λ _ w. settle_claim (claim_one id claim_lease_duration w)) w
        (pair_eta (claim_transfer id w) e) in
    claim_one-ranged id claim_lease_duration u (begin-sees IsSound w h b)
      (settled-claim (claim_one id claim_lease_duration u) k)

record_leg_success-SagaKeeps : (id : String) (leg : ℕ) → SagaKeeps (record_leg_success id leg)
unfolding record_leg_success
record_leg_success-SagaKeeps id leg =
    bind-SagaKeeps clock _ clock-SagaKeeps
      (λ now. advance-SagaKeeps id (if eqb leg 3 then settled else pending) now "")

schedule_retry-SagaKeeps :
    (id : String) (leg : ℕ) (delay : Option ℕ) → SagaKeeps (schedule_retry id leg delay)
schedule_retry-SagaKeeps id leg none = return-SagaKeeps tt
schedule_retry-SagaKeeps id leg (some delay) = after-SagaKeeps delay (forward_legs_from id leg) tt

retry_leg-SagaKeeps :
    (id : String) (leg : ℕ) (e : Error) (delay : Option ℕ) → SagaKeeps (retry_leg id leg e delay)
unfolding retry_leg
retry_leg-SagaKeeps id leg e delay = bind-SagaKeeps clock _ clock-SagaKeeps (λ now.
    bind-SagaKeeps (shell (advance_after_leg_outcome id _ (plus_delay now delay) "")) _
      (advance-SagaKeeps id _ (plus_delay now delay) "")
      (λ _.
        bind-SagaKeeps (schedule_retry id leg delay) _ (schedule_retry-SagaKeeps id leg delay)
          (λ _. fail-SagaKeeps e)))

retry_or_reverse-SagaKeeps :
    (id : String) (leg : ℕ) (s : TransferState) (e : Error) (inline : Bool) (delay : Option ℕ)
    → InRange s
    → SagaKeeps (retry_or_reverse id leg s e inline delay)
retry_or_reverse-SagaKeeps id leg s e inline (some delay) r =
    retry_leg-SagaKeeps id leg e (some delay)
retry_or_reverse-SagaKeeps id leg s e inline none r =
    if-SagaKeeps (eqb leg 2) _ _
      (bind-SagaKeeps (attempt_leg1_reversal id s) _ (attempt_leg1_reversal-SagaKeeps id s r)
        (λ _. fail-SagaKeeps e))
      (if-SagaKeeps (eqb leg 3) _ _
        (bind-SagaKeeps (reverse_leg2_then_leg1 id s inline) _
          (reverse_leg2_then_leg1-SagaKeeps id s inline r) (λ _. fail-SagaKeeps e))
        (retry_leg-SagaKeeps id leg e none))

handle_leg_failure-SagaKeeps :
    (id : String) (leg : ℕ) (s : TransferState) (e : Error) (inline : Bool)
    → InRange s
    → SagaKeeps (handle_leg_failure id leg s e inline)
unfolding handle_leg_failure
handle_leg_failure-SagaKeeps id leg s e inline r =
    bind-SagaKeeps (record_failed_attempt id leg) _ (record_failed_attempt-SagaKeeps id leg)
      (λ failed. bind-SagaKeeps draw_jitter _ draw_jitter-SagaKeeps (λ jitter.
        retry_or_reverse-SagaKeeps id leg s e inline (backoff_for_attempt failed jitter) r))

post_leg-SagaKeeps :
    (id : String) (leg : ℕ) (s : TransferState) (m : Movement)
    → InRange s
    → SagaKeeps (post_leg id leg s m)
unfolding post_leg
post_leg-SagaKeeps id leg s m r =
    bind-SagaKeeps (consume_fault (transfer_leg_key id leg)) _
      (consume_fault-SagaKeeps (transfer_leg_key id leg))
      (λ faulty. fault_or_move-SagaKeeps faulty m s r)

leg_outcome-Steady :
    (id : String) (leg : ℕ) (s : TransferState) (inline : Bool)
    (r : Result Error (Unit {0}) × Process)
    → InRange s
    → Steady r.1
    → Steady (leg_outcome id leg s inline r).1
leg_outcome-Steady id leg s inline (err e, p) r h =
    (handle_leg_failure-SagaKeeps id leg s e inline r).at p h
leg_outcome-Steady id leg s inline (ok _, p) r h = (record_leg_success-SagaKeeps id leg).at p h

move_leg-SagaKeeps :
    (id : String) (leg : ℕ) (s : TransferState) (inline : Bool) (m : Result Error Movement)
    → InRange s
    → SagaKeeps (move_leg id leg s inline m)
move_leg-SagaKeeps id leg s inline (err e) r = fail-SagaKeeps e
move_leg-SagaKeeps id leg s inline (ok m) r = record {
  at = λ p h.
      leg_outcome-Steady id leg s inline (post_leg id leg s m p) r
        ((post_leg-SagaKeeps id leg s m r).at p h);
}

crash_or_move-SagaKeeps :
    (id : String) (leg : ℕ) (s : TransferState) (inline crash : Bool)
    → InRange s
    → SagaKeeps (crash_or_move id leg s inline crash)
crash_or_move-SagaKeeps id leg s inline true r =
    bind-SagaKeeps clock _ clock-SagaKeeps (λ now. advance-SagaKeeps id s.status now s.reason)
crash_or_move-SagaKeeps id leg s inline false r =
    move_leg-SagaKeeps id leg s inline (leg_movement s leg) r

attempt_claimed-SagaKeeps :
    (id : String) (leg : ℕ) (inline : Bool) (claimed : Option TransferState)
    → ((s : TransferState) → claimed ≡ some s → InRange s)
    → SagaKeeps (attempt_claimed id leg inline claimed)
attempt_claimed-SagaKeeps id leg inline none k = return-SagaKeeps tt
attempt_claimed-SagaKeeps id leg inline (some s) k =
    bind-SagaKeeps
      (if eqb leg 2 && inline then consume_forward_crash_simulation id else return false) _
      (if-SagaKeeps (eqb leg 2 && inline) _ _ (consume_forward-SagaKeeps id)
        (return-SagaKeeps false))
      (λ crash. crash_or_move-SagaKeeps id leg s inline crash (k s refl))

shell-answer {ℓ} :
    {A : Type ℓ} (m : Shell A) (p : Process) {a : A} → (shell m p).0 ≡ ok a → (m p.world).0 ≡ ok a
shell-answer m p e = e

pub attempt_leg-SagaKeeps :
    (id : String) (leg : ℕ) (inline : Bool) → SagaKeeps (attempt_leg id leg inline)
unfolding attempt_leg
attempt_leg-SagaKeeps id leg inline =
    bind-SagaKeeps_on (shell (claim_transfer id)) _
      (shell-SagaKeeps (claim_transfer id) (claim_transfer-Keeps id))
      (λ p h claimed e. attempt_claimed-SagaKeeps id leg inline claimed (λ s c.
        claim_transfer-ranged id p.world h.books (shell-answer (claim_transfer id) p e ∙ ap ok c)))

then_leg_3-Steady :
    (id : String) (leg : ℕ) (r : Result Error (Unit {0}) × Process)
    → Steady r.1
    → Steady (then_leg_3 id leg r).1
then_leg_3-Steady id leg (err e, p) h = h
then_leg_3-Steady id leg (ok _, p) h =
    if-Steady (eqb leg 2) (ignore (attempt_leg id 3 true) p) (ok tt, p)
      ((attempt_leg-SagaKeeps id 3 true).at p h) h

pub attempt_forward_legs_from-SagaKeeps :
    (id : String) (leg : ℕ) → SagaKeeps (attempt_forward_legs_from id leg)
unfolding attempt_forward_legs_from
attempt_forward_legs_from-SagaKeeps id leg = record {
  at = λ p h.
      then_leg_3-Steady id leg (attempt_leg id leg true p)
        ((attempt_leg-SagaKeeps id leg true).at p h);
}
