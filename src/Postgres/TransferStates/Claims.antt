-- ===== src/Postgres/TransferStates/Claims.antt =====
-- A claim of a transfer holds for its lease (`ClaimOne` of
-- internal/adapters/postgres/transfer_state.go).
use mathlib.Core.Path.{subst}
use ledgerops.Prelude.{
  ℕ, ◌+◌, ◌<◌, ◌≤◌, String, ◌≡◌, refl, sym, ap, ◌∙◌, false, Option, none, some, Option-cases,
  Bool-cases, inl, inr, List, [], ◌∷◌, ◌==◌, arith, find, ok, Result-cases, if◌then◌else◌,
}
use ledgerops.Domain.Money.{new_money}
use ledgerops.Ports.Vocabulary.{TransferState}
use ledgerops.Ports.Shell.{World, pure, continue, query, statement, clock, ◌>>=◌, ◌>>◌}
use ledgerops.Ports.Shell.Laws.{pure-eq-ok, bind-eq-ok, statement-eq-ok, query-eq-ok, query-calm}
use ledgerops.Postgres.Tables.{Db, stored_at}
use ledgerops.Postgres.TransferStates.{
  scan, scanned, get, change_where, extend_lease, is_due, is_due_status, claim_if_due, claim_one,
}

abbrev until : ℕ → TransferState → TransferState
until t r = record r { next_attempt_at = t }

find-extended :
    (id : String) (t : ℕ) (rows : List TransferState) {r : TransferState}
    → find (λ (x : TransferState). x.transfer_id == id) rows ≡ some r
    → find (λ (x : TransferState). x.transfer_id == id) (change_where id (until t) rows)
      ≡ some (until t r)
find-extended id t [] h = cc
find-extended id t (x ∷ rows) {r} h = elim (Bool-cases (x.transfer_id == id)) [
  | inl k ↦ ground arith
  | inr k ↦ ground (arith, find-extended id t rows {r = r})
]

scan-extended :
    (t : ℕ) (r : TransferState) {s : TransferState}
    → scan r ≡ ok s
    → scan (until t r) ≡ ok (until t s)
unfolding scan new_money
scan-extended t r h = ground arith

scanned-ok :
    (r : TransferState) {s : TransferState} → scan r ≡ ok s → scanned (some r) ≡ ok (some s)
scanned-ok r h = ground arith

-- What is found after the lease is extended.
get-extended :
    (id : String) (t : ℕ) (d : Db) {s : TransferState}
    → get id d ≡ ok (some s)
    → get id (record d { transfer_states = change_where id (until t) d.transfer_states })
      ≡ ok (some (until t s))
unfolding get
get-extended id t d {s} h =
    elim (Option-cases (find (λ (x : TransferState). x.transfer_id == id) d.transfer_states)) [
      | inl e ↦ ground arith
      | inr (r, e) ↦ elim (Result-cases (scan r)) [
        | inl (v, b) ↦ ground arith
        | inr (x, b) ↦
            let same : x ≡ s = ground arith in
            ap scanned (find-extended id t d.transfer_states e)
            ∙ scanned-ok (until t r) (scan-extended t r b)
            ∙ ap (λ y. ok (some (until t y))) same
      ]
    ]

extended_db :
    (id : String) (t : ℕ) (d : Db) {d' : Db}
    → extend_lease id t d ≡ ok (tt, d')
    → d' ≡ record d { transfer_states = change_where id (until (stored_at t)) d.transfer_states }
extended_db id t d h = ground arith

-- The run of a claim on what it found: it changes the lease of a due transfer, or grants nothing.
claimed_at :
    (id : String) (lease now : ℕ) (found : Option TransferState) (w : World) {s : TransferState}
    {w' : World}
    → claim_if_due id lease now found w ≡ (ok (some s), w')
    → (s0 : TransferState) × (found ≡ some s0)
      × (s ≡ until (now + lease) s0)
      × (w'.db ≡ record w.db {
        transfer_states = change_where id (until (stored_at (now + lease))) w.db.transfer_states;
      })
claimed_at id lease now none w h = absurd (cc (ap (λ r. r.0) h))
claimed_at id lease now (some s0) w {s} {w'} h = elim (Bool-cases (is_due now s0)) [
  | inl k ↦
      let run =
        subst
          (λ b.
            (if b
                then (statement (extend_lease id (now + lease))
                    >> pure (some (until (now + lease) s0)))
                else pure none)
              w
            ≡ (ok (some s), w'))
          k h in
      let (_, u, s1, h1) = bind-eq-ok (statement (extend_lease id (now + lease))) _ w run in
      let (e, _) = statement-eq-ok (extend_lease id (now + lease)) w s1 in
      let (same, last) = pure-eq-ok h1 in
      (s0, refl, cc, ap World.db (sym last) ∙ extended_db id (now + lease) w.db e)
  | inr k ↦
      let run =
        subst
          (λ b.
            (if b
                then (statement (extend_lease id (now + lease))
                    >> pure (some (until (now + lease) s0)))
                else pure none)
              w
            ≡ (ok (some s), w'))
          k h in
      absurd (cc (ap (λ r. r.0) run))
]

clock-eq-ok : (w : World) {n : ℕ} {w' : World} → clock w ≡ (ok n, w') → (n ≡ w.now) × (w' ≡ w)
unfolding clock
clock-eq-ok w h = (cc (ap (λ r. r.0) h), sym (ap (λ r. r.1) h))

-- What a granted claim has done: the row was due at the time of the claim, and its lease runs from then.
pub record Claimed (id : String) (lease : ℕ) (w w' : World) (s : TransferState) : Type 0 where
  pub before : TransferState
  pub found : get id w.db ≡ ok (some before)
  pub leased : s ≡ until (w.now + lease) before
  pub tables : w'.db ≡ record w.db {
    transfer_states = change_where id (until (stored_at (w.now + lease))) w.db.transfer_states;
  }

pub claim_one-Claimed :
    (id : String) (lease : ℕ) (w : World) {s : TransferState} {w' : World}
    → claim_one id lease w ≡ (ok (some s), w')
    → Claimed id lease w w' s
unfolding claim_one
claim_one-Claimed id lease w {s} {w'} h =
    let (found, w1, s1, h1) = bind-eq-ok (query (get id)) _ w h in
    let (now, w2, s2, h2) = bind-eq-ok clock _ w1 h1 in
    let (q, d1, env) = query-eq-ok (get id) w s1 in
    let (n, same) = clock-eq-ok w1 s2 in
    let (s0, f, l, d) = claimed_at id lease now found w2 h2 in
    let time : now ≡ w.now = n ∙ env.now in
    let start : w2.db ≡ w.db = ap World.db same ∙ d1 in
    record {
      before = s0;
      found = q ∙ ap ok f;
      leased = l ∙ ap (λ t. until (t + lease) s0) time;
      tables =
          d
          ∙ ap
              (λ (x : Db). record x {
                transfer_states =
                    change_where id (until (stored_at (now + lease))) x.transfer_states;
              })
              start
          ∙ ap
              (λ t. record w.db {
                transfer_states =
                    change_where id (until (stored_at (t + lease))) w.db.transfer_states;
              })
              time;
    }

not_due : (t : ℕ) (s : TransferState) (later : ℕ) → later < t → is_due later (until t s) ≡ false
unfolding is_due
not_due t s later h = elim (Bool-cases (is_due_status s.status)) [
  | inl k ↦ ground arith
  | inr k ↦ ground arith
]

stored_at_soon : (t later : ℕ) → later + 1000 ≤ t → later < stored_at t
stored_at_soon t later h = omega arith

-- Once `ClaimOne` has granted a transfer, it grants it to nobody until less than a microsecond
-- before the lease of the claim is over, in tables where the transfer reads as the claim has left
-- it and where no call fails: the second caller is told that there is nothing to claim, and
-- changes nothing.
pub claim_one_exclusive :
    (id : String) (lease : ℕ) (w : World) {s : TransferState} {w' : World}
    → claim_one id lease w ≡ (ok (some s), w')
    → (later : World) → get id later.db ≡ get id w'.db
    → later.outages ≡ []
    → later.now + 1000 ≤ w.now + lease
    → (other_lease : ℕ) → claim_one id other_lease later ≡ (ok none, later)
unfolding claim_one clock
claim_one_exclusive id lease w {s} {w'} h later same calm soon other_lease =
    let c = claim_one-Claimed id lease w h in
    let end = stored_at (w.now + lease) in
    let found : get id later.db ≡ ok (some (until end c.before)) =
      same ∙ ap (get id) c.tables ∙ get-extended id end w.db c.found in
    ap (λ r. continue r (λ o. clock >>= λ now. claim_if_due id other_lease now o))
      (query-calm (get id) later calm found)
    ∙ rw (not_due end c.before later.now (stored_at_soon (w.now + lease) later.now soon)) refl
