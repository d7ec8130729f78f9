-- ===== src/Domain/Post/Rules.antt =====
-- The rules that `Post` decides, stated in exact arithmetic: conservation (I1), funds (I4) and
-- tenants (I8), and that its own balance check never fires.
use ledgerops.Prelude.{
  ℕ, String, ◌≡◌, refl, true, eq_iff, Result, ok, err, arith, List, [], ◌∷◌, ◌&&◌, if◌then◌else◌,
  map,
}
use ledgerops.Prelude.Int
use ledgerops.Prelude.Int.{
  ℤ, pos, pos_part, neg_part, ◌+ℤ◌, ◌-ℤ◌, ◌≤ℤ◌, ltb_ℤ, int_laws, +ℤ_parts, -ℤ_parts,
}
use ledgerops.Prelude.Int64.{IsInt64, add64, neg64, wrap64, neg64_id}
use ledgerops.Domain.Violation.{Money, Violation, new_insufficient_funds}
use ledgerops.Domain.Money.{negate, is_positive}
use ledgerops.Domain.Account.{Account, is_wallet, wallet, apply}
use ledgerops.Domain.Posting.{TransferCommand, Posting, Entry, BalanceDelta}
use ledgerops.Domain.Post.{post}
use ledgerops.Domain.Post.Laws.{post-Accepted}

abbrev pub max_int64 : ℕ
max_int64 = 9223372036854775807

-- Amounts in the range of `int64`.
abbrev pub IsRange : Money → Type 0
IsRange m = IsInt64 m.minor_units

-- The amount moves value, in exact arithmetic.
pub negate_exact :
    (m : Money) → IsRange m → is_positive m ≡ true → (negate m).minor_units ≡ pos 0 -ℤ m.minor_units
unfolding negate is_positive
negate_exact m r p = neg64_id m.minor_units r (ground arith)

pub negate-negate : (m : Money) → IsRange m → is_positive m ≡ true → negate (negate m) ≡ m
unfolding negate is_positive neg64 wrap64 ◌-ℤ◌
negate-negate m r p = ground arith

-- The sum of a list of entries in exact arithmetic.
abbrev pub exact_sum : List Entry → ℤ
exact_sum [] = pos 0
exact_sum (e ∷ es) = e.amount.minor_units +ℤ exact_sum es

-- An entry's account and signed amount, as the delta that it makes.
abbrev pub delta_of : Entry → BalanceDelta
delta_of e = record { account_id = e.account_id; delta = e.amount }

-- The entries of every accepted movement of an amount in the range of `int64` sum to zero in
-- exact arithmetic, and its deltas are exactly those entries.
pub post_conserves :
    (cmd : TransferCommand) (snapshots : List Account) (now : ℕ) (transaction_id : String)
    {p : Posting}
    → IsRange cmd.amount
    → post cmd snapshots now transaction_id ≡ ok p
    → (exact_sum p.entries ≡ pos 0) × (p.deltas ≡ map delta_of p.entries)
post_conserves cmd snapshots now transaction_id {p} r h =
    let (a, b, a', b', acc) = post-Accepted cmd snapshots now transaction_id h in
    rw (acc.legs, acc.deltas, negate_exact cmd.amount r acc.positive) (omega int_laws, refl)

-- Taking a positive amount from a balance that is not negative: the wrapped difference is
-- negative exactly where the exact one is.
debit_test :
    (bal x : ℤ)
    → IsInt64 bal
    → IsInt64 x
    → pos 0 ≤ℤ bal
    → pos 1 ≤ℤ x
    → ltb_ℤ (add64 bal (neg64 x)) (pos 0) ≡ ltb_ℤ bal x
unfolding add64 neg64 wrap64 ◌-ℤ◌ ◌+ℤ◌
debit_test (pos b) (pos x) h k l m = ground arith
debit_test (Int.negsuc b) x h k l m = absurd (omega arith)
debit_test b (Int.negsuc x) h k l m = absurd (omega arith)

-- Adding one wraps to a negative balance exactly where the sum leaves the range.
credit_test :
    (bal x : ℤ)
    → IsInt64 bal
    → IsInt64 x
    → pos 0 ≤ℤ bal
    → pos 1 ≤ℤ x
    → ltb_ℤ (add64 bal x) (pos 0) ≡ ltb_ℤ (pos max_int64) (bal +ℤ x)
unfolding add64 wrap64 ◌+ℤ◌
credit_test (pos b) (pos x) h k l m = ground arith
credit_test (Int.negsuc b) x h k l m = absurd (omega arith)
credit_test b (Int.negsuc x) h k l m = absurd (omega arith)

pub positive_le : (m : Money) → is_positive m ≡ true → pos 1 ≤ℤ m.minor_units
unfolding is_positive
positive_le m h = ground arith

neg64-neg64 : (x : ℤ) → IsInt64 x → pos 1 ≤ℤ x → neg64 (neg64 x) ≡ x
unfolding neg64 wrap64 ◌-ℤ◌
neg64-neg64 x h k = ground arith

-- `Apply` of a negated amount, decided in exact arithmetic.
abbrev pub debited : Account → Money → Result Violation Account
debited a m =
    if is_wallet a.kind && ltb_ℤ a.balance.minor_units m.minor_units
    then err (new_insufficient_funds a.id a.balance m)
    else ok (record a {
      balance = record a.balance {
        minor_units = add64 a.balance.minor_units (neg64 m.minor_units);
      };
    })

-- `Apply` of an amount, decided in exact arithmetic.
abbrev pub credited : Account → Money → Result Violation Account
credited a m =
    if is_wallet a.kind && ltb_ℤ (pos max_int64) (a.balance.minor_units +ℤ m.minor_units)
    then err (new_insufficient_funds a.id a.balance (negate m))
    else ok (record a {
      balance = record a.balance { minor_units = add64 a.balance.minor_units m.minor_units };
    })

module _ (a : Account) (m : Money) (amount_range : IsRange m) (range : IsRange a.balance)
    (legal : a.kind ≡ wallet → pos 0 ≤ℤ a.balance.minor_units)
    (moves_value : pos 1 ≤ℤ m.minor_units) (same_currency : a.balance.currency ≡ m.currency) where
  pub apply_debit : apply a (negate m) ≡ debited a m
  unfolding apply
  apply_debit = ground (
    arith,
    eq_iff a.balance.currency m.currency,
    neg64-neg64 m.minor_units amount_range moves_value,
    debit_test a.balance.minor_units m.minor_units range amount_range,
  )

  pub apply_credit : apply a m ≡ credited a m
  unfolding apply
  apply_credit = ground (
    arith,
    eq_iff a.balance.currency m.currency,
    credit_test a.balance.minor_units m.minor_units range amount_range,
  )
