-- ===== src/Http/Amount.antt =====
-- The wire notation of amounts: `parseAmount` and `formatMoney` of
-- internal/adapters/http/handlers.go.
pub mod Digits
pub mod RoundTrip
use Prim.Native.String.{◌++◌}
use ledgerops.Prelude.{
  ℕ, zero, suc, ◌+◌, ◌/◌, ◌%◌, String, Bool, true, false, ◌&&◌, Option, none, some, List, [], ◌∷◌,
  leb, eqb, ltb, codes, if◌then◌else◌, Result, ok, err,
}
use ledgerops.Prelude.Int.{ℤ, pos, negsuc, ◌-ℤ◌, ltb_ℤ}
use ledgerops.Prelude.Int64.{neg64}
use ledgerops.Prelude.Decimal.{decimal, signed_decimal}
use ledgerops.Domain.Violation.{Money, Violation}
use ledgerops.Domain.Money.{new_money_from_decimal_literal}

abbrev pub is_digit : ℕ → Bool
is_digit c = leb b'0' c && leb c b'9'

-- `\d+`, greedy: the digits in front, and what follows them.
abbrev pub span_digits : List ℕ → List ℕ × List ℕ
span_digits [] = ([], [])
span_digits (c ∷ cs) =
    let (ds, rest) = span_digits cs in if is_digit c then (c ∷ ds, rest) else ([], c ∷ cs)

abbrev pub after_sign : List ℕ → Bool × List ℕ
after_sign [] = (false, [])
after_sign (c ∷ cs) = if eqb c b'-' then (true, cs) else (false, c ∷ cs)

-- What follows the digits before the point: the point, digits, and the end of the text.
abbrev pub fraction : List ℕ × List ℕ → Option (List ℕ)
fraction (d ∷ ds, []) = some (d ∷ ds)
fraction _ = none

abbrev pub after_whole : Bool → List ℕ × List ℕ → Option (Bool × List ℕ × List ℕ)
after_whole negative (d ∷ ds, c ∷ cs) = elim (fraction (span_digits cs)) [
  | none ↦ none
  | some frac ↦ if eqb c b'.' then some (negative, d ∷ ds, frac) else none
]
after_whole negative _ = none

-- `decimalLiteral`, the pattern `^(-?)(\d+)\.(\d+)$`: whether there is a sign, and the digits before
-- and after the point.
unfoldable pub decimal_literal : List ℕ → Option (Bool × List ℕ × List ℕ)
decimal_literal text =
    let (negative, unsigned) = after_sign text in after_whole negative (span_digits unsigned)

-- The two ways in which an amount is refused.
pub data AmountError : Type 0 where
  not_lexically_a_number : AmountError
  illegal : Violation → AmountError

abbrev pub legal : Result Violation Money → Result AmountError Money
legal (ok m) = ok m
legal (err v) = err (illegal v)

abbrev pub read_literal : Option (Bool × List ℕ × List ℕ) → Result AmountError Money
read_literal none = err not_lexically_a_number
read_literal (some (negative, whole, frac)) =
    legal (new_money_from_decimal_literal negative whole frac "USD")

-- `parseAmount`
unfoldable pub parse_amount : String → Result AmountError Money
unfolding decimal_literal
parse_amount text = read_literal (decimal_literal (codes text))

-- `minor / 100` and `minor % 100` on `int64`, which round towards zero.
abbrev pub quotient : ℤ → ℤ
quotient (pos n) = pos (n / 100)
quotient (negsuc n) = pos 0 -ℤ pos (suc n / 100)

abbrev pub remainder : ℤ → ℤ
remainder (pos n) = pos (n % 100)
remainder (negsuc n) = pos 0 -ℤ pos (suc n % 100)

-- `%02d`: a number of one digit gets a zero in front, and a sign counts as a digit.
abbrev pub two_digits : ℤ → String
two_digits (pos n) = if ltb n 10 then "0" ++ decimal n else decimal n
two_digits (negsuc n) = signed_decimal (negsuc n)

abbrev pub with_sign : String → ℤ → String
with_sign sign minor =
    sign ++ (signed_decimal (quotient minor) ++ ("." ++ two_digits (remainder minor)))

-- `formatMoney`
unfoldable pub format_money : Money → String
unfolding decimal signed_decimal ◌-ℤ◌ neg64
format_money m =
    if ltb_ℤ m.minor_units (pos 0)
    then with_sign "-" (neg64 m.minor_units)
    else with_sign "" m.minor_units
