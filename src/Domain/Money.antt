-- ===== src/Domain/Money.antt =====
-- internal/domain/money.go, and `NewMoneyFromDecimalLiteral` of internal/domain/post.go: amounts
-- in minor units. `minorUnits` is an `int64`, whose wrap-around is that of Prelude.Int64.
use ledgerops.Prelude.{
  ℕ, ◌+◌, ◌*◌, ◌-◌, String, Bool, ◌&&◌, ◌||◌, Option, none, some, List, [], ◌∷◌, ◌++◌, ◌==◌, ltb,
  leb, length, replicate, if◌then◌else◌, Result, ok, err,
}
use ledgerops.Prelude.Int.{ℤ, pos, ◌-ℤ◌, ltb_ℤ, eqb_ℤ}
use ledgerops.Prelude.Int64.{add64, neg64, is_int64}
use ledgerops.Domain.Violation.{
  Money, Violation, new_violation, new_currency_mismatch, invalid_amount,
}

-- `currencyScales`: the decimal places of each currency that the ledger holds.
abbrev pub currency_scale : String → Option ℕ
currency_scale currency =
    if currency == "USD" || currency == "EUR" || currency == "GBP"
    then some 2
    else if currency == "JPY"
    then some 0
    else none

unfoldable pub new_money : ℤ → String → Result Violation Money
new_money minor_units currency = elim (currency_scale currency) [
  | none ↦ err (new_violation invalid_amount)
  | some _ ↦ ok (record { minor_units = minor_units; currency = currency })
]

-- `Money.Add`
unfoldable pub add : Money → Money → Result Violation Money
add m other =
    if m.currency == other.currency
    then ok (record m { minor_units = add64 m.minor_units other.minor_units })
    else err (new_currency_mismatch m.currency other.currency)

-- `Money.Negate`
unfoldable pub negate : Money → Money
negate m = record m { minor_units = neg64 m.minor_units }

-- `Money.IsPositive`
unfoldable pub is_positive : Money → Bool
is_positive m = ltb_ℤ (pos 0) m.minor_units

-- `==` on two `Money` values.
unfoldable pub money_eq : Money → Money → Bool
money_eq a b = eqb_ℤ a.minor_units b.minor_units && a.currency == b.currency

-- A text of decimal digits as a number, most significant first: `(*big.Int).SetString(text, 10)`,
-- on texts of code points. `none` where a character is not a digit, or there is none.
unfoldable pub digits_value : ℕ → List ℕ → Option ℕ
digits_value n [] = some n
digits_value n (c ∷ rest) =
    let more = digits_value (n * 10 + (c - b'0')) rest in
    if leb b'0' c && leb c b'9' then more else none

unfoldable pub set_string : List ℕ → Option ℕ
unfolding digits_value
set_string [] = none
set_string (c ∷ rest) = digits_value 0 (c ∷ rest)

-- The sign that `negative` asks for.
abbrev pub signed : Bool → ℕ → ℤ
signed negative magnitude = if negative then pos 0 -ℤ pos magnitude else pos magnitude

unfoldable pub new_money_from_decimal_literal :
    Bool → List ℕ → List ℕ → String → Result Violation Money
unfolding set_string
new_money_from_decimal_literal negative whole_digits frac_digits currency =
    elim (currency_scale currency) [
      | none ↦ err (new_violation invalid_amount)
      | some scale ↦
          if ltb scale (length frac_digits)
          then err (new_violation invalid_amount)
          else elim (set_string
              (whole_digits ++ (frac_digits ++ replicate (scale - length frac_digits) b'0'))) [
                | none ↦ err (new_violation invalid_amount)
                | some magnitude ↦
                    if is_int64 (signed negative magnitude)
                    then ok
                        (record { minor_units = signed negative magnitude; currency = currency })
                    else err (new_violation invalid_amount)
              ]
    ]
