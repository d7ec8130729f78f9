-- ===== src/Prelude/Decimal.antt =====
-- Go's `%d`: numbers written in decimal.
use Prim.Native.Nat.{ℕ, zero, suc, ◌/◌, ◌%◌}
use Prim.Native.String.{String, ◌++◌}
use ledgerops.Prelude.Tests.{ltb, eqb, if◌then◌else◌}
use ledgerops.Prelude.Int.{ℤ, pos, negsuc}

abbrev pub digit : ℕ → String
digit d =
    if eqb d 0
    then "0"
    else if eqb d 1
    then "1"
    else if eqb d 2
    then "2"
    else if eqb d 3
    then "3"
    else if eqb d 4
    then "4"
    else if eqb d 5
    then "5"
    else if eqb d 6
    then "6"
    else if eqb d 7
    then "7"
    else if eqb d 8
    then "8"
    else "9"

-- The fuel bounds the digits: a number has no more of them than its value, or one.
unfoldable pub decimal_upto : ℕ → ℕ → String
decimal_upto zero n = digit (n % 10)
decimal_upto (suc fuel) n =
    let rest = decimal_upto fuel (n / 10) in if ltb n 10 then digit n else rest ++ digit (n % 10)

unfoldable pub decimal : ℕ → String
unfolding decimal_upto
decimal n = decimal_upto n n

unfoldable pub signed_decimal : ℤ → String
unfolding decimal
signed_decimal (pos n) = decimal n
signed_decimal (negsuc n) = "-" ++ decimal (suc n)
