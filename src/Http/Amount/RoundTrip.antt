-- ===== src/Http/Amount/RoundTrip.antt =====
-- An amount that is printed is read back.
use Prim.Native.String
use mathlib.Core.Path.{subst}
use native.Mathlib.Decide.{dec_lt}
use ledgerops.Prelude.{
  ℕ, suc, ◌+◌, ◌/◌, ◌%◌, ◌<◌, ◌≤◌, ◌^◌, ◌≡◌, refl, ap, sym, ◌∙◌, String, Bool, true, false, some,
  List, [], ◌∷◌, ◌++◌, codes, codes-append, ok, arith,
}
use ledgerops.Prelude.Int.{ℤ, pos, negsuc, neg_part, ◌-ℤ◌, ltb_ℤ}
use ledgerops.Prelude.Int64.{IsInt64, is_int64, neg64, wrap64}
use ledgerops.Prelude.Decimal.{decimal, signed_decimal}
use ledgerops.Domain.Money.{digits_value, set_string, signed, new_money_from_decimal_literal}
use ledgerops.Http.Amount.{
  after_sign, after_whole, decimal_literal, legal, read_literal, parse_amount, format_money,
  two_digits, with_sign,
}
use ledgerops.Http.Amount.Digits.{
  IsDigits, IsCons, IsDigits-decimal, IsCons-decimal, IsCons-append, digits_value-decimal,
  digits_value_last, codes-decimal_small, codes-decimal_pair, span_digits-append,
}

abbrev whole_of : ℕ → List ℕ
whole_of n = codes (decimal (n / 100))

abbrev frac_of : ℕ → List ℕ
frac_of n = (b'0' + n % 100 / 10) ∷ (b'0' + n % 100 % 10) ∷ []

two_digits_small : (n : ℕ) → n < 10 → two_digits (pos n) ≡ String.◌++◌ "0" (decimal n)
two_digits_small n h = ground arith

two_digits_large : (n : ℕ) → 10 ≤ n → two_digits (pos n) ≡ decimal n
two_digits_large n h = ground arith

padded : (n : ℕ) → n < 10 → b'0' ∷ (b'0' + n) ∷ [] ≡ (b'0' + n / 10) ∷ (b'0' + n % 10) ∷ []
padded n h = ground arith

codes-two_digits :
    (n : ℕ) → n < 100 → codes (two_digits (pos n)) ≡ (b'0' + n / 10) ∷ (b'0' + n % 10) ∷ []
codes-two_digits n h = elim (dec_lt n 10) [
  | yes small ↦
      rw (two_digits_small n small, codes-append "0", codes-decimal_small n small) (padded n small)
  | no large ↦ rw (two_digits_large n (omega arith)) (codes-decimal_pair n (omega arith) h)
]

-- The wire form of an amount that is not negative.
codes-with_sign :
    (sign : String) (n : ℕ)
    → codes (with_sign sign (pos n)) ≡ codes sign ++ (whole_of n ++ b'.' ∷ frac_of n)
unfolding signed_decimal
codes-with_sign sign n =
    rw
      (
        codes-append sign,
        codes-append (decimal (n / 100)),
        codes-append ".",
        codes-two_digits (n % 100) (omega arith),
      )
      refl

after_sign_digits :
    (s : List ℕ)
    → IsCons s
    → IsDigits s
    → (rest : List ℕ) → after_sign (s ++ rest) ≡ (false, s ++ rest)
after_sign_digits [] (c, cs, e) h rest = cc
after_sign_digits (d ∷ ds) k h rest = ground arith

after_whole_wire :
    (negative : Bool) (s : List ℕ) (n : ℕ)
    → IsCons s
    → after_whole negative (s, b'.' ∷ frac_of n) ≡ some (negative, s, frac_of n)
after_whole_wire negative [] n (c, cs, e) = cc
after_whole_wire negative (d ∷ ds) n k = ground arith

set_string_cons : (s : List ℕ) → IsCons s → set_string s ≡ digits_value 0 s
unfolding set_string
set_string_cons [] (c, cs, e) = cc
set_string_cons (d ∷ ds) k = refl

digits_value_end : (k n : ℕ) → k ≡ n → digits_value k [] ≡ some n
unfolding digits_value
digits_value_end k n e = ap some e

set_string_wire : (n : ℕ) → set_string (whole_of n ++ frac_of n) ≡ some n
set_string_wire n =
    set_string_cons _ (IsCons-append _ _ (IsCons-decimal (n / 100)))
    ∙ digits_value-decimal (n / 100) (frac_of n)
    ∙ digits_value_last (n / 100) (n % 100 / 10) _ (omega arith)
    ∙ digits_value_last _ (n % 100 % 10) [] (omega arith)
    ∙ digits_value_end _ n (omega arith)

decimal_literal_wire :
    (n : ℕ) → decimal_literal (whole_of n ++ b'.' ∷ frac_of n) ≡ some (false, whole_of n, frac_of n)
unfolding decimal_literal
decimal_literal_wire n =
    rw
      (
        after_sign_digits (whole_of n) (IsCons-decimal (n / 100)) (IsDigits-decimal (n / 100))
            (b'.' ∷ frac_of n),
        span_digits-append (whole_of n) b'.' (frac_of n) (IsDigits-decimal (n / 100)) refl,
      )
      (after_whole_wire false (whole_of n) n (IsCons-decimal (n / 100)))

decimal_literal_wire_negative :
    (n : ℕ)
    → decimal_literal (b'-' ∷ (whole_of n ++ b'.' ∷ frac_of n)) ≡ some (true, whole_of n, frac_of n)
unfolding decimal_literal
decimal_literal_wire_negative n =
    rw (span_digits-append (whole_of n) b'.' (frac_of n) (IsDigits-decimal (n / 100)) refl)
      (after_whole_wire true (whole_of n) n (IsCons-decimal (n / 100)))

is_int64_intro : (z : ℤ) → IsInt64 z → is_int64 z ≡ true
is_int64_intro z h = ground arith

new_money_wire :
    (negative : Bool) (n : ℕ)
    → IsInt64 (signed negative n)
    → new_money_from_decimal_literal negative (whole_of n) (frac_of n) "USD"
      ≡ ok (record { minor_units = signed negative n; currency = "USD" })
unfolding new_money_from_decimal_literal
new_money_wire negative n fits =
    rw (set_string_wire n, is_int64_intro (signed negative n) fits) refl

parse_amount_wire :
    (n : ℕ)
    → IsInt64 (pos n)
    → parse_amount (with_sign "" (pos n)) ≡ ok (record { minor_units = pos n; currency = "USD" })
unfolding parse_amount
parse_amount_wire n fits =
    ap (λ s. read_literal (decimal_literal s)) (codes-with_sign "" n)
    ∙ ap read_literal (decimal_literal_wire n)
    ∙ ap legal (new_money_wire false n fits)

signed_negative : (n : ℕ) → signed true (suc n) ≡ negsuc n
unfolding ◌-ℤ◌
signed_negative n = ground arith

parse_amount_wire_negative :
    (n : ℕ)
    → IsInt64 (negsuc n)
    → parse_amount (with_sign "-" (pos (suc n)))
      ≡ ok (record { minor_units = negsuc n; currency = "USD" })
unfolding parse_amount
parse_amount_wire_negative n fits =
    ap (λ s. read_literal (decimal_literal s)) (codes-with_sign "-" (suc n))
    ∙ ap read_literal (decimal_literal_wire_negative (suc n))
    ∙ ap legal (new_money_wire true (suc n) (subst IsInt64 (sym (signed_negative n)) fits))
    ∙ ap (λ z. ok (record { minor_units = z; currency = "USD" })) (signed_negative n)

format_positive :
    (n : ℕ) → format_money (record { minor_units = pos n; currency = "USD" }) ≡ with_sign "" (pos n)
unfolding format_money
format_positive n = ground arith

is_negative : (n : ℕ) → ltb_ℤ (negsuc n) (pos 0) ≡ true
is_negative n = ground arith

opposite : (n : ℕ) → suc n < 2 ^ 63 → neg64 (negsuc n) ≡ pos (suc n)
unfolding neg64 wrap64 ◌-ℤ◌
opposite n h = ground arith

format_negative :
    (n : ℕ)
    → suc n < 2 ^ 63
    → format_money (record { minor_units = negsuc n; currency = "USD" })
      ≡ with_sign "-" (pos (suc n))
unfolding format_money
format_negative n h = rw (is_negative n) (ap (with_sign "-") (opposite n h))

-- An amount of US dollars in the range of `int64`, but the least one, is read back from the text
-- that it is printed as.
pub parse-format :
    (minor : ℤ)
    → IsInt64 minor
    → neg_part minor < 2 ^ 63
    → parse_amount (format_money (record { minor_units = minor; currency = "USD" }))
      ≡ ok (record { minor_units = minor; currency = "USD" })
parse-format (pos n) fits least = ap parse_amount (format_positive n) ∙ parse_amount_wire n fits
parse-format (negsuc n) fits least =
    ap parse_amount (format_negative n least) ∙ parse_amount_wire_negative n fits
