-- ===== src/Http/Amount/Digits.antt =====
-- The digits that `%d` prints, and how they are read back.
use mathlib.Core.Path.{subst}
use mathlib.Core.List.{append_assoc}
use ledgerops.Prelude.{
  ℕ, zero, suc, ◌+◌, ◌*◌, ◌/◌, ◌%◌, ◌<◌, ◌≤◌, ◌≡◌, refl, ap, sym, ◌∙◌, true, false, List, [], ◌∷◌,
  ◌++◌, ◌⊎◌, inl, inr, All-append, All, codes, codes-append, arith,
}
use ledgerops.Prelude.Decimal.{digit, decimal, decimal_upto}
use ledgerops.Domain.Money.{digits_value}
use ledgerops.Http.Amount.{is_digit, span_digits}

pub codes-digit : (d : ℕ) → d < 10 → codes (digit d) ≡ (b'0' + d) ∷ []
codes-digit zero h = refl
codes-digit (suc zero) h = refl
codes-digit (suc (suc zero)) h = refl
codes-digit (suc (suc (suc zero))) h = refl
codes-digit (suc (suc (suc (suc zero)))) h = refl
codes-digit (suc (suc (suc (suc (suc zero))))) h = refl
codes-digit (suc (suc (suc (suc (suc (suc zero)))))) h = refl
codes-digit (suc (suc (suc (suc (suc (suc (suc zero))))))) h = refl
codes-digit (suc (suc (suc (suc (suc (suc (suc (suc zero)))))))) h = refl
codes-digit (suc (suc (suc (suc (suc (suc (suc (suc (suc zero))))))))) h = refl
codes-digit (suc (suc (suc (suc (suc (suc (suc (suc (suc (suc d)))))))))) h = absurd (omega arith)

-- The digits of a number are its only digit, or those of its tenth and its last one.
decimal_upto_cases :
    (fuel n : ℕ)
    → ((n < 10) × (codes (decimal_upto (suc fuel) n) ≡ (b'0' + n) ∷ []))
      ⊎ ((10 ≤ n)
          × (codes (decimal_upto (suc fuel) n)
              ≡ codes (decimal_upto fuel (n / 10)) ++ (b'0' + n % 10) ∷ []))
unfolding decimal_upto
decimal_upto_cases fuel n = grind (arith, codes-digit, codes-append)

codes-decimal_upto_zero : (n : ℕ) → codes (decimal_upto 0 n) ≡ (b'0' + n % 10) ∷ []
unfolding decimal_upto
codes-decimal_upto_zero n = codes-digit (n % 10) (omega arith)

abbrev pub IsDigits : List ℕ → Type 0
IsDigits = All (λ c. is_digit c ≡ true)

pub IsDigits-last : (d : ℕ) → d < 10 → IsDigits ((b'0' + d) ∷ [])
IsDigits-last d h = (ground arith, tt)

pub IsDigits-decimal_upto : (fuel n : ℕ) → IsDigits (codes (decimal_upto fuel n))
IsDigits-decimal_upto zero n =
    subst IsDigits (sym (codes-decimal_upto_zero n)) (IsDigits-last (n % 10) (omega arith))
IsDigits-decimal_upto (suc fuel) n = elim (decimal_upto_cases fuel n) [
  | inl (small, e) ↦ subst IsDigits (sym e) (IsDigits-last n small)
  | inr (_, e) ↦ subst IsDigits (sym e) (
      All-append (λ c. is_digit c ≡ true) (codes (decimal_upto fuel (n / 10))) _
        (IsDigits-decimal_upto fuel (n / 10)) (IsDigits-last (n % 10) (omega arith)))
]

abbrev pub IsCons : List ℕ → Type 0
IsCons s = (c : ℕ) × (cs : List ℕ) × (s ≡ c ∷ cs)

pub IsCons-append : (s t : List ℕ) → IsCons s → IsCons (s ++ t)
IsCons-append s t (c, cs, e) = (c, cs ++ t, ap (λ s. s ++ t) e)

pub IsCons-decimal_upto : (fuel n : ℕ) → IsCons (codes (decimal_upto fuel n))
IsCons-decimal_upto zero n = (_, _, codes-decimal_upto_zero n)
IsCons-decimal_upto (suc fuel) n = elim (decimal_upto_cases fuel n) [
  | inl (_, e) ↦ (_, _, e)
  | inr (_, e) ↦ subst IsCons (sym e) (IsCons-append _ _ (IsCons-decimal_upto fuel (n / 10)))
]

pub digits_value_last :
    (n d : ℕ) (rest : List ℕ)
    → d < 10
    → digits_value n ((b'0' + d) ∷ rest) ≡ digits_value (n * 10 + d) rest
unfolding digits_value
digits_value_last n d rest h = ground arith

digits_value_first :
    (d n : ℕ) (rest : List ℕ)
    → d < 10
    → 0 * 10 + d ≡ n
    → digits_value 0 ((b'0' + d) ∷ rest) ≡ digits_value n rest
digits_value_first d n rest h e = digits_value_last 0 d rest h ∙ ap (λ k. digits_value k rest) e

-- Reading the digits of a number, and going on behind them.
pub digits_value-decimal_upto :
    (fuel n : ℕ) (rest : List ℕ)
    → n ≤ fuel
    → digits_value 0 (codes (decimal_upto fuel n) ++ rest) ≡ digits_value n rest
digits_value-decimal_upto zero n rest h =
    rw (codes-decimal_upto_zero n) (digits_value_first (n % 10) n rest (omega arith) (omega arith))
digits_value-decimal_upto (suc fuel) n rest h = elim (decimal_upto_cases fuel n) [
  | inl (small, e) ↦ rw e (digits_value_first n n rest small (omega arith))
  | inr (_, e) ↦
      rw
        (
          e,
          append_assoc (codes (decimal_upto fuel (n / 10))) ((b'0' + n % 10) ∷ []) rest,
          digits_value-decimal_upto fuel (n / 10) ((b'0' + n % 10) ∷ rest) (omega arith),
          digits_value_last (n / 10) (n % 10) rest (omega arith),
        )
        (ap (λ k. digits_value k rest) (omega arith))
]

pub span_digits-append :
    (ds : List ℕ) (c : ℕ) (rest : List ℕ)
    → IsDigits ds
    → is_digit c ≡ false
    → span_digits (ds ++ c ∷ rest) ≡ (ds, c ∷ rest)
span_digits-append [] c rest h k = ground arith
span_digits-append (d ∷ ds) c rest h k = ground (arith, span_digits-append ds c rest h.1 k)

codes-decimal_upto_small : (fuel n : ℕ) → n < 10 → codes (decimal_upto fuel n) ≡ (b'0' + n) ∷ []
codes-decimal_upto_small zero n h =
    codes-decimal_upto_zero n ∙ ap (λ k. (b'0' + k) ∷ []) (omega arith)
codes-decimal_upto_small (suc fuel) n h = elim (decimal_upto_cases fuel n) [
  | inl (_, e) ↦ e
  | inr (large, _) ↦ absurd (omega arith)
]

-- A number below a hundred has one digit or two.
codes-decimal_upto_pair :
    (fuel n : ℕ)
    → 10 ≤ n
    → n < 100
    → n ≤ fuel
    → codes (decimal_upto fuel n) ≡ (b'0' + n / 10) ∷ (b'0' + n % 10) ∷ []
codes-decimal_upto_pair zero n h k fits = absurd (omega arith)
codes-decimal_upto_pair (suc fuel) n h k fits = elim (decimal_upto_cases fuel n) [
  | inl (small, _) ↦ absurd (omega arith)
  | inr (_, e) ↦
      e ∙ ap (λ s. s ++ (b'0' + n % 10) ∷ []) (codes-decimal_upto_small fuel (n / 10) (omega arith))
]

pub codes-decimal_small : (n : ℕ) → n < 10 → codes (decimal n) ≡ (b'0' + n) ∷ []
unfolding decimal
codes-decimal_small n h = codes-decimal_upto_small n n h

pub codes-decimal_pair :
    (n : ℕ) → 10 ≤ n → n < 100 → codes (decimal n) ≡ (b'0' + n / 10) ∷ (b'0' + n % 10) ∷ []
unfolding decimal
codes-decimal_pair n h k = codes-decimal_upto_pair n n h k (omega arith)

pub IsDigits-decimal : (n : ℕ) → IsDigits (codes (decimal n))
unfolding decimal
IsDigits-decimal n = IsDigits-decimal_upto n n

pub IsCons-decimal : (n : ℕ) → IsCons (codes (decimal n))
unfolding decimal
IsCons-decimal n = IsCons-decimal_upto n n

pub digits_value-decimal :
    (n : ℕ) (rest : List ℕ) → digits_value 0 (codes (decimal n) ++ rest) ≡ digits_value n rest
unfolding decimal
digits_value-decimal n rest = digits_value-decimal_upto n n rest (omega arith)
