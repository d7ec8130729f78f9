-- ===== src/Prelude/Fallible.antt =====
-- Go's `(value, error)` pairs: a value or an error, and the early return on an error.
use mathlib.Core.Path.{◌≡◌, refl}
use mathlib.Core.Logic.{◌⊎◌, inl, inr}
use mathlib.Core.Bool.{Bool, true, false}

pub data Result {ℓ κ} (E : Type ℓ) (A : Type κ) : Type (ℓ ⊔ κ) where
  ok : A → Result E A
  err : E → Result E A

-- `if test { return …, e }`
abbrev pub refuse_if {κ} : {Problem : Type κ} → Bool → Problem → Result Problem (Unit {0})
refuse_if false problem = ok tt
refuse_if true problem = err problem

-- `if err != nil { return …, err }`, with the value that stands beside a nil error, and without.
infixl 5 ◌>>=◌ ◌>>◌
abbrev pub ◌>>=◌ {κ ℓ μ} :
    {Problem : Type κ} {A : Type ℓ} {B : Type μ}
    → Result Problem A
    → (A → Result Problem B)
    → Result Problem B
err problem >>= rest = err problem
ok value >>= rest = rest value

abbrev pub ◌>>◌ {κ ℓ μ} :
    {Problem : Type κ} {A : Type ℓ} {B : Type μ}
    → Result Problem A
    → Result Problem B
    → Result Problem B
err problem >> rest = err problem
ok _ >> rest = rest

-- A chain that succeeds has succeeded at its first step.
pub >>=-eq-ok {κ ℓ μ} :
    {Problem : Type κ} {A : Type ℓ} {B : Type μ} (first : Result Problem A)
    (rest : A → Result Problem B) {end : B}
    → (first >>= rest) ≡ ok end
    → (value : A) × (first ≡ ok value) × (rest value ≡ ok end)
>>=-eq-ok (err problem) rest done = cc
>>=-eq-ok (ok value) rest done = (value, refl, done)

pub Result-cases {ℓ κ} :
    {E : Type ℓ} {A : Type κ} (r : Result E A) → ((e : E) × (r ≡ err e)) ⊎ ((a : A) × (r ≡ ok a))
Result-cases (ok a) = inr (a, refl)
Result-cases (err e) = inl (e, refl)
