-- ===== src/Prelude/Lists.antt =====
-- Lists by native numbers, and predicates over them by recursion.
use Prim.Native.Nat.{ℕ, zero, suc}
use mathlib.Core.Path.{◌≡◌}
use native.Mathlib.Omega.{arith}
use mathlib.Core.Bool.{true, Bool, false, ◌||◌}
use mathlib.Core.List.{List, [], ◌∷◌, ◌++◌}
use mathlib.Core.Option.{Option, none, some}
use ledgerops.Prelude.Tests.{if◌then◌else◌}

module _ {ℓ} {A : Type ℓ} where
  abbrev pub length : List A → ℕ
  length [] = 0
  length (x ∷ xs) = suc (length xs)

  abbrev pub take : ℕ → List A → List A
  take zero xs = []
  take (suc n) [] = []
  take (suc n) (x ∷ xs) = x ∷ take n xs

  abbrev pub replicate : ℕ → A → List A
  replicate zero a = []
  replicate (suc n) a = a ∷ replicate n a

  -- The first item that passes a test, as a loop with an early return finds it.
  abbrev pub find : (A → Bool) → List A → Option A
  find p [] = none
  find p (x ∷ xs) = if p x then some x else find p xs

  abbrev pub any : (A → Bool) → List A → Bool
  any p [] = false
  any p (x ∷ xs) = p x || any p xs

  -- `SELECT … WHERE p`.
  abbrev pub select : (A → Bool) → List A → List A
  select p [] = []
  select p (x ∷ xs) = let rest = select p xs in if p x then x ∷ rest else rest

  abbrev pub All {κ} : (A → Type κ) → List A → Type κ
  All P [] = Unit
  All P (x ∷ xs) = P x × All P xs

  pub All-append {κ} : (P : A → Type κ) (xs ys : List A) → All P xs → All P ys → All P (xs ++ ys)
  All-append P [] ys h k = k
  All-append P (x ∷ xs) ys h k = (h.0, All-append P xs ys h.1 k)

  -- One element, and those around it.
  pub All-around {κ} :
      (P : A → Type κ) (xs : List A) (y : A) (ys : List A)
      → All P (xs ++ (y ∷ ys))
      → P y × All P (xs ++ ys)
  All-around P [] y ys h = h
  All-around P (x ∷ xs) y ys h = ((All-around P xs y ys h.1).0, (h.0, (All-around P xs y ys h.1).1))

  pub All-mono {κ μ} :
      (P : A → Type κ) (Q : A → Type μ) (xs : List A) → ((x : A) → P x → Q x) → All P xs → All Q xs
  All-mono P Q [] f h = tt
  All-mono P Q (x ∷ xs) f h = (f x h.0, All-mono P Q xs f h.1)

  pub any-append_hit :
      (p : A → Bool) (xs ys : List A) (x : A) → p x ≡ true → any p (xs ++ x ∷ ys) ≡ true
  any-append_hit p [] ys x h = ground arith
  any-append_hit p (z ∷ xs) ys x h = ground (arith, any-append_hit p xs ys x h)
