-- ===== src/Prelude/Text.antt =====
-- Identifiers, keys and names are native texts. Go orders strings by their bytes, which for UTF-8
-- is the order of the code points that `compare` decides.
use Prim.Native.Nat.{ℕ, Ordering, compare as compare_ℕ}
use Prim.Native.Char.{code}
use Prim.Native.String.{String, compare, then}
use Prim.Native.String.compare as compare_clauses
use mathlib.Core.Path.{◌≡◌, refl}
use mathlib.Core.Bool.{Bool}
use native.Mathlib.Omega.{arith}
use text.Mathlib.Text.{is_lt}

-- `s < t` on strings.
abbrev pub str_ltb : String → String → Bool
str_ltb s t = is_lt (compare s t)

abbrev flip : Ordering → Ordering
flip Ordering.lt = Ordering.gt
flip Ordering.eq = Ordering.eq
flip Ordering.gt = Ordering.lt

compare_ℕ_flip : (a b : ℕ) → compare_ℕ b a ≡ flip (compare_ℕ a b)
compare_ℕ_flip a b = ground arith

flip-then : (o p : Ordering) → flip (then o p) ≡ then (flip o) (flip p)
flip-then Ordering.lt p = refl
flip-then Ordering.eq p = refl
flip-then Ordering.gt p = refl

-- Comparing the other way round gives the opposite answer.
pub compare-flip : (s t : String) → compare t s ≡ flip (compare s t)
compare-flip String.[] String.[] = refl
compare-flip String.[] (String.◌∷◌ d t) =
    rw (compare_clauses.nil-cons d t, compare_clauses.cons-nil d t) refl
compare-flip (String.◌∷◌ c s) String.[] =
    rw (compare_clauses.nil-cons c s, compare_clauses.cons-nil c s) refl
compare-flip (String.◌∷◌ c s) (String.◌∷◌ d t) =
    rw
      (
        compare_clauses.cons-cons d c t s,
        compare_clauses.cons-cons c d s t,
        flip-then (compare_ℕ (code c) (code d)) (compare s t),
        compare_ℕ_flip (code c) (code d),
        compare-flip s t,
      )
      refl
