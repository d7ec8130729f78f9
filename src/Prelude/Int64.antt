-- ===== src/Prelude/Int64.antt =====
-- Go's `int64`: an integer kept in range, with arithmetic that wraps around.
use Prim.Native.Nat.{ℕ, ◌+◌, ◌-◌, ◌*◌, ◌/◌, ◌%◌, ◌^◌, ◌≤◌, ◌<◌}
use mathlib.Core.Path.{◌≡◌}
use mathlib.Core.Bool.{Bool, ◌&&◌}
use native.Mathlib.Omega.{arith}
use ledgerops.Prelude.Tests.{ltb, leb}
use ledgerops.Prelude.Int.{ℤ, pos, pos_part, neg_part, sub_ℕ, ◌+ℤ◌, ◌-ℤ◌, +ℤ_parts, eq_of_parts}

abbrev pub IsInt64 : ℤ → Type 0
IsInt64 a = (pos_part a < 2 ^ 63) × (neg_part a ≤ 2 ^ 63)

-- `(*big.Int).IsInt64`, and the range of a `bigint` column.
abbrev pub is_int64 : ℤ → Bool
is_int64 a = ltb (pos_part a) (2 ^ 63) && leb (neg_part a) (2 ^ 63)

-- The low 64 bits, read as two's complement.
unfoldable pub wrap64 : ℤ → ℤ
wrap64 a = sub_ℕ ((2 ^ 63 + pos_part a + (2 ^ 64 - neg_part a % 2 ^ 64)) % 2 ^ 64) (2 ^ 63)

-- `a + b`
unfoldable pub add64 : ℤ → ℤ → ℤ
add64 a b = wrap64 (a +ℤ b)

-- `-a`
unfoldable pub neg64 : ℤ → ℤ
neg64 a = wrap64 (pos 0 -ℤ a)

pub wrap64-IsInt64 : (a : ℤ) → IsInt64 (wrap64 a)
unfolding wrap64
wrap64-IsInt64 a = ground arith

pub wrap64_id : (a : ℤ) → IsInt64 a → wrap64 a ≡ a
unfolding wrap64
wrap64_id a h = ground arith

-- Two integers that differ by a multiple of 2 ^ 64.
pub record Congruent (a b : ℤ) : Type 0 where
  pub above : ℕ
  pub below : ℕ
  pub apart : pos_part a + neg_part b + 2 ^ 64 * above ≡ neg_part a + pos_part b + 2 ^ 64 * below

wrap64-Congruent : (a : ℤ) → Congruent (wrap64 a) a
unfolding wrap64
wrap64-Congruent a = record {
  above = (2 ^ 63 + pos_part a + (2 ^ 64 - neg_part a % 2 ^ 64)) / 2 ^ 64;
  below = 1 + neg_part a / 2 ^ 64;
  apart = ground arith;
}

Congruent-unique : (a b c : ℤ) → IsInt64 a → IsInt64 b → Congruent a c → Congruent b c → a ≡ b
Congruent-unique a b c h k x y =
    let e = x.apart in let f = y.apart in eq_of_parts a b (ground arith)

-- A wrap-around inside of another makes no difference.
wrap64-add : (a b : ℤ) → wrap64 (wrap64 a +ℤ b) ≡ wrap64 (a +ℤ b)
wrap64-add a b =
    let outer = wrap64-Congruent (wrap64 a +ℤ b) in
    let inner = wrap64-Congruent a in
    Congruent-unique (wrap64 (wrap64 a +ℤ b)) (wrap64 (a +ℤ b)) (a +ℤ b)
      (wrap64-IsInt64 (wrap64 a +ℤ b)) (wrap64-IsInt64 (a +ℤ b))
      (record {
        above = outer.above + inner.above;
        below = outer.below + inner.below;
        apart = linked outer.above outer.below inner.above inner.below outer.apart inner.apart;
      })
      (wrap64-Congruent (a +ℤ b))
  where
    linked :
        (k l m n : ℕ)
        → pos_part (wrap64 (wrap64 a +ℤ b)) + neg_part (wrap64 a +ℤ b) + 2 ^ 64 * k
          ≡ neg_part (wrap64 (wrap64 a +ℤ b)) + pos_part (wrap64 a +ℤ b) + 2 ^ 64 * l
        → pos_part (wrap64 a) + neg_part a + 2 ^ 64 * m
          ≡ neg_part (wrap64 a) + pos_part a + 2 ^ 64 * n
        → pos_part (wrap64 (wrap64 a +ℤ b)) + neg_part (a +ℤ b) + 2 ^ 64 * (k + m)
          ≡ neg_part (wrap64 (wrap64 a +ℤ b)) + pos_part (a +ℤ b) + 2 ^ 64 * (l + n)
    linked k l m n e f = omega (arith, +ℤ_parts (wrap64 a) b, +ℤ_parts a b, e, f)

pub add64-IsInt64 : (a b : ℤ) → IsInt64 (add64 a b)
unfolding add64
add64-IsInt64 a b = wrap64-IsInt64 (a +ℤ b)

pub wrap64-add64 : (a b c : ℤ) → wrap64 (add64 a b +ℤ c) ≡ wrap64 (a +ℤ (b +ℤ c))
unfolding add64
wrap64-add64 a b c = rw (sum_assoc a b c) (wrap64-add (a +ℤ b) c)
  where
    sum_assoc : (x y z : ℤ) → x +ℤ (y +ℤ z) ≡ (x +ℤ y) +ℤ z
    sum_assoc x y z = omega (arith, +ℤ_parts, eq_of_parts)

pub add64_id : (a b : ℤ) → IsInt64 (a +ℤ b) → add64 a b ≡ a +ℤ b
unfolding add64
add64_id a b h = wrap64_id (a +ℤ b) h

pub neg64_id : (a : ℤ) → IsInt64 a → neg_part a < 2 ^ 63 → neg64 a ≡ pos 0 -ℤ a
unfolding neg64 wrap64 ◌-ℤ◌
neg64_id a h k = ground arith

-- An amount and its opposite cancel, also at the least `int64`, whose opposite is itself.
pub add64-neg64 : (a : ℤ) → IsInt64 a → add64 (add64 (pos 0) (neg64 a)) a ≡ pos 0
unfolding add64 neg64 wrap64 ◌-ℤ◌ ◌+ℤ◌
add64-neg64 a h = ground arith
