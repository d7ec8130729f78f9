-- ===== src/App/Coordinator/Movements/Backoff.antt =====
-- The delays between the attempts of a leg (`backoffForAttempt` of
-- internal/app/transfer_coordinator.go).
use native.Mathlib.Nat.{pow-suc, div-add-mod', mod-lt, one-le-pow}
use ledgerops.Prelude.{
  ℕ, zero, suc, ◌+◌, ◌-◌, ◌*◌, ◌/◌, ◌%◌, ◌^◌, ◌≤◌, ◌<◌, ◌≡◌, ◌⊎◌, refl, ap, ◌∙◌, inl, inr, eqb, ltb,
  leb, ◌&&◌, ◌||◌, false, Bool-cases, some, arith,
}
use ledgerops.App.Coordinator.Movements.{
  second, backoff_schedule, bit_length, nearest, round_float, four_fifths, backoff_for_attempt,
}

bit_length_zero : (fuel : ℕ) → bit_length fuel 0 ≡ 0
unfolding bit_length
bit_length_zero zero = refl
bit_length_zero (suc fuel) = refl

halved : (n : ℕ) → (n / 2 ≡ 0) ⊎ (1 ≤ n / 2)
halved n = ground arith

doubled : (b n : ℕ) → 2 ^ b ≤ n → 2 ^ suc b ≤ 2 * n
doubled b n h = omega (arith, pow-suc 2 b, h)

-- A number is not smaller than its first binary digit.
bit_length-pow : (fuel n : ℕ) → 1 ≤ n → 2 ^ bit_length fuel n ≤ 2 * n
unfolding bit_length
bit_length-pow zero n h = omega arith
bit_length-pow (suc fuel) n h = elim (Bool-cases (eqb n 0)) [
  | inl t ↦ absurd (ground arith)
  | inr f ↦ rw f (
      doubled (bit_length fuel (n / 2)) n (elim (halved n) [
        | inl k ↦ rw k (rw (bit_length_zero fuel) h)
        | inr k ↦ omega (arith, bit_length-pow fuel (n / 2) k)
      ]))
]

-- Rounding moves a quotient by at most a half.
nearest-close :
    (n k : ℕ) → 1 ≤ k → (2 * (nearest n k * k) ≤ 2 * n + k) × (2 * n ≤ 2 * (nearest n k * k) + k)
nearest-close n k h =
    elim (Bool-cases (ltb (2 * (n % k)) k || (eqb (2 * (n % k)) k && eqb (n / k % 2) 0))) [
      | inl t ↦ rw t (
          let small : 2 * (n % k) ≤ k = ground (arith, t) in
          (omega (arith, div-add-mod' n k, small), omega (arith, div-add-mod' n k, small)))
      | inr f ↦ rw f (
          let large : k ≤ 2 * (n % k) = ground (arith, f) in
          let next : suc (n / k) * k ≡ n / k * k + k = omega arith in
          rw next (
            omega (arith, div-add-mod' n k, large, mod-lt n h),
            omega (arith, div-add-mod' n k, large, mod-lt n h),
          ))
    ]

-- r is n but for a part in 2 ^ 53.
abbrev Close : ℕ → ℕ → Type 0
Close n r = (2 ^ 53 * r ≤ (2 ^ 53 + 1) * n) × ((2 ^ 53 - 1) * n ≤ 2 ^ 53 * r)

Close-scaled :
    (n k r : ℕ) → (2 * r ≤ 2 * n + k) × (2 * n ≤ 2 * r + k) → 2 ^ 53 * k ≤ 2 * n → Close n r
Close-scaled n k r c h = (omega arith, omega arith)

pow-add : (a b : ℕ) → 2 ^ a * 2 ^ b ≡ 2 ^ (a + b)
pow-add zero b = let sum : 0 + b ≡ b = omega arith in rw sum (omega arith)
pow-add (suc a) b =
    let next : suc a + b ≡ suc (a + b) = omega arith in
    rw next (rw (pow-suc 2 a) (rw (pow-suc 2 (a + b)) (omega (arith, pow-add a b))))

spread : (b : ℕ) → 53 ≤ b → 2 ^ 53 * 2 ^ (b - 53) ≡ 2 ^ b
spread b h =
    let parts : 2 ^ 53 * 2 ^ (b - 53) ≡ 2 ^ (53 + (b - 53)) = pow-add 53 (b - 53) in
    let whole : 53 + (b - 53) ≡ b = omega arith in parts ∙ ap (λ x. 2 ^ x) whole

short_of : (b : ℕ) → leb 53 b ≡ false → b - 53 ≡ 0
short_of b h = ground arith

round_float-Close : (n : ℕ) → Close n (round_float n)
unfolding round_float
round_float-Close n = elim (Bool-cases (leb 1 n)) [
  | inr f ↦
      let none_left : n ≡ 0 = ground arith in
      rw none_left (rw (bit_length_zero 192) (omega arith, omega arith))
  | inl t ↦
      let some_left : 1 ≤ n = ground arith in
      elim (Bool-cases (leb 53 (bit_length 192 n))) [
        | inl l ↦
            let long : 53 ≤ bit_length 192 n = ground (arith, l) in
            Close-scaled n (2 ^ (bit_length 192 n - 53)) _
              (nearest-close n (2 ^ (bit_length 192 n - 53))
                (one-le-pow (bit_length 192 n - 53) 2 (omega arith)))
              (omega (arith, spread (bit_length 192 n) long, bit_length-pow 192 n some_left))
        | inr s ↦
            let short : bit_length 192 n - 53 ≡ 0 = short_of (bit_length 192 n) s in
            let (a, b) = nearest-close n 1 (omega arith) in
            rw short (omega (arith, a), omega (arith, b))
      ]
]

-- The multiplier in 2^-107 parts, between 0.8 and 1.2 but for a few parts in 2 ^ 53.
multiplier-range :
    (j p s : ℕ)
    → j < 2 ^ 53
    → Close (j * four_fifths) p
    → Close (four_fifths * 2 ^ 54 + p) s
    → (8 * 2 ^ 107 ≤ 10 * (s + 2 ^ 56)) × (10 * s ≤ 12 * 2 ^ 107 + 2 ^ 60)
multiplier-range j p s h a b = (omega (arith, a, b, h), omega (arith, a, b, h))

-- With the schedule as 2^(n-1) seconds: at most a nanosecond less than four fifths of that, and at
-- most six fifths of it.
abbrev pub InBand : ℕ → ℕ → Type 0
InBand failed_attempts delay =
    (4 * (second * 2 ^ failed_attempts) ≤ 10 * (delay + 1))
    × (10 * delay ≤ 6 * (second * 2 ^ failed_attempts))

module _ (s d : ℕ) (m : (8 * 2 ^ 107 ≤ 10 * (s + 2 ^ 56)) × (10 * s ≤ 12 * 2 ^ 107 + 2 ^ 60)) where
  first-InBand : Close (backoff_schedule 1 * s) d → InBand 1 (d / 2 ^ 107)
  first-InBand c = (omega (arith, m, c), omega (arith, m, c))

  second-InBand : Close (backoff_schedule 2 * s) d → InBand 2 (d / 2 ^ 107)
  second-InBand c = (omega (arith, m, c), omega (arith, m, c))

  third-InBand : Close (backoff_schedule 3 * s) d → InBand 3 (d / 2 ^ 107)
  third-InBand c = (omega (arith, m, c), omega (arith, m, c))

  fourth-InBand : Close (backoff_schedule 4 * s) d → InBand 4 (d / 2 ^ 107)
  fourth-InBand c = (omega (arith, m, c), omega (arith, m, c))

-- There is a delay, and it is in the band.
abbrev pub HasDelay : ℕ → ℕ → Type 0
HasDelay failed_attempts jitter =
    (delay : ℕ) × (backoff_for_attempt failed_attempts jitter ≡ some delay)
    × InBand failed_attempts delay

four_cases : (n : ℕ) → 1 ≤ n → n < 5 → (n ≡ 1) ⊎ (n ≡ 2) ⊎ (n ≡ 3) ⊎ (n ≡ 4)
four_cases n h k = ground arith

-- After the first four failures, with a jitter below one, there is a delay, which is at most a
-- nanosecond less than four fifths of the base delay and at most six fifths of it, where the base
-- delay is 2^(n-1) seconds after the n-th failure.
pub backoff_for_attempt_bounds :
    (failed_attempts jitter : ℕ)
    → 1 ≤ failed_attempts
    → failed_attempts < 5
    → jitter < 2 ^ 53
    → HasDelay failed_attempts jitter
unfolding backoff_for_attempt
backoff_for_attempt_bounds n jitter h k j =
    let p = round_float (jitter * four_fifths) in
    let s = round_float (four_fifths * 2 ^ 54 + p) in
    let m =
      multiplier-range jitter p s j (round_float-Close (jitter * four_fifths))
        (round_float-Close (four_fifths * 2 ^ 54 + p)) in
    elim (four_cases n h k) [
      | inl e ↦ rw e (_, refl, first-InBand s _ m (round_float-Close (backoff_schedule 1 * s)))
      | inr (inl e) ↦
          rw e (_, refl, second-InBand s _ m (round_float-Close (backoff_schedule 2 * s)))
      | inr (inr (inl e)) ↦
          rw e (_, refl, third-InBand s _ m (round_float-Close (backoff_schedule 3 * s)))
      | inr (inr (inr e)) ↦
          rw e (_, refl, fourth-InBand s _ m (round_float-Close (backoff_schedule 4 * s)))
    ]
