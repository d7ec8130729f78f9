-- ===== src/App/Coordinator/Movements.antt =====
-- The pure decisions of internal/app/transfer_coordinator.go: names, keys, the movement of each
-- leg and of its reversal, and the delays between attempts.
pub mod Backoff
use Prim.Native.String.{◌++◌}
use ledgerops.Prelude.{
  ℕ, zero, suc, ◌+◌, ◌-◌, ◌*◌, ◌/◌, ◌%◌, ◌^◌, String, Bool, ◌||◌, ◌&&◌, Option, none, some, List,
  ltb, leb, eqb, if◌then◌else◌, Result, ok, err,
}
use ledgerops.Prelude.Decimal.{decimal, signed_decimal}
use ledgerops.Domain.Violation.{Money}
use ledgerops.Ports.Vocabulary.{Error, infrastructure, TransferState}

abbrev pub platform_tenant_id : String
platform_tenant_id = "tnt_platform"

abbrev pub settlement_account_name : String
settlement_account_name = "settlement"

-- Durations are nanoseconds.
abbrev pub second : ℕ
second = 1000000000

abbrev pub claim_lease_duration : ℕ
claim_lease_duration = 15 * second

abbrev pub retry_batch_limit : ℕ
retry_batch_limit = 100

abbrev pub retry_budget : ℕ
retry_budget = 5

abbrev pub inline_attempt_grace_window : ℕ
inline_attempt_grace_window = 750000000

abbrev pub reason_retry_budget_exhausted : String
reason_retry_budget_exhausted = "retry_budget_exhausted"

abbrev pub reason_leg1_reversal_retry_budget_exhausted : String
reason_leg1_reversal_retry_budget_exhausted = "leg1_reversal_retry_budget_exhausted"

abbrev pub reason_leg2_reversal_retry_budget_exhausted : String
reason_leg2_reversal_retry_budget_exhausted = "leg2_reversal_retry_budget_exhausted"

-- `transferLegKey` and `transferReversalLegKey`
unfoldable pub transfer_leg_key : String → ℕ → String
unfolding decimal
transfer_leg_key transfer_id leg = transfer_id ++ (":" ++ decimal leg)

unfoldable pub transfer_reversal_leg_key : String → ℕ → String
unfolding decimal
transfer_reversal_leg_key transfer_id leg = transfer_id ++ (":reversal:" ++ decimal leg)

-- `platformMirrorAccountID`
unfoldable pub platform_mirror_account_id : String → String
platform_mirror_account_id business_tenant_id = "platform-" ++ business_tenant_id

-- `legReverseKey`
unfoldable pub leg_reverse_key : String → ℕ → String
unfolding decimal
leg_reverse_key idempotency_key leg = idempotency_key ++ (":leg" ++ (decimal leg ++ ":reverse"))

-- What `legMovement` and the reversals answer with.
pub record Movement : Type 0 where
  pub from : String
  pub to : String
  pub tenant_id : String
  pub key : String

-- `legMovement`
unfoldable pub leg_movement : TransferState → ℕ → Result Error Movement
unfolding platform_mirror_account_id
leg_movement s leg =
    if eqb leg 2
    then ok (record {
      from = platform_mirror_account_id s.tenant_id;
      to = platform_mirror_account_id s.counterparty_tenant_id;
      tenant_id = platform_tenant_id;
      key = s.idempotency_key ++ ":leg2";
    })
    else if eqb leg 3
    then ok (record {
      from = settlement_account_name;
      to = s.target_account_id;
      tenant_id = s.counterparty_tenant_id;
      key = s.idempotency_key ++ ":leg3";
    })
    else err infrastructure

-- `reverseLeg1Movement` and `reverseLeg2Movement`
unfoldable pub reverse_leg1_movement : TransferState → String → Movement
unfolding leg_reverse_key
reverse_leg1_movement s sender_wallet_account_id = record {
  from = settlement_account_name;
  to = sender_wallet_account_id;
  tenant_id = s.tenant_id;
  key = leg_reverse_key s.idempotency_key 1;
}

unfoldable pub reverse_leg2_movement : TransferState → Movement
unfolding leg_reverse_key platform_mirror_account_id
reverse_leg2_movement s = record {
  from = platform_mirror_account_id s.counterparty_tenant_id;
  to = platform_mirror_account_id s.tenant_id;
  tenant_id = platform_tenant_id;
  key = leg_reverse_key s.idempotency_key 2;
}

-- `legFingerprint`
unfoldable pub leg_fingerprint : String → String → Money → String
unfolding signed_decimal
leg_fingerprint from to amount =
    from
    ++ ("|" ++ (to ++ ("|" ++ (signed_decimal amount.minor_units ++ ("|" ++ amount.currency)))))

-- `backoffSchedule`
abbrev pub backoff_schedule : ℕ → ℕ
backoff_schedule failed_attempts =
    if eqb failed_attempts 1
    then 1 * second
    else if eqb failed_attempts 2
    then 2 * second
    else if eqb failed_attempts 3
    then 4 * second
    else if eqb failed_attempts 4
    then 8 * second
    else 0

-- How many binary digits a number has, where `fuel` is not less.
unfoldable pub bit_length : ℕ → ℕ → ℕ
bit_length zero n = 0
bit_length (suc fuel) n = let rest = bit_length fuel (n / 2) in if eqb n 0 then 0 else suc rest

-- n / k, to the nearest, and to the even one of two that are as near.
abbrev pub nearest : ℕ → ℕ → ℕ
nearest n k =
    if ltb (2 * (n % k)) k || (eqb (2 * (n % k)) k && eqb (n / k % 2) 0) then n / k else suc (n / k)

-- The rounding of `float64`: n becomes the nearest number of 53 binary digits. Here all numbers have
-- fewer than 192.
unfoldable pub round_float : ℕ → ℕ
unfolding bit_length
round_float n = let k = 2 ^ (bit_length 192 n - 53) in nearest n k * k

-- 0.8 in 2^-53 parts, and 0.4 in 2^-54 parts, as `float64` has them.
abbrev pub four_fifths : ℕ
four_fifths = 7205759403792794

-- `backoffForAttempt`, with the jitter as the number of 2^-53 parts that `rand.Float64` draws. The
-- product, the sum and the product with the base are each rounded; they are kept in 2^-107 parts.
unfoldable pub backoff_for_attempt : ℕ → ℕ → Option ℕ
unfolding round_float
backoff_for_attempt failed_attempts jitter =
    if ltb failed_attempts 1 || leb retry_budget failed_attempts
    then none
    else some (
        round_float (
          backoff_schedule failed_attempts
          * round_float (four_fifths * 2 ^ 54 + round_float (jitter * four_fifths)))
        / 2 ^ 107)
