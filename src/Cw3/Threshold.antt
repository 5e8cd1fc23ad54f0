-- ===== src/Cw3/Threshold.antt =====
-- `Threshold::validate` of contracts/cw3-flex-multisig/src/msg.rs.
use cosmwasm_plus.Prelude.{
  ℕ, ◌≤◌, ◌<◌, ◌≡◌, ◌↔◌, Outcome, ok, err, ◌>>◌, ◌==◌, nat_eq, ltb, if◌then◌else◌, arith,
}
use cosmwasm_plus.Std.{StdError, decimal_one}
use cosmwasm_plus.Cw3.Defs.{Threshold, absolute_count, absolute_percentage, threshold_quorum}

-- error.rs; `invalid_group` holds the refused address
pub data ContractError : Type 0 where
  std : StdError → ContractError
  zero_threshold unreachable_threshold : ContractError
  invalid_group : ℕ → ContractError
  unauthorized not_open expired not_expired wrong_expiration already_voted : ContractError
  wrong_execute_status wrong_close_status : ContractError

unfoldable pub valid_percentage : ℕ → Outcome ContractError (Unit {0})
valid_percentage percent =
    if percent == 0
    then err zero_threshold
    else (if ltb decimal_one percent then err unreachable_threshold else ok tt)

unfoldable pub validate : Threshold → ℕ → Outcome ContractError (Unit {0})
unfolding valid_percentage
validate (absolute_count weight_needed) total_weight =
    if weight_needed == 0
    then err zero_threshold
    else (if ltb total_weight weight_needed then err unreachable_threshold else ok tt)
validate (absolute_percentage percentage_needed) total_weight = valid_percentage percentage_needed
validate (threshold_quorum threshold quorum) total_weight =
    valid_percentage threshold >> valid_percentage quorum

-- a percentage above 0 and at most 100%
abbrev pub InRange : ℕ → Type 0
InRange p = (0 < p) × (p ≤ decimal_one)

-- A threshold that a group of this weight can meet, and that is not met for nothing.
abbrev pub IsReachable : Threshold → ℕ → Type 0
IsReachable (absolute_count weight) total_weight = (0 < weight) × (weight ≤ total_weight)
IsReachable (absolute_percentage p) total_weight = InRange p
IsReachable (threshold_quorum t q) total_weight = InRange t × InRange q

-- `validate` accepts exactly the thresholds within their range.
pub validate_iff : (t : Threshold) (w : ℕ) → (validate t w ≡ ok tt) ↔ IsReachable t w
unfolding validate
validate_iff (absolute_count weight) w = ground arith
validate_iff (absolute_percentage p) w = ground arith
validate_iff (threshold_quorum t q) w = ground arith
