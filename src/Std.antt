-- ===== src/Std.antt =====
-- What the contracts use of the package cosmwasm_std, which is not part of the repository.
use Prim.Native.String.{String}
use cosmwasm_plus.Prelude.{
  ℕ, ◌+◌, ◌-◌, ◌*◌, ◌/◌, ◌^◌, ◌≡◌, Option, none, some, if◌then◌else◌, leb, ltb, u64_mod, u128_mod,
}

-- The errors that the contracts build or pass on.
pub data StdError : Type 0 where
  generic_err : String → StdError
  not_found : StdError
  overflow : StdError
  invalid_utf8 : StdError
  -- what `Api::addr_validate` refuses with
  invalid_addr : StdError

-- the denominator of a `Decimal`, which is the number of its atomics here
abbrev pub decimal_one : ℕ
decimal_one = 10 ^ 18

-- The functions of cosmwasm_std, with their documented behaviour. A `Uint128`, a `u64` and a
-- `Timestamp` (in nanoseconds) are numbers; `none` is a failure (an error, or for `uint_add`,
-- `mul_decimal`, `from_seconds` and `plus_seconds` a panic).
pub record Std : Type 0 where
  -- `Api::addr_validate`
  pub addr_validate : ℕ → Option ℕ
  -- the `Addr` of a text that is accepted holds that text
  pub addr_validate_lem : {a b : ℕ} → addr_validate a ≡ some b → b ≡ a
  -- `Uint128 + Uint128`
  pub uint_add : ℕ → ℕ → Option ℕ
  pub uint_add_lem :
      (a b : ℕ) → uint_add a b ≡ (if ltb (a + b) u128_mod then some (a + b) else none)
  -- `Uint128::checked_sub`
  pub checked_sub : ℕ → ℕ → Option ℕ
  pub checked_sub_lem : (a b : ℕ) → checked_sub a b ≡ (if leb b a then some (a - b) else none)
  -- `Decimal * Uint128`
  pub mul_decimal : ℕ → ℕ → Option ℕ
  pub mul_decimal_lem :
      (p a : ℕ)
      → mul_decimal p a
        ≡ (if ltb (a * p / decimal_one) u128_mod then some (a * p / decimal_one) else none)
  -- `Timestamp::from_seconds`
  pub from_seconds : ℕ → Option ℕ
  pub from_seconds_lem :
      (s : ℕ)
      → from_seconds s
        ≡ (if ltb (s * 1_000_000_000) u64_mod then some (s * 1_000_000_000) else none)
  -- `Timestamp::plus_seconds`
  pub plus_seconds : ℕ → ℕ → Option ℕ
  pub plus_seconds_lem :
      (t s : ℕ)
      → plus_seconds t s
        ≡ (if ltb (t + s * 1_000_000_000) u64_mod then some (t + s * 1_000_000_000) else none)

-- `BlockInfo`, with `time` in nanoseconds.
pub record BlockInfo : Type 0 where
  pub height : ℕ
  pub time : ℕ
