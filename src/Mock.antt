-- ===== src/Mock.antt =====
-- A concrete cosmwasm_std for the examples: every address but 0 is valid.
use cosmwasm_plus.Prelude.{
  ℕ, ◌+◌, ◌-◌, ◌*◌, ◌/◌, ◌≡◌, refl, Option, none, some, leb, ltb, if◌then◌else◌, u64_mod, u128_mod,
  ◌==◌, nat_eq, arith,
}
use cosmwasm_plus.Std.{Std, BlockInfo, decimal_one}

abbrev pub valid_addr : ℕ → Option ℕ
valid_addr a = if a == 0 then none else some a

pub valid_addr_lem : {a b : ℕ} → valid_addr a ≡ some b → b ≡ a
valid_addr_lem p = ground arith

instance abbrev pub mock_std : Std
mock_std = record {
  addr_validate = valid_addr;
  addr_validate_lem = valid_addr_lem;
  uint_add = λ a b. if ltb (a + b) u128_mod then some (a + b) else none;
  uint_add_lem = λ a b. refl;
  checked_sub = λ a b. if leb b a then some (a - b) else none;
  checked_sub_lem = λ a b. refl;
  mul_decimal =
      λ p a. if ltb (a * p / decimal_one) u128_mod then some (a * p / decimal_one) else none;
  mul_decimal_lem = λ p a. refl;
  from_seconds = λ s. if ltb (s * 1_000_000_000) u64_mod then some (s * 1_000_000_000) else none;
  from_seconds_lem = λ s. refl;
  plus_seconds =
      λ t s. if ltb (t + s * 1_000_000_000) u64_mod then some (t + s * 1_000_000_000) else none;
  plus_seconds_lem = λ t s. refl;
}

abbrev pub block : BlockInfo
block = record { height = 100; time = 5_000_000_000 }
