-- ===== src/Prelude/Words.antt =====
-- `u64` arithmetic as the release profile compiles it (`overflow-checks = true` in Cargo.toml):
-- a result that does not fit is a panic, `none` here.
use Prim.Native.Nat.{ℕ, ◌+◌, ◌-◌, ◌*◌, ◌^◌}
use mathlib.Core.Option.{Option, none, some}
use cosmwasm_plus.Prelude.Tests.{ltb, leb, if◌then◌else◌}

-- the first number that is no `u64`, and the first that is no `u128`
abbrev pub u64_mod : ℕ
u64_mod = 2 ^ 64

abbrev pub u128_mod : ℕ
u128_mod = 2 ^ 128

abbrev pub u64_add : ℕ → ℕ → Option ℕ
u64_add a b = if ltb (a + b) u64_mod then some (a + b) else none

abbrev pub u64_sub : ℕ → ℕ → Option ℕ
u64_sub a b = if leb b a then some (a - b) else none

abbrev pub u64_mul : ℕ → ℕ → Option ℕ
u64_mul a b = if ltb (a * b) u64_mod then some (a * b) else none
