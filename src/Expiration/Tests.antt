-- ===== src/Expiration/Tests.antt =====
-- Expirations and delays at concrete points.
use cosmwasm_plus.Prelude.{ℕ, ◌≡◌, refl, true, ok}
use cosmwasm_plus.Std.{StdError, BlockInfo}
use cosmwasm_plus.Mock.{mock_std, block}
use cosmwasm_plus.Expiration.{
  at_height, at_time, time, is_expired, partial_cmp, plus_one, add_duration, after, add,
}

program : Unit {0}
unfolding is_expired partial_cmp plus_one add_duration after add
program = tt

abbrev later : BlockInfo
later = record { height = 101; time = 6_000_000_000 }

expired_now : is_expired (at_height 100) block ≡ true
unfolding program
expired_now = refl

in_two_seconds : after {E = StdError} (time 2) block ≡ ok (at_time 7_000_000_000)
unfolding program
in_two_seconds = refl

abbrev seconds : ℕ
seconds = 2
