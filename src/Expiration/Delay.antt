-- ===== src/Expiration/Delay.antt =====
-- Delays added to blocks, to expirations and to each other.
use Prim.Native.Nat.{Ordering}
use cosmwasm_plus.Prelude.{ℕ, ◌+◌, ◌*◌, ◌≡◌, ◌↔◌, true, some, ok, arith}
use cosmwasm_plus.Std.{Std, StdError, BlockInfo}
use cosmwasm_plus.Expiration.{
  Expiration, at_height, at_time, never, Duration, height, time, is_expired, partial_cmp, plus_one,
  add_duration, after, add,
}

abbrev pub amount : Duration → ℕ
amount (height h) = h
amount (time t) = t

module _ ⦃std : Std⦄ where
  -- An expiration that `after` gives has not expired in its own block, unless the delay is zero.
  pub is_expired-after :
      (d : Duration) (block : BlockInfo) {e : Expiration}
      → after {E = StdError} d block ≡ ok e
      → (is_expired e block ≡ true) ↔ (amount d ≡ 0)
  unfolding is_expired after
  is_expired-after (height h) block p = ground arith
  is_expired-after (time t) block p = ground (arith, std.plus_seconds_lem block.time t)

  -- `plus_one` gives an expiration strictly later than the delay itself gives.
  pub after-plus_one :
      (d d' : Duration) (block : BlockInfo) {e e' : Expiration}
      → plus_one {E = StdError} d ≡ ok d'
      → after {E = StdError} d block ≡ ok e
      → after {E = StdError} d' block ≡ ok e'
      → partial_cmp e e' ≡ some Ordering.lt
  unfolding partial_cmp plus_one after
  after-plus_one (height h) (height h') block p q r = ground arith
  after-plus_one (height h) (time t') block p q r = ground arith
  after-plus_one (time t) (height h') block p q r = ground arith
  after-plus_one (time t) (time t') block p q r =
      ground (arith, std.plus_seconds_lem block.time t, std.plus_seconds_lem block.time t')

  -- Two delays in turn are their sum: if both delays can be added to an expiration in turn and
  -- to each other, adding the sum gives the same expiration.
  pub add-add_duration :
      (e e1 : Expiration) (d d1 d2 : Duration) {e2 : Expiration}
      → add_duration d1 d2 ≡ ok d
      → add e d1 ≡ ok e1
      → add e1 d2 ≡ ok e2
      → add e d ≡ ok e2
  unfolding add_duration add
  add-add_duration (at_height h) e1 d (height d1) (height d2) p q r = ground arith
  add-add_duration (at_time t) e1 d (time d1) (time d2) p q r = ground (
    arith,
    std.plus_seconds_lem t d1,
    std.plus_seconds_lem (t + d1 * 1_000_000_000) d2,
    std.plus_seconds_lem t (d1 + d2),
  )
  add-add_duration never e1 d (height d1) (height d2) p q r = ground arith
  add-add_duration never e1 d (time d1) (time d2) p q r = ground arith
  add-add_duration e e1 d (height d1) (time d2) p q r = cc
  add-add_duration e e1 d (time d1) (height d2) p q r = cc
  add-add_duration (at_height h) e1 d (time d1) (time d2) p q r = cc
  add-add_duration (at_time t) e1 d (height d1) (height d2) p q r = cc
