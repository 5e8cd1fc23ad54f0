-- ===== src/Expiration.antt =====
-- Points in time and delays: packages/cw0/src/expiration.rs.
pub mod Order
pub mod Delay
pub mod Live
mod Tests
use Prim.Native.Nat.{compare, Ordering}
use cosmwasm_plus.Prelude.{
  ℕ, Bool, false, Option, none, some, Outcome, ok, err, ◌>>=◌, or_panic, leb, u64_add, u64_mul,
}
use cosmwasm_plus.Std.{Std, StdError, generic_err, BlockInfo}

pub data Expiration : Type 0 where
  at_height : ℕ → Expiration
  at_time : ℕ → Expiration
  never : Expiration

-- `Default`
abbrev pub default_expiration : Expiration
default_expiration = never

unfoldable pub is_expired : Expiration → BlockInfo → Bool
is_expired (at_height height) block = leb height block.height
is_expired (at_time time) block = leb time block.time
is_expired never block = false

-- `PartialOrd`; `none` is no comparison
unfoldable pub partial_cmp : Expiration → Expiration → Option Ordering
partial_cmp (at_height h1) (at_height h2) = some (compare h1 h2)
partial_cmp (at_time t1) (at_time t2) = some (compare t1 t2)
partial_cmp never never = some Ordering.eq
partial_cmp never _ = some Ordering.gt
partial_cmp _ never = some Ordering.lt
partial_cmp _ _ = none

pub data Duration : Type 0 where
  height : ℕ → Duration
  time : ℕ → Duration

abbrev pub hour : Duration
hour = time 3600

abbrev pub day : Duration
day = time 86_400

abbrev pub week : Duration
week = time 604_800

unfoldable pub plus_one : {E : Type 0} → Duration → Outcome E Duration
plus_one (height h) = do h' ← or_panic (u64_add h 1); ok (height h')
plus_one (time t) = do t' ← or_panic (u64_add t 1); ok (time t')

-- `Duration + Duration`
unfoldable pub add_duration : Duration → Duration → Outcome StdError Duration
add_duration (time t) (time t2) = do sum ← or_panic (u64_add t t2); ok (time sum)
add_duration (height h) (height h2) = do sum ← or_panic (u64_add h h2); ok (height sum)
add_duration _ _ = err (generic_err "Cannot add height and time")

-- `Duration * u64`
unfoldable pub mul_duration : {E : Type 0} → Duration → ℕ → Outcome E Duration
mul_duration (time t) rhs = do product ← or_panic (u64_mul t rhs); ok (time product)
mul_duration (height h) rhs = do product ← or_panic (u64_mul h rhs); ok (height product)

module _ ⦃std : Std⦄ where
  unfoldable pub after : {E : Type 0} → Duration → BlockInfo → Outcome E Expiration
  after (height h) block = do end ← or_panic (u64_add block.height h); ok (at_height end)
  after (time t) block = do end ← or_panic (std.plus_seconds block.time t); ok (at_time end)

  -- `Expiration + Duration`
  unfoldable pub add : Expiration → Duration → Outcome StdError Expiration
  add (at_time t) (time delta) = do end ← or_panic (std.plus_seconds t delta); ok (at_time end)
  add (at_height h) (height delta) = do end ← or_panic (u64_add h delta); ok (at_height end)
  add never _ = ok never
  add _ _ = err (generic_err "Cannot add height and time")
