-- ===== src/Expiration/Live.antt =====
-- When an expiration lies ahead, told without `is_expired` of packages/cw0/src/expiration.rs.
use cosmwasm_plus.Prelude.{◌≡◌, refl, Bool, true, not, ltb, arith}
use cosmwasm_plus.Std.{BlockInfo}
use cosmwasm_plus.Expiration.{Expiration, at_height, at_time, never, is_expired}

-- The block is below the height, or its time is before the time; what never expires lies ahead.
abbrev pub is_live : BlockInfo → Expiration → Bool
is_live block (at_height height) = ltb block.height height
is_live block (at_time time) = ltb block.time time
is_live block never = true

pub is_expired_lem :
    (e : Expiration) (block : BlockInfo) → is_expired e block ≡ not (is_live block e)
unfolding is_expired
is_expired_lem (at_height height) block = ground arith
is_expired_lem (at_time time) block = ground arith
is_expired_lem never block = refl
