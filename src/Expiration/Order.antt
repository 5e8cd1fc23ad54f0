-- ===== src/Expiration/Order.antt =====
-- What `PartialOrd` and `is_expired` of `Expiration` mean together.
use Prim.Native.Nat.{Ordering}
use cosmwasm_plus.Prelude.{◌≤◌, ◌≡◌, ◌⊎◌, true, none, some, arith, ◌↔◌}
use cosmwasm_plus.Std.{BlockInfo}
use cosmwasm_plus.Expiration.{Expiration, at_height, at_time, never, is_expired, partial_cmp}

-- One block stands no earlier than another, in its height and in its time.
abbrev pub IsLater : BlockInfo → BlockInfo → Type 0
IsLater b b' = (b.height ≤ b'.height) × (b.time ≤ b'.time)

-- What has expired stays expired in every later block.
pub is_expired_mono :
    (e : Expiration) (b b' : BlockInfo)
    → IsLater b b'
    → is_expired e b ≡ true
    → is_expired e b' ≡ true
unfolding is_expired
is_expired_mono (at_height h) b b' later done = ground arith
is_expired_mono (at_time t) b b' later done = ground arith
is_expired_mono never b b' later done = cc

-- `a < b` exactly when `b > a`, `a = b` exactly when they are the same point, and two finite
-- points do not compare exactly when one is a height and the other a time.
pub partial_cmp_coherent :
    (a b : Expiration)
    → ((partial_cmp a b ≡ some Ordering.lt) ↔ (partial_cmp b a ≡ some Ordering.gt))
      × ((partial_cmp a b ≡ some Ordering.eq) ↔ (a ≡ b))
      × ((partial_cmp a b ≡ none) ↔ (partial_cmp b a ≡ none))
unfolding partial_cmp
partial_cmp_coherent (at_height x) (at_height y) = ground arith
partial_cmp_coherent (at_time x) (at_time y) = ground arith
partial_cmp_coherent (at_height x) (at_time y) = ground arith
partial_cmp_coherent (at_height x) never = ground arith
partial_cmp_coherent (at_time x) (at_height y) = ground arith
partial_cmp_coherent (at_time x) never = ground arith
partial_cmp_coherent never (at_height y) = ground arith
partial_cmp_coherent never (at_time y) = ground arith
partial_cmp_coherent never never = ground arith

-- An expiration that is not greater than another expires no later: in every block in which the
-- greater one has expired, the other has.
pub partial_cmp-is_expired :
    (a b : Expiration) (block : BlockInfo)
    → (partial_cmp a b ≡ some Ordering.lt) ⊎ (partial_cmp a b ≡ some Ordering.eq)
    → is_expired b block ≡ true
    → is_expired a block ≡ true
unfolding partial_cmp is_expired
partial_cmp-is_expired (at_height x) (at_height y) block le done = ground arith
partial_cmp-is_expired (at_time x) (at_time y) block le done = ground arith
partial_cmp-is_expired (at_height x) (at_time y) block le done = ground arith
partial_cmp-is_expired (at_time x) (at_height y) block le done = ground arith
partial_cmp-is_expired a never block le done = cc
partial_cmp-is_expired never (at_height y) block le done = ground arith
partial_cmp-is_expired never (at_time y) block le done = ground arith
