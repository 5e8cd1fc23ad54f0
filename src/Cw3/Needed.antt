-- ===== src/Cw3/Needed.antt =====
-- What `votes_needed` of contracts/cw3-flex-multisig/src/state.rs computes.
use cosmwasm_plus.Prelude.{ℕ, ◌+◌, ◌-◌, ◌*◌, ◌/◌, ◌≤◌, ◌<◌, ◌≡◌, some, u64_mod, arith}
use cosmwasm_plus.Std.{Std, decimal_one}
use cosmwasm_plus.Cw3.Defs.{votes_needed, precision_factor}

-- The part of the weight, rounded down to 1/10^9 of a vote and then up to a vote.
pub needed : ℕ → ℕ → ℕ
needed w p = (precision_factor * w * p / decimal_one + precision_factor - 1) / precision_factor

-- of a weight within a `u64`, at most 100%, the products fit
scaled-le :
    (w p : ℕ) → p ≤ decimal_one → precision_factor * w * p ≤ precision_factor * w * decimal_one
scaled-le w p h = grind arith

-- No more votes are needed than there are.
pub needed-le : (w p : ℕ) → p ≤ decimal_one → needed w p ≤ w
unfolding needed
needed-le w p h = omega (arith, scaled-le w p h)

scaled_mono : (w w' p : ℕ) → w ≤ w' → precision_factor * w * p ≤ precision_factor * w' * p
scaled_mono w w' p h = grind arith

pub needed_mono : (w w' p : ℕ) → w ≤ w' → needed w p ≤ needed w' p
unfolding needed
needed_mono w w' p h = omega (arith, scaled_mono w w' p h)

module _ ⦃api : Std⦄ where
  pub votes_needed_lem :
      (w p : ℕ) → w < u64_mod → p ≤ decimal_one → votes_needed w p ≡ some (needed w p)
  unfolding votes_needed needed
  votes_needed_lem w p fits h =
      ground (arith, api.mul_decimal_lem p (precision_factor * w), scaled-le w p h)

  -- For a `u64` weight and at most 100%, `votes_needed` does not panic; what it returns is at most
  -- the weight, less than one vote above the exact part of the weight, and no lower than the exact
  -- part less 10^-9 of a vote.
  pub votes_needed_bounds :
      (w p : ℕ)
      → w < u64_mod
      → p ≤ decimal_one
      → (n : ℕ) × (votes_needed w p ≡ some n)
        × (n ≤ w)
        × (n * decimal_one < w * p + decimal_one)
        × (w * p < n * decimal_one + precision_factor)
  unfolding needed
  votes_needed_bounds w p fits h =
      (needed w p, votes_needed_lem w p fits h, needed-le w p h, omega arith, omega arith)
