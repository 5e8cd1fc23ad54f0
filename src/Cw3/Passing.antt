-- ===== src/Cw3/Passing.antt =====
-- The test `is_passed` without its arithmetic checks, for proposals whose votes are counted right.
use cosmwasm_plus.Prelude.{
  ℕ, ◌+◌, ◌-◌, ◌≤◌, ◌<◌, ◌≡◌, Bool, true, false, some, ltb, leb, if◌then◌else◌, u64_mod, arith,
}
use cosmwasm_plus.Std.{Std, BlockInfo}
use cosmwasm_plus.Expiration.{is_expired}
use cosmwasm_plus.Cw3.Defs.{
  Threshold, absolute_count, absolute_percentage, threshold_quorum, Votes, Proposal, total, passes,
  is_passed,
}
use cosmwasm_plus.Cw3.Threshold.{IsReachable}
use cosmwasm_plus.Cw3.Needed.{needed, votes_needed_lem}

-- the weight that has voted
abbrev pub tally : Votes → ℕ
tally v = v.yes_weight + v.no_weight + v.abstain_weight + v.veto_weight

-- whether the votes `v` of a group of weight `w` meet the threshold, when voting is over or not
abbrev pub meets : Threshold → ℕ → Votes → Bool → Bool
meets (absolute_count weight) w v is_over = leb weight v.yes_weight
meets (absolute_percentage p) w v is_over = leb (needed (w - v.abstain_weight) p) v.yes_weight
meets (threshold_quorum t q) w v is_over =
    if ltb (tally v) (needed w q)
    then false
    else leb (needed ((if is_over then tally v else w) - v.abstain_weight) t) v.yes_weight

-- A threshold in range, a weight that is a `u64`, and no more votes than weight.
pub record IsCounted (t : Threshold) (w : ℕ) (v : Votes) : Type 0 where
  pub reachable : IsReachable t w
  pub fits : w < u64_mod
  pub within : tally v ≤ w

module _ ⦃api : Std⦄ where
  pub total_lem : (v : Votes) → tally v < u64_mod → total v ≡ some (tally v)
  unfolding total
  total_lem v h = ground arith

  -- `is_passed` does not panic on a proposal whose votes are counted right, and compares the yes
  -- votes with the votes that are needed.
  pub passes-meets :
      (t : Threshold) (w : ℕ) (v : Votes) (is_over : Bool)
      → IsCounted t w v
      → passes t w v is_over ≡ some (meets t w v is_over)
  unfolding passes
  passes-meets (absolute_count weight) w v is_over c = ground arith
  passes-meets (absolute_percentage p) w v is_over c =
      ground (arith, votes_needed_lem (w - v.abstain_weight) p)
  passes-meets (threshold_quorum t q) w v true c =
      ground
        (arith, total_lem v, votes_needed_lem w q, votes_needed_lem (tally v - v.abstain_weight) t)
  passes-meets (threshold_quorum t q) w v false c =
      ground (arith, total_lem v, votes_needed_lem w q, votes_needed_lem (w - v.abstain_weight) t)

  pub is_passed-meets :
      (p : Proposal) (block : BlockInfo)
      → IsCounted p.threshold p.total_weight p.votes
      → is_passed p block
        ≡ some (meets p.threshold p.total_weight p.votes (is_expired p.expires block))
  unfolding is_passed
  is_passed-meets p block c = passes-meets p.threshold p.total_weight p.votes _ c
