-- ===== src/Cw3/Defs.antt =====
-- Votes, thresholds and proposals: packages/cw3/src/msg.rs and query.rs, and
-- contracts/cw3-flex-multisig/src/state.rs and msg.rs. A function whose arithmetic may overflow
-- returns an `Option`, where `none` is the panic.
use cosmwasm_plus.Prelude.{
  ℕ, ◌+◌, ◌-◌, ◌*◌, ◌/◌, ◌%◌, Bool, true, false, Option, none, some, List, ltb, leb, if◌then◌else◌,
  u64_add, u64_sub, u64_mod, u128_mod,
}
use cosmwasm_plus.Prelude.Checked.{◌>>=◌}
use cosmwasm_plus.Std.{Std, BlockInfo}
use cosmwasm_plus.Expiration.{Expiration, is_expired}

pub data Vote : Type 0 where
  yes_vote no_vote abstain_vote veto_vote : Vote

pub data Status : Type 0 where
  pending open_status rejected passed executed : Status

-- `a == b` on `Status`
abbrev pub is_open : Status → Bool
is_open Status.open_status = true
is_open _ = false

-- A percentage is a `Decimal`, by its atomics: `decimal_one` of them are 100%.
pub data Threshold : Type 0 where
  absolute_count : (weight : ℕ) → Threshold
  absolute_percentage : (percentage : ℕ) → Threshold
  threshold_quorum : (threshold quorum : ℕ) → Threshold

pub record Votes : Type 0 where
  pub yes_weight : ℕ
  pub no_weight : ℕ
  pub abstain_weight : ℕ
  pub veto_weight : ℕ

-- `Votes::new`
abbrev pub new_votes : ℕ → Votes
new_votes init_weight = record {
  yes_weight = init_weight;
  no_weight = 0;
  abstain_weight = 0;
  veto_weight = 0;
}

-- `Votes::total`
unfoldable pub total : Votes → Option ℕ
total v = do
  yes_no ← u64_add v.yes_weight v.no_weight
  with_abstain ← u64_add yes_no v.abstain_weight
  u64_add with_abstain v.veto_weight

unfoldable pub add_vote : Votes → Vote → ℕ → Option Votes
add_vote v Vote.yes_vote weight = do
  sum ← u64_add v.yes_weight weight
  some (record v { yes_weight = sum })
add_vote v Vote.abstain_vote weight = do
  sum ← u64_add v.abstain_weight weight
  some (record v { abstain_weight = sum })
add_vote v Vote.no_vote weight = do
  sum ← u64_add v.no_weight weight
  some (record v { no_weight = sum })
add_vote v Vote.veto_vote weight = do
  sum ← u64_add v.veto_weight weight
  some (record v { veto_weight = sum })

-- The messages of a proposal are not looked into: each is its number.
pub record Proposal : Type 0 where
  pub title : List ℕ
  pub description : List ℕ
  pub start_height : ℕ
  pub expires : Expiration
  pub msgs : List ℕ
  pub status : Status
  pub threshold : Threshold
  pub total_weight : ℕ
  pub votes : Votes

abbrev pub precision_factor : ℕ
precision_factor = 1_000_000_000

-- checked `*` and `+` of `u128`
abbrev u128_mul : ℕ → ℕ → Option ℕ
u128_mul a b = if ltb (a * b) u128_mod then some (a * b) else none

abbrev u128_add : ℕ → ℕ → Option ℕ
u128_add a b = if ltb (a + b) u128_mod then some (a + b) else none

module _ ⦃api : Std⦄ where
  -- The last step is the cast `as u64`.
  unfoldable pub votes_needed : ℕ → ℕ → Option ℕ
  votes_needed weight percentage = do
    scaled ← u128_mul precision_factor weight
    applied ← api.mul_decimal percentage scaled
    up ← u128_add applied precision_factor
    some ((up - 1) / precision_factor % u64_mod)

  -- the test of `is_passed` by kind of threshold
  unfoldable pub passes : Threshold → ℕ → Votes → Bool → Option Bool
  passes (absolute_count weight_needed) total_weight v is_over =
      some (leb weight_needed v.yes_weight)
  passes (absolute_percentage percentage_needed) total_weight v is_over = do
    opinions ← u64_sub total_weight v.abstain_weight
    needed ← votes_needed opinions percentage_needed
    some (leb needed v.yes_weight)
  passes (threshold_quorum threshold quorum) total_weight v is_over = do
    cast ← total v
    quorum_needed ← votes_needed total_weight quorum
    let decide_vote = do
      opinions ← u64_sub (if is_over then cast else total_weight) v.abstain_weight
      needed ← votes_needed opinions threshold
      some (leb needed v.yes_weight)
    if ltb cast quorum_needed then some false else decide_vote

  unfoldable pub is_passed : Proposal → BlockInfo → Option Bool
  unfolding passes
  is_passed p block = passes p.threshold p.total_weight p.votes (is_expired p.expires block)

  unfoldable pub current_status : Proposal → BlockInfo → Option Status
  current_status p block = do
    status ←
        if is_open p.status
        then (do now ← is_passed p block; some (if now then Status.passed else p.status))
        else some p.status
    some (
        if is_open status
        then (if is_expired p.expires block then Status.rejected else status)
        else status)

  unfoldable pub update_status : Proposal → BlockInfo → Option Proposal
  unfolding current_status
  update_status p block = do status ← current_status p block; some (record p { status = status })
