-- ===== src/Cw3/Tests.antt =====
-- Votes that are counted and needed, at concrete numbers.
use cosmwasm_plus.Prelude.{ℕ, ◌+◌, ◌*◌, ◌≤◌, ◌<◌, ◌≡◌, ◌↔◌, refl, true, some, [], arith}
use cosmwasm_plus.Std.{BlockInfo, decimal_one}
use cosmwasm_plus.Mock.{mock_std, block}
use cosmwasm_plus.Expiration.{at_height, is_expired}
use cosmwasm_plus.Cw3.Defs.{
  Status, threshold_quorum, Votes, Proposal, votes_needed, is_passed, precision_factor,
}
use cosmwasm_plus.Cw3.Needed.{votes_needed_bounds}
use cosmwasm_plus.Cw3.Passing.{tally, IsCounted}
use cosmwasm_plus.Cw3.Early.{Extends, is_passed_early_iff}

abbrev percent : ℕ → ℕ
percent n = n * 10_000_000_000_000_000

-- `votes_needed_rounds_properly` of state.rs
rounds :
    (votes_needed 3 333_000_000_000_000_000 ≡ some 1)
    × (votes_needed 3 334_000_000_000_000_000 ≡ some 2)
    × (votes_needed 34 (percent 50) ≡ some 17)
    × (votes_needed 48 (percent 25) ≡ some 12)
unfolding votes_needed
rounds = (refl, refl, refl, refl)

votes_needed_bounds_example :
    (n : ℕ) × (votes_needed 15 (percent 50) ≡ some n)
    × (n ≤ 15)
    × (n * decimal_one < 15 * percent 50 + decimal_one)
    × (15 * percent 50 < n * decimal_one + precision_factor)
votes_needed_bounds_example = votes_needed_bounds 15 (percent 50) (omega arith) (omega arith)

abbrev votes : Votes
votes = record { yes_weight = 7; no_weight = 1; abstain_weight = 2; veto_weight = 0 }

abbrev quorum : Proposal
quorum = record {
  title = [];
  description = [];
  start_height = 90;
  expires = at_height 110;
  msgs = [];
  status = Status.open_status;
  threshold = threshold_quorum (percent 50) (percent 40);
  total_weight = 15;
  votes = votes;
}

quorum-IsCounted : IsCounted quorum.threshold 15 votes
quorum-IsCounted = omega arith

abbrev end : BlockInfo
end = record { height = 110; time = 9_000_000_000 }

is_passed_early_iff_example : (is_passed quorum block ≡ some true) ↔ (
    (v : Votes)
    → Extends votes v
    → tally v ≤ 15
    → is_passed (record quorum { votes = v }) end ≡ some true)
unfolding is_expired
is_passed_early_iff_example = is_passed_early_iff quorum block end quorum-IsCounted refl refl
