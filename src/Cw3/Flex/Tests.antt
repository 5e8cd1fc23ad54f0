-- ===== src/Cw3/Flex/Tests.antt =====
-- A multisig of three members at work, and the theorems at its states.
use cosmwasm_plus.Prelude.{
  ℕ, ◌≡◌, refl, none, some, [], ◌∷◌, Option, ok, err, arith, ◌==◌, nat_eq, if◌then◌else◌,
}
use cosmwasm_plus.Mock.{mock_std, block}
use cosmwasm_plus.Storage.{may_load, save}
use cosmwasm_plus.Expiration.{at_height, height, is_expired, after, partial_cmp}
use cosmwasm_plus.Cw3.Defs.{
  Vote, Status, threshold_quorum, total, add_vote, Proposal, votes_needed, is_passed, update_status,
}
use cosmwasm_plus.Cw3.Threshold.{expired, wrong_execute_status}
use cosmwasm_plus.Cw3.Flex.{
  Config, State, Group, Env, ExecuteMsg, next_id, clamp_expires, power_or_refuse, execute_propose,
  execute_vote, execute_execute, execute_close, execute, query_proposal,
}
use cosmwasm_plus.Cw3.Flex.Lifecycle.{IsNumbered, Follows, execute-Follows}
use cosmwasm_plus.Cw3.Flex.Tally.{IsTallied, execute-IsTallied}
use cosmwasm_plus.Cw3.Flex.Dispatch.{Dispatched, execute-Dispatched, late_pass_is_lost}

program : Unit {0}
unfolding execute execute_propose execute_vote execute_execute execute_close may_load save
    is_expired after partial_cmp add_vote update_status is_passed total votes_needed next_id
    clamp_expires power_or_refuse
program = tt

-- Member 1 has weight 1, member 2 weight 2 and so on up to 9.
abbrev weight : ℕ → Option ℕ
weight a = if a == 0 then none else some a

abbrev group : Group
group = record {
  total_weight = ok 10;
  is_member = λ a. ok (weight a);
  member_at_height = λ a h. ok (weight a);
}

abbrev env : ℕ → Env
env a = record { sender = a; block = block; querier = λ _. group }

abbrev cfg : Config
cfg = record {
  threshold = threshold_quorum 500_000_000_000_000_000 200_000_000_000_000_000;
  max_voting_period = height 10;
  group_addr = 77;
}

abbrev start : State
start = record {
  contract = none;
  config = some cfg;
  proposal_count = none;
  ballots = [];
  proposals = [];
}

abbrev plan : Proposal
plan = record {
  title = [];
  description = [];
  start_height = 100;
  expires = at_height 110;
  msgs = 5 ∷ 6 ∷ [];
  status = Status.open_status;
  threshold = cfg.threshold;
  total_weight = 10;
  votes = record { yes_weight = 2; no_weight = 0; abstain_weight = 0; veto_weight = 0 };
}

abbrev proposed : State
proposed = record start {
  proposal_count = some 1;
  proposals = (1, plan) ∷ [];
  ballots = ((1, 2), record { weight = 2; vote = Vote.yes_vote }) ∷ [];
}

proposes : execute (env 2) (ExecuteMsg.propose [] [] (5 ∷ 6 ∷ []) none) start ≡ ok (proposed, [])
unfolding program
proposes = refl

abbrev passed_plan : Proposal
passed_plan = record plan {
  votes = record { yes_weight = 5; no_weight = 0; abstain_weight = 0; veto_weight = 0 };
  status = Status.passed;
}

abbrev passed : State
passed = record proposed {
  proposals = (1, passed_plan) ∷ [];
  ballots =
      ((1, 2), record { weight = 2; vote = Vote.yes_vote })
      ∷ ((1, 3), record { weight = 3; vote = Vote.yes_vote })
      ∷ [];
}

votes : execute (env 3) (ExecuteMsg.vote 1 Vote.yes_vote) proposed ≡ ok (passed, [])
unfolding program
votes = refl

abbrev done : State
done = record passed { proposals = (1, record passed_plan { status = Status.executed }) ∷ [] }

executes : execute (env 9) (ExecuteMsg.execute_proposal 1) passed ≡ ok (done, 5 ∷ 6 ∷ [])
unfolding program
executes = refl

start-IsNumbered : IsNumbered start
unfolding may_load
start-IsNumbered = record {
  proposals = λ id p h. absurd (cc h);
  ballots = λ id v b h. absurd (cc h);
}

proposed-IsNumbered : IsNumbered proposed
unfolding may_load
proposed-IsNumbered = record {
  proposals = λ id p h. ground arith;
  ballots = λ id v b h. ground arith;
}

start-IsTallied : IsTallied [] []
unfolding may_load
start-IsTallied id p c h = absurd (cc h)

execute-IsTallied_example : IsTallied proposed.proposals proposed.ballots
execute-IsTallied_example =
    execute-IsTallied (env 2) (ExecuteMsg.propose [] [] (5 ∷ 6 ∷ []) none) start proposed
      start-IsNumbered start-IsTallied proposes

plan_found : may_load 1 proposed.proposals ≡ some plan
unfolding may_load
plan_found = refl

execute-Follows_example : (p : Proposal) × (may_load 1 passed.proposals ≡ some p) × Follows plan p
execute-Follows_example =
    execute-Follows (env 3) (ExecuteMsg.vote 1 Vote.yes_vote) proposed passed 1 plan
      proposed-IsNumbered votes plan_found

execute-Dispatched_example : Dispatched (ExecuteMsg.execute_proposal 1) (5 ∷ 6 ∷ []) passed done
execute-Dispatched_example =
    execute-Dispatched (env 9) (ExecuteMsg.execute_proposal 1) passed done (5 ∷ 6 ∷ []) executes
      (ground arith)

-- Two of ten have voted, both for it: the quorum of 20% is met, and at the end the vote passes.
abbrev late : Env
late = record { sender = 4; block = record { height = 110; time = 0 }; querier = λ _. group }

late_pass_is_lost_example :
    (query_proposal late 1 proposed ≡ ok (1, record plan { status = Status.passed }))
    × (execute late (ExecuteMsg.execute_proposal 1) proposed ≡ err wrong_execute_status)
    × (execute late (ExecuteMsg.vote 1 Vote.yes_vote) proposed ≡ err expired)
    × (execute late (ExecuteMsg.close 1) proposed
        ≡ ok (
          record proposed {
            proposals = save 1 (record plan { status = Status.rejected }) proposed.proposals;
          },
          [],
        ))
unfolding is_passed is_expired total votes_needed
late_pass_is_lost_example =
    late_pass_is_lost late 1 Vote.yes_vote proposed cfg plan refl plan_found refl refl refl
