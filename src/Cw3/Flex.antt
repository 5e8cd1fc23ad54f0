-- ===== src/Cw3/Flex.antt =====
-- The contract cw3-flex-multisig: contracts/cw3-flex-multisig/src/contract.rs and state.rs. The
-- group contract that it queries is an argument.
pub mod Steps
pub mod Lifecycle
pub mod Tally
pub mod Dispatch
pub mod Lists
mod Tests
use Prim.Native.Nat.{Ordering}
use Prim.Native.String.{String}
use cosmwasm_plus.Prelude.{
  ℕ, Bool, true, false, not, Option, none, some, List, [], Outcome, ok, err, panic, ◌≡◌, arith,
  ◌>>=◌, ◌>>◌, map_err, fail_if, ok_or, or_panic, ◌==◌, nat_eq, pair_eq, unwrap_or, u64_add,
}
use cosmwasm_plus.Std.{Std, StdError, BlockInfo}
use cosmwasm_plus.Storage.{Map, Item, save, load, may_load, update, load_item}
use cosmwasm_plus.Cw2.{ContractVersion, set_contract_version}
use cosmwasm_plus.Expiration.{Expiration, Duration, is_expired, partial_cmp, after}
use cosmwasm_plus.Cw3.Defs.{
  Vote, Status, is_open, Threshold, Votes, new_votes, add_vote, Proposal, update_status,
  current_status,
}
use cosmwasm_plus.Cw3.Threshold.{
  ContractError, std, invalid_group, unauthorized, not_open, expired, not_expired, wrong_expiration,
  already_voted, wrong_execute_status, wrong_close_status, validate,
}

pub record Config : Type 0 where
  pub threshold : Threshold
  pub max_voting_period : Duration
  pub group_addr : ℕ

pub record Ballot : Type 0 where
  pub weight : ℕ
  pub vote : Vote

-- `CONFIG`, `PROPOSAL_COUNT`, `BALLOTS` (by proposal and voter), `PROPOSALS` and cw2's `CONTRACT`
pub record State : Type 0 where
  pub contract : Item ContractVersion
  pub config : Item Config
  pub proposal_count : Item ℕ
  pub ballots : Map (ℕ × ℕ) Ballot
  pub proposals : Map ℕ Proposal

-- The answers of a group contract: `total_weight`, `is_member` and `member_at_height` of
-- `Cw4Contract` in packages/cw4/src/helpers.rs.
pub record Group : Type 0 where
  pub total_weight : Outcome StdError ℕ
  pub is_member : ℕ → Outcome StdError (Option ℕ)
  pub member_at_height : ℕ → ℕ → Outcome StdError (Option ℕ)

pub record Env : Type 0 where
  pub sender : ℕ
  pub block : BlockInfo
  pub querier : ℕ → Group

-- The messages of a `Response`.
abbrev pub Response : Type 0
Response = List ℕ

pub data ExecuteMsg : Type 0 where
  propose : (title description msgs : List ℕ) (latest : Option Expiration) → ExecuteMsg
  vote : (proposal_id : ℕ) (choice : Vote) → ExecuteMsg
  execute_proposal : (proposal_id : ℕ) → ExecuteMsg
  close : (proposal_id : ℕ) → ExecuteMsg
  member_changed_hook : ExecuteMsg

abbrev pub lift : {A : Type 0} → Outcome StdError A → Outcome ContractError A
lift = map_err std

-- `…?.ok_or(ContractError::Unauthorized {})?` on the answer of the group
unfoldable pub power_or_refuse : Outcome StdError (Option ℕ) → Outcome ContractError ℕ
power_or_refuse answer = do member ← lift answer; ok_or member unauthorized

pub power_or_refuse-eq-ok :
    (answer : Outcome StdError (Option ℕ)) {power : ℕ}
    → power_or_refuse answer ≡ ok power
    → answer ≡ ok (some power)
unfolding power_or_refuse
power_or_refuse-eq-ok (ok (some n)) p = ground arith
power_or_refuse-eq-ok (ok none) p = cc
power_or_refuse-eq-ok (err e) p = cc
power_or_refuse-eq-ok panic p = cc

-- the new id, which is the new count
unfoldable pub next_id : Item ℕ → Option ℕ
next_id count = u64_add (unwrap_or 0 count) 1

-- `latest.unwrap_or(max_expires)`, held to the maximum
unfoldable pub clamp_expires : Option Expiration → Expiration → Outcome ContractError Expiration
clamp_expires latest max_expires =
    let expires = unwrap_or max_expires latest in
    elim (partial_cmp expires max_expires) [
      | none ↦ err wrong_expiration
      | some order ↦ elim order [
        | Ordering.gt ↦ ok max_expires
        | _ ↦ ok (unwrap_or max_expires latest)
      ]
    ]

-- `[Status::Executed, Status::Rejected, Status::Passed].iter().any(|x| *x == status)`
abbrev pub is_closed : Status → Bool
is_closed Status.executed = true
is_closed Status.rejected = true
is_closed Status.passed = true
is_closed _ = false

abbrev pub has_passed : Status → Bool
has_passed Status.passed = true
has_passed _ = false

-- the action of `BALLOTS.update` in `execute_vote`
abbrev pub first_ballot : Ballot → Option Ballot → Outcome ContractError Ballot
first_ballot b none = ok b
first_ballot b (some _) = err already_voted

-- the open proposal that `execute_propose` starts from
abbrev pub new_proposal :
    Env
    → (title description msgs : List ℕ) → Threshold
    → Expiration
    → (total_weight vote_power : ℕ) → Proposal
new_proposal env title description msgs threshold expires total_weight vote_power = record {
  title = title;
  description = description;
  start_height = env.block.height;
  expires = expires;
  msgs = msgs;
  status = Status.open_status;
  threshold = threshold;
  total_weight = total_weight;
  votes = new_votes vote_power;
}

module _ ⦃api : Std⦄ where
  -- `version` is CARGO_PKG_VERSION of the build; the storage is that of a new contract.
  unfoldable pub instantiate :
      (ℕ → Group) → String → ℕ → Threshold → Duration → Outcome ContractError (State × Response)
  unfolding set_contract_version
  instantiate querier version group_addr threshold max_voting_period = do
    group ← ok_or (api.addr_validate group_addr) (invalid_group group_addr)
    total_weight ← lift (querier group).total_weight
    validate threshold total_weight
    ok (
      record {
        contract = set_contract_version "crates.io:cw3-flex-multisig" version;
        config = some (record {
          threshold = threshold;
          max_voting_period = max_voting_period;
          group_addr = group;
        });
        proposal_count = none;
        ballots = [];
        proposals = [];
      },
      [],
    )

  unfoldable pub execute_propose :
      Env
      → List ℕ
      → List ℕ
      → List ℕ
      → Option Expiration
      → State
      → Outcome ContractError (State × Response)
  execute_propose env title description msgs latest s = do
    cfg ← lift (load_item s.config)
    let group = env.querier cfg.group_addr
    vote_power ← power_or_refuse (group.is_member env.sender)
    max_expires ← after cfg.max_voting_period env.block
    expires ← clamp_expires latest max_expires
    total_weight ← lift group.total_weight
    let new_prop =
        new_proposal env title description msgs cfg.threshold expires total_weight vote_power
    prop ← or_panic (update_status new_prop env.block)
    id ← or_panic (next_id s.proposal_count)
    let ballot : Ballot = record { weight = vote_power; vote = Vote.yes_vote }
    ok (
      record s {
        proposal_count = some id;
        proposals = save id prop s.proposals;
        ballots = save (id, env.sender) ballot s.ballots;
      },
      [],
    )

  unfoldable pub execute_vote : Env → ℕ → Vote → State → Outcome ContractError (State × Response)
  unfolding load update
  execute_vote env proposal_id choice s = do
    cfg ← lift (load_item s.config)
    prop ← lift (load proposal_id s.proposals)
    fail_if (not (is_open prop.status)) not_open
    fail_if (is_expired prop.expires env.block) expired
    let group = env.querier cfg.group_addr
    vote_power ← power_or_refuse (group.member_at_height env.sender prop.start_height)
    (_, ballots) ←
        update (proposal_id, env.sender)
          (first_ballot (record { weight = vote_power; vote = choice })) s.ballots
    votes ← or_panic (add_vote prop.votes choice vote_power)
    prop' ← or_panic (update_status (record prop { votes = votes }) env.block)
    ok (record s { ballots = ballots; proposals = save proposal_id prop' s.proposals }, [])

  unfoldable pub execute_execute : Env → ℕ → State → Outcome ContractError (State × Response)
  unfolding load
  execute_execute env proposal_id s = do
    prop ← lift (load proposal_id s.proposals)
    fail_if (not (has_passed prop.status)) wrong_execute_status
    ok (
      record s {
        proposals = save proposal_id (record prop { status = Status.executed }) s.proposals;
      },
      prop.msgs,
    )

  unfoldable pub execute_close : Env → ℕ → State → Outcome ContractError (State × Response)
  unfolding load
  execute_close env proposal_id s = do
    prop ← lift (load proposal_id s.proposals)
    fail_if (is_closed prop.status) wrong_close_status
    fail_if (not (is_expired prop.expires env.block)) not_expired
    ok (
      record s {
        proposals = save proposal_id (record prop { status = Status.rejected }) s.proposals;
      },
      [],
    )

  unfoldable pub execute_membership_hook : Env → State → Outcome ContractError (State × Response)
  execute_membership_hook env s = do
    cfg ← lift (load_item s.config)
    fail_if (not (env.sender == cfg.group_addr)) unauthorized
    ok (s, [])

  unfoldable pub execute : Env → ExecuteMsg → State → Outcome ContractError (State × Response)
  execute env (ExecuteMsg.propose title description msgs latest) =
      execute_propose env title description msgs latest
  execute env (ExecuteMsg.vote proposal_id choice) = execute_vote env proposal_id choice
  execute env (ExecuteMsg.execute_proposal proposal_id) = execute_execute env proposal_id
  execute env (ExecuteMsg.close proposal_id) = execute_close env proposal_id
  execute env ExecuteMsg.member_changed_hook = execute_membership_hook env

  -- `query_proposal`: the proposal with the status that it has in this block
  unfoldable pub query_proposal : Env → ℕ → State → Outcome StdError (ℕ × Proposal)
  unfolding load
  query_proposal env id s = do
    prop ← load id s.proposals
    status ← or_panic (current_status prop env.block)
    ok (id, record prop { status = status })
