-- ===== src/Cw3/Fixed.antt =====
-- The contract cw3-fixed-multisig: contracts/cw3-fixed-multisig/src/contract.rs, state.rs, msg.rs
-- and error.rs. The voters and their weights never change; a proposal passes with a fixed weight of
-- yes votes. A ballot is the record of cw3-flex-multisig, whose two fields it has.
pub mod Steps
pub mod Sound
pub mod Dispatch
pub mod Genesis
pub mod Lists
pub mod Runs
mod Tests
use Prim.Native.Nat.{Ordering}
use Prim.Native.String.{String}
use cosmwasm_plus.Prelude.{
  ℕ, Bool, true, false, not, ◌&&◌, Option, none, some, List, [], ◌∷◌, Outcome, ok, err, panic,
  ◌>>=◌, ◌>>◌, map_err, fail_if, ok_or, or_panic, ◌==◌, nat_eq, pair_eq, unwrap_or, u64_add, ltb,
  leb, if◌then◌else◌,
}
use cosmwasm_plus.Std.{Std, StdError, invalid_addr, BlockInfo}
use cosmwasm_plus.Storage.{Map, Item, save, load, may_load, update, load_item}
use cosmwasm_plus.Cw2.{ContractVersion, set_contract_version}
use cosmwasm_plus.Pagination.{valid}
use cosmwasm_plus.Expiration.{Expiration, Duration, is_expired, partial_cmp, after}
use cosmwasm_plus.Cw3.Defs.{Vote, Status, is_open}
use cosmwasm_plus.Cw3.Flex.{Ballot, is_closed, has_passed}

pub data ContractError : Type 0 where
  std : StdError → ContractError
  zero_weight unreachable_weight no_voters unauthorized not_open expired not_expired : ContractError
  wrong_expiration already_voted wrong_execute_status wrong_close_status : ContractError

pub record Config : Type 0 where
  pub required_weight : ℕ
  pub total_weight : ℕ
  pub max_voting_period : Duration

-- The messages of a proposal are not looked into: each is its number.
pub record Proposal : Type 0 where
  pub title : List ℕ
  pub description : List ℕ
  pub expires : Expiration
  pub msgs : List ℕ
  pub status : Status
  pub yes_weight : ℕ
  pub required_weight : ℕ

pub record Voter : Type 0 where
  pub addr : ℕ
  pub weight : ℕ

-- `CONFIG`, `PROPOSAL_COUNT`, `VOTERS`, `PROPOSALS`, `BALLOTS` (by proposal and voter) and cw2's
-- `CONTRACT`
pub record State : Type 0 where
  pub contract : Item ContractVersion
  pub config : Item Config
  pub proposal_count : Item ℕ
  pub voters : Map ℕ ℕ
  pub proposals : Map ℕ Proposal
  pub ballots : Map (ℕ × ℕ) Ballot

pub record Env : Type 0 where
  pub sender : ℕ
  pub block : BlockInfo

pub data ExecuteMsg : Type 0 where
  propose : (title description msgs : List ℕ) (latest : Option Expiration) → ExecuteMsg
  vote : (proposal_id : ℕ) (choice : Vote) → ExecuteMsg
  execute_proposal : (proposal_id : ℕ) → ExecuteMsg
  close : (proposal_id : ℕ) → ExecuteMsg

-- The messages of a `Response`.
abbrev pub Response : Type 0
Response = List ℕ

abbrev pub lift : {A : Type 0} → Outcome StdError A → Outcome ContractError A
lift = map_err std

unfoldable pub current_status : Proposal → BlockInfo → Status
current_status p block =
    let status =
      if is_open p.status && leb p.required_weight p.yes_weight then Status.passed else p.status in
    if is_open status && is_expired p.expires block then Status.rejected else status

-- `.map(|v| v.weight).sum()`; `none` is an overflow
unfoldable pub sum_weights : ℕ → List Voter → Option ℕ
sum_weights total [] = some total
sum_weights total (v ∷ voters) = elim (u64_add total v.weight) [
  | none ↦ none
  | some more ↦ sum_weights more voters
]

abbrev is_nil : List Voter → Bool
is_nil [] = true
is_nil (_ ∷ _) = false

unfoldable pub next_id : Item ℕ → Option ℕ
next_id count = u64_add (unwrap_or 0 count) 1

-- `latest.unwrap_or(max_expires)`, held to the maximum
unfoldable pub clamp_expires : Option Expiration → Expiration → Outcome ContractError Expiration
clamp_expires latest max_expires =
    let expires = unwrap_or max_expires latest in
    elim (partial_cmp expires max_expires) [
      | none ↦ err wrong_expiration
      | some order ↦ elim order [
        | Ordering.gt ↦ ok max_expires
        | _ ↦ ok (unwrap_or max_expires latest)
      ]
    ]

-- the action of `BALLOTS.update` in `execute_vote`
abbrev pub first_ballot : Ballot → Option Ballot → Outcome ContractError Ballot
first_ballot b none = ok b
first_ballot b (some _) = err already_voted

-- the proposal that `execute_propose` saves
abbrev pub new_proposal :
    (title description msgs : List ℕ) → Expiration → (required vote_power : ℕ) → Proposal
new_proposal title description msgs expires required vote_power = record {
  title = title;
  description = description;
  expires = expires;
  msgs = msgs;
  status = if ltb vote_power required then Status.open_status else Status.passed;
  yes_weight = vote_power;
  required_weight = required;
}

abbrev pub is_yes : Vote → Bool
is_yes Vote.yes_vote = true
is_yes _ = false

-- the proposal with more yes votes, passed when they suffice
abbrev pub counted : Proposal → ℕ → Proposal
counted prop more = record prop {
  yes_weight = more;
  status = if leb prop.required_weight more then Status.passed else prop.status;
}

-- the proposals after a vote
unfoldable pub tally :
    ℕ → Proposal → Vote → ℕ → Map ℕ Proposal → Outcome ContractError (Map ℕ Proposal)
tally proposal_id prop choice vote_power proposals =
    if is_yes choice
    then (do
      more ← or_panic (u64_add prop.yes_weight vote_power)
      ok (save proposal_id (counted prop more) proposals))
    else ok proposals

unfoldable pub execute_vote : Env → ℕ → Vote → State → Outcome ContractError (State × Response)
unfolding load update tally
execute_vote env proposal_id choice s = do
  vote_power ← ok_or (may_load env.sender s.voters) unauthorized
  prop ← lift (load proposal_id s.proposals)
  fail_if (not (is_open prop.status)) not_open
  fail_if (is_expired prop.expires env.block) expired
  (_, ballots) ←
      update (proposal_id, env.sender)
        (first_ballot (record { weight = vote_power; vote = choice })) s.ballots
  proposals ← tally proposal_id prop choice vote_power s.proposals
  ok (record s { ballots = ballots; proposals = proposals }, [])

unfoldable pub execute_execute : ℕ → State → Outcome ContractError (State × Response)
unfolding load
execute_execute proposal_id s = do
  prop ← lift (load proposal_id s.proposals)
  fail_if (not (has_passed prop.status)) wrong_execute_status
  ok (
    record s {
      proposals = save proposal_id (record prop { status = Status.executed }) s.proposals;
    },
    prop.msgs,
  )

unfoldable pub execute_close : Env → ℕ → State → Outcome ContractError (State × Response)
unfolding load
execute_close env proposal_id s = do
  prop ← lift (load proposal_id s.proposals)
  fail_if (is_closed prop.status) wrong_close_status
  fail_if (not (is_expired prop.expires env.block)) not_expired
  ok (
    record s {
      proposals = save proposal_id (record prop { status = Status.rejected }) s.proposals;
    },
    [],
  )

-- `query_proposal`: the proposal with the status that it has in this block, and the threshold
unfoldable pub query_proposal : BlockInfo → ℕ → State → Outcome StdError (ℕ × Proposal × Config)
unfolding load
query_proposal block id s = do
  prop ← load id s.proposals
  let status = current_status prop block
  cfg ← load_item s.config
  ok (id, record prop { status = status }, cfg)

-- `query_threshold`: the required and the total weight
unfoldable pub query_threshold : State → Outcome StdError (ℕ × ℕ)
query_threshold s = do cfg ← load_item s.config; ok (cfg.required_weight, cfg.total_weight)

module _ ⦃api : Std⦄ where
  -- the loop of `instantiate` that saves the voters
  unfoldable pub add_voters : List Voter → Map ℕ ℕ → Outcome StdError (Map ℕ ℕ)
  add_voters [] m = ok m
  add_voters (v ∷ voters) m = do key ← valid v.addr; add_voters voters (save key v.weight m)

  -- `version` is CARGO_PKG_VERSION of the build; the storage is that of a new contract.
  unfoldable pub instantiate :
      String → List Voter → ℕ → Duration → Outcome ContractError (State × Response)
  unfolding set_contract_version
  instantiate version voters required_weight max_voting_period = do
    fail_if (required_weight == 0) zero_weight
    fail_if (is_nil voters) no_voters
    total_weight ← or_panic (sum_weights 0 voters)
    fail_if (ltb total_weight required_weight) unreachable_weight
    saved ← lift (add_voters voters [])
    ok (
      record {
        contract = set_contract_version "crates.io:cw3-fixed-multisig" version;
        config = some (record {
          required_weight = required_weight;
          total_weight = total_weight;
          max_voting_period = max_voting_period;
        });
        proposal_count = none;
        voters = saved;
        proposals = [];
        ballots = [];
      },
      [],
    )

  unfoldable pub execute_propose :
      Env
      → (title description msgs : List ℕ) → Option Expiration
      → State
      → Outcome ContractError (State × Response)
  execute_propose env title description msgs latest s = do
    vote_power ← ok_or (may_load env.sender s.voters) unauthorized
    cfg ← lift (load_item s.config)
    max_expires ← after cfg.max_voting_period env.block
    expires ← clamp_expires latest max_expires
    let prop = new_proposal title description msgs expires cfg.required_weight vote_power
    id ← or_panic (next_id s.proposal_count)
    let ballot : Ballot = record { weight = vote_power; vote = Vote.yes_vote }
    ok (
      record s {
        proposal_count = some id;
        proposals = save id prop s.proposals;
        ballots = save (id, env.sender) ballot s.ballots;
      },
      [],
    )

  unfoldable pub execute : Env → ExecuteMsg → State → Outcome ContractError (State × Response)
  execute env (ExecuteMsg.propose title description msgs latest) s =
      execute_propose env title description msgs latest s
  execute env (ExecuteMsg.vote proposal_id choice) s = execute_vote env proposal_id choice s
  execute env (ExecuteMsg.execute_proposal proposal_id) s = execute_execute proposal_id s
  execute env (ExecuteMsg.close proposal_id) s = execute_close env proposal_id s

  unfoldable pub query_vote : ℕ → ℕ → State → Outcome StdError (Option Ballot)
  query_vote proposal_id voter s = do a ← valid voter; ok (may_load (proposal_id, a) s.ballots)

  unfoldable pub query_voter : ℕ → State → Outcome StdError (Option ℕ)
  query_voter voter s = do a ← valid voter; ok (may_load a s.voters)
