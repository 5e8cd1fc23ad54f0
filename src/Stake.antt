-- ===== src/Stake.antt =====
-- The contract cw4-stake: contracts/cw4-stake/src/contract.rs, state.rs, msg.rs and error.rs. A
-- group whose members have bonded tokens; tokens that are unbonded can be claimed after a delay.
pub mod Steps
pub mod Bonded
pub mod Weights
pub mod Past
pub mod Runs
pub mod Releasing
mod Tests
use Prim.Native.String.{String}
use cosmwasm_plus.Prelude.{
  ℕ, Bool, true, false, not, Option, none, some, List, [], ◌∷◌, Outcome, ok, err, panic, ◌>>=◌,
  ◌>>◌, map_err, fail_if, ok_or, or_panic, ◌==◌, nat_eq, unwrap_or, if◌then◌else◌, ltb, u64_add,
  u64_sub, u64_mod, ◌/◌, ◌%◌, map,
}
use cosmwasm_plus.Std.{Std, StdError, overflow, BlockInfo}
use cosmwasm_plus.Storage
use cosmwasm_plus.Storage.Range.{nat_order, page}
use cosmwasm_plus.Storage.{Map, Item, load_item}
use cosmwasm_plus.Cw2.{ContractVersion, set_contract_version}
use cosmwasm_plus.Pagination.{valid, maybe_addr}
use cosmwasm_plus.Snapshot.{SnapshotMap, save, remove, may_load, may_load_at_height}
use cosmwasm_plus.Expiration.{Duration, after}
use cosmwasm_plus.Controllers.Admin.{AdminError, Admin, execute_update_admin}
use cosmwasm_plus.Controllers.Claims.{Claims, create_claim, claim_tokens}
use cosmwasm_plus.Controllers.Hooks.{
  HookError, Hooks, prepare_hooks, execute_add_hook, execute_remove_hook,
}
use cosmwasm_plus.Balance.{Coin}
use cosmwasm_plus.Funds.{
  Cw20CoinVerified, Balance, native_balance, cw20_balance, Denom, native_denom, cw20_denom, Payment,
  bank_send, cw20_transfer,
}
use cosmwasm_plus.Cw4.{HookMsg, into_cosmos_msg, no_members}

pub data ContractError : Type 0 where
  std : StdError → ContractError
  admin : AdminError → ContractError
  hook : HookError → ContractError
  unauthorized nothing_to_claim : ContractError
  missing_denom extra_denoms invalid_denom : (denom : ℕ) → ContractError
  mixed_native_and_cw20 : String → ContractError
  no_funds no_data : ContractError

pub record Config : Type 0 where
  pub denom : Denom
  pub tokens_per_weight : ℕ
  pub min_bond : ℕ
  pub unbonding_period : Duration

-- `CLAIMS`, `ADMIN`, `HOOKS`, `CONFIG`, `TOTAL`, `MEMBERS`, `STAKE` and cw2's `CONTRACT`
pub record State : Type 0 where
  pub contract : Item ContractVersion
  pub claims : Claims
  pub admin : Admin
  pub hooks : Hooks
  pub config : Item Config
  pub total : Item ℕ
  pub members : SnapshotMap ℕ
  pub stake : Map ℕ ℕ

pub record Env : Type 0 where
  pub sender : ℕ
  pub block : BlockInfo
  pub funds : List Coin

pub record InstantiateMsg : Type 0 where
  pub denom : Denom
  pub tokens_per_weight : ℕ
  pub min_bond : ℕ
  pub unbonding_period : Duration
  pub new_admin : Option ℕ

pub data ReceiveMsg : Type 0 where
  bond_received : ReceiveMsg

-- `receive` holds the sender and the amount of a `Cw20ReceiveMsg`, and its message parsed
pub data ExecuteMsg : Type 0 where
  bond : ExecuteMsg
  unbond : (tokens : ℕ) → ExecuteMsg
  claim : ExecuteMsg
  update_admin : (new_admin : Option ℕ) → ExecuteMsg
  add_hook : (addr : ℕ) → ExecuteMsg
  remove_hook : (addr : ℕ) → ExecuteMsg
  receive : (sender amount : ℕ) (msg : ReceiveMsg) → ExecuteMsg

-- the messages of a `Response`
pub record Response : Type 0 where
  pub calls : List HookMsg
  pub payments : List Payment

abbrev pub silent : Response
silent = record { calls = []; payments = [] }

abbrev lift : {A : Type 0} → Outcome StdError A → Outcome ContractError A
lift = map_err std

-- `new == old`
abbrev pub same_weight : Option ℕ → Option ℕ → Bool
same_weight none none = true
same_weight (some v) (some w) = v == w
same_weight _ _ = false

unfoldable pub must_pay_funds : List Coin → ℕ → Outcome ContractError ℕ
must_pay_funds [] denom = err no_funds
must_pay_funds (c ∷ []) denom = if c.denom == denom then ok c.amount else err (missing_denom denom)
must_pay_funds (_ ∷ _ ∷ _) denom = err (extra_denoms denom)

-- `none` is the panic of a division by zero; the quotient is cut to a `u64`
unfoldable pub calc_weight : ℕ → Config → Option (Option ℕ)
calc_weight stake cfg =
    if ltb stake cfg.min_bond
    then some none
    else (if cfg.tokens_per_weight == 0
        then none
        else some (some ((stake / cfg.tokens_per_weight) % u64_mod)))

-- the tokens of a bond, where they are those that the contract takes
unfoldable pub bonded_amount : Denom → Balance → Outcome ContractError ℕ
unfolding must_pay_funds
bonded_amount (native_denom want) (native_balance have) = must_pay_funds have want
bonded_amount (cw20_denom want) (cw20_balance have) =
    if want == have.address then ok have.amount else err (invalid_denom want)
bonded_amount _ _ = err (mixed_native_and_cw20 "Invalid address or denom")

-- the write of the new weight to `MEMBERS`
abbrev pub set_member : ℕ → Option ℕ → ℕ → SnapshotMap ℕ → SnapshotMap ℕ
set_member sender none height members = remove sender height members
set_member sender (some w) height members = save sender w height members

unfoldable pub update_membership :
    ℕ → ℕ → Config → ℕ → State → Outcome StdError (State × List HookMsg)
unfolding calc_weight prepare_hooks
update_membership sender new_stake cfg height s = do
  new ← or_panic (calc_weight new_stake cfg)
  let old = may_load sender s.members
  if same_weight new old then ok (s, []) else (do
    let members = set_member sender new height s.members
    total ← load_item s.total
    more ← or_panic (u64_add total (unwrap_or 0 new))
    total' ← or_panic (u64_sub more (unwrap_or 0 old))
    let s' : State = record s { members = members; total = some total' }
    calls ←
        prepare_hooks (into_cosmos_msg (record { key = sender; old = old; new = new } ∷ []))
          s'.hooks
    ok (s', calls))

-- the message that pays a claim out
abbrev pub release_to : ℕ → Denom → ℕ → Payment
release_to to (native_denom denom) amount =
    bank_send to (record { denom = denom; amount = amount } ∷ [])
release_to to (cw20_denom address) amount = cw20_transfer address to amount

module _ ⦃api : Std⦄ where
  -- `version` is CARGO_PKG_VERSION of the build; the storage is that of a new contract.
  unfoldable pub instantiate : String → InstantiateMsg → Outcome ContractError (State × Response)
  unfolding set_contract_version
  instantiate version msg = do
    new_admin ← lift (maybe_addr msg.new_admin)
    let min_bond = if ltb msg.min_bond 1 then 1 else msg.min_bond
    ok (
      record {
        contract = set_contract_version "crates.io:cw4-stake" version;
        claims = [];
        admin = some new_admin;
        hooks = none;
        config = some (record {
          denom = msg.denom;
          tokens_per_weight = msg.tokens_per_weight;
          min_bond = min_bond;
          unbonding_period = msg.unbonding_period;
        });
        total = some 0;
        members = no_members;
        stake = [];
      },
      silent,
    )

  unfoldable pub execute_bond :
      BlockInfo → Balance → ℕ → State → Outcome ContractError (State × Response)
  unfolding Storage.update bonded_amount
  execute_bond block amount sender s = do
    cfg ← lift (load_item s.config)
    tokens ← bonded_amount cfg.denom amount
    (new_stake, stake) ←
        Storage.update sender (λ old. or_panic (api.uint_add (unwrap_or 0 old) tokens)) s.stake
    (s', calls) ←
        lift (update_membership sender new_stake cfg block.height (record s { stake = stake }))
    ok (s', record { calls = calls; payments = [] })

  unfoldable pub execute_receive :
      Env → ℕ → ℕ → ReceiveMsg → State → Outcome ContractError (State × Response)
  execute_receive env sender amount bond_received s = do
    addr ← lift (valid sender)
    execute_bond env.block (cw20_balance (record { address = env.sender; amount = amount })) addr s

  unfoldable pub execute_unbond : Env → ℕ → State → Outcome ContractError (State × Response)
  unfolding Storage.update
  execute_unbond env amount s = do
    (new_stake, stake) ← lift (
        Storage.update env.sender (λ old. ok_or (api.checked_sub (unwrap_or 0 old) amount) overflow)
          s.stake)
    cfg ← lift (load_item s.config)
    release_at ← after cfg.unbonding_period env.block
    claims ← lift (create_claim env.sender amount release_at s.claims)
    (s', calls) ← lift (
        update_membership env.sender new_stake cfg env.block.height
          (record s { stake = stake; claims = claims }))
    ok (s', record { calls = calls; payments = [] })

  unfoldable pub execute_claim : Env → State → Outcome ContractError (State × Response)
  execute_claim env s = do
    (release, claims) ← lift (claim_tokens env.sender env.block none s.claims)
    fail_if (release == 0) nothing_to_claim
    config ← lift (load_item s.config)
    ok (
      record s { claims = claims },
      record { calls = []; payments = release_to env.sender config.denom release ∷ [] },
    )

  unfoldable pub execute : Env → ExecuteMsg → State → Outcome ContractError (State × Response)
  execute env (update_admin new_admin) s = do
    addr ← lift (maybe_addr new_admin)
    adm ← map_err admin (execute_update_admin s.admin env.sender addr)
    ok (record s { admin = adm }, silent)
  execute env (add_hook addr) s = do
    h ← lift (valid addr)
    hooks ← map_err hook (execute_add_hook s.admin env.sender h s.hooks)
    ok (record s { hooks = hooks }, silent)
  execute env (remove_hook addr) s = do
    h ← lift (valid addr)
    hooks ← map_err hook (execute_remove_hook s.admin env.sender h s.hooks)
    ok (record s { hooks = hooks }, silent)
  execute env bond s = execute_bond env.block (native_balance env.funds) env.sender s
  execute env (unbond tokens) s = execute_unbond env tokens s
  execute env claim s = execute_claim env s
  execute env (receive sender amount msg) s = execute_receive env sender amount msg s

  unfoldable pub query_staked : ℕ → State → Outcome StdError (ℕ × Denom)
  unfolding Storage.may_load
  query_staked addr s = do
    a ← valid addr
    let stake = unwrap_or 0 (Storage.may_load a s.stake)
    config ← load_item s.config
    ok (stake, config.denom)

  unfoldable pub query_member : ℕ → Option ℕ → State → Outcome StdError (Option ℕ)
  query_member addr height s = do
    a ← valid addr
    elim height [ some h ↦ may_load_at_height a h s.members | none ↦ ok (may_load a s.members) ]

  unfoldable pub list_members : Option ℕ → Option ℕ → State → Outcome StdError (List (ℕ × ℕ))
  list_members start_after limit s = do
    start ← maybe_addr start_after
    ok (page start limit s.members.primary)

unfoldable pub query_total_weight : State → Outcome StdError ℕ
query_total_weight s = load_item s.total
