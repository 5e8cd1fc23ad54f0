-- ===== src/Cw1155.antt =====
-- The contract cw1155-base: contracts/cw1155-base/src/contract.rs and state.rs, with the messages of
-- packages/cw1155/src. Accounts hold amounts of many tokens; the events are left out.
pub mod Steps
pub mod Balances
pub mod Registered
mod Tests
use Prim.Native.String.{String}
use cosmwasm_plus.Prelude.{
  ℕ, Bool, true, false, not, ◌||◌, Option, none, some, List, [], ◌∷◌, Outcome, ok, err, panic,
  ◌>>=◌, ◌>>◌, map_err, fail_if, ok_or, ◌==◌, nat_eq, pair_eq, unwrap_or, if◌then◌else◌, take, map,
}
use cosmwasm_plus.Std.{Std, StdError, overflow, BlockInfo}
use cosmwasm_plus.Storage.{Map, Item, load_item, has, may_load, save, remove, load, update}
use cosmwasm_plus.Storage.Range.{nat_order, Order, range, prefix, page_size}
use cosmwasm_plus.Cw2.{ContractVersion, set_contract_version}
use cosmwasm_plus.Pagination.{valid, maybe_addr}
use cosmwasm_plus.Expiration.{Expiration, never, is_expired}

pub data ContractError : Type 0 where
  std : StdError → ContractError
  unauthorized expired : ContractError

-- `MINTER`, `BALANCES` (by owner and token), `APPROVES` (by owner and operator), `TOKENS` and cw2's
-- `CONTRACT`
pub record State : Type 0 where
  pub contract : Item ContractVersion
  pub minter : Item ℕ
  pub balances : Map (ℕ × ℕ) ℕ
  pub approves : Map (ℕ × ℕ) Expiration
  pub tokens : Map ℕ (List ℕ)

pub record Env : Type 0 where
  pub sender : ℕ
  pub block : BlockInfo

-- tokens and amounts
abbrev pub Batch : Type 0
Batch = List (ℕ × ℕ)

pub data ExecuteMsg : Type 0 where
  send_from : (from to token_id value : ℕ) (msg : Option (List ℕ)) → ExecuteMsg
  batch_send_from : (from to : ℕ) (batch : Batch) (msg : Option (List ℕ)) → ExecuteMsg
  mint : (to token_id value : ℕ) (msg : Option (List ℕ)) → ExecuteMsg
  batch_mint : (to : ℕ) (batch : Batch) (msg : Option (List ℕ)) → ExecuteMsg
  burn : (from token_id value : ℕ) → ExecuteMsg
  batch_burn : (from : ℕ) (batch : Batch) → ExecuteMsg
  approve_all : (operator : ℕ) (expires : Option Expiration) → ExecuteMsg
  revoke_all : (operator : ℕ) → ExecuteMsg

-- `Cw1155ReceiveMsg` and `Cw1155BatchReceiveMsg`, sent to a contract
pub data Receive : Type 0 where
  receive :
      (contract_addr operator : ℕ) (from : Option ℕ) (token_id amount : ℕ) (msg : List ℕ) → Receive
  batch_receive :
      (contract_addr operator : ℕ) (from : Option ℕ) (batch : Batch) (msg : List ℕ) → Receive

-- The messages of a `Response`.
abbrev pub Response : Type 0
Response = List Receive

abbrev lift : {A : Type 0} → Outcome StdError A → Outcome ContractError A
lift = map_err std

unfoldable pub check_can_approve : BlockInfo → (owner operator : ℕ) → State → Bool
check_can_approve block owner operator s =
    if owner == operator then true else elim (may_load (owner, operator) s.approves) [
      | some ex ↦ not (is_expired ex block)
      | none ↦ false
    ]

abbrev pub guard_can_approve :
    BlockInfo → (owner operator : ℕ) → State → Outcome ContractError (Unit {0})
guard_can_approve block owner operator s =
    fail_if (not (check_can_approve block owner operator s)) unauthorized

-- the messages to a receiver, where the caller gives one a text
abbrev pub notify : Option (List ℕ) → (List ℕ → Receive) → Response
notify none send = []
notify (some msg) send = send msg ∷ []

-- insert the token if it does not exist
unfoldable pub register : ℕ → Map ℕ (List ℕ) → Map ℕ (List ℕ)
register token_id tokens = if has token_id tokens then tokens else save token_id [] tokens

module _ ⦃api : Std⦄ where
  -- the two halves of `execute_transfer_inner`; `checked_add` fails where `+` panics
  unfoldable pub take_from :
      Option ℕ → (token_id amount : ℕ) → Map (ℕ × ℕ) ℕ → Option (Map (ℕ × ℕ) ℕ)
  take_from none token_id amount balances = some balances
  take_from (some from) token_id amount balances =
      elim (api.checked_sub (unwrap_or 0 (may_load (from, token_id) balances)) amount) [
        | none ↦ none
        | some left ↦ some (save (from, token_id) left balances)
      ]

  unfoldable pub give_to : Option ℕ → (token_id amount : ℕ) → Map (ℕ × ℕ) ℕ → Option (Map (ℕ × ℕ) ℕ)
  give_to none token_id amount balances = some balances
  give_to (some to) token_id amount balances =
      elim (api.uint_add (unwrap_or 0 (may_load (to, token_id) balances)) amount) [
        | none ↦ none
        | some sum ↦ some (save (to, token_id) sum balances)
      ]

  unfoldable pub execute_transfer_inner :
      (from to : Option ℕ) (token_id amount : ℕ) → Map (ℕ × ℕ) ℕ → Outcome StdError (Map (ℕ × ℕ) ℕ)
  execute_transfer_inner from to token_id amount balances = do
    taken ← ok_or (take_from from token_id amount balances) overflow
    ok_or (give_to to token_id amount taken) overflow

  -- the loops over a batch
  unfoldable pub transfer_all :
      (from to : Option ℕ) → Batch → Map (ℕ × ℕ) ℕ → Outcome StdError (Map (ℕ × ℕ) ℕ)
  transfer_all from to [] balances = ok balances
  transfer_all from to ((token_id, amount) ∷ batch) balances = do
    moved ← execute_transfer_inner from to token_id amount balances
    transfer_all from to batch moved

  unfoldable pub mint_all :
      ℕ → Batch → Map (ℕ × ℕ) ℕ → Map ℕ (List ℕ) → Outcome StdError (Map (ℕ × ℕ) ℕ × Map ℕ (List ℕ))
  mint_all to [] balances tokens = ok (balances, tokens)
  mint_all to ((token_id, amount) ∷ batch) balances tokens = do
    more ← execute_transfer_inner none (some to) token_id amount balances
    mint_all to batch more (register token_id tokens)

  -- `version` is CARGO_PKG_VERSION of the build; the storage is that of a new contract.
  unfoldable pub instantiate : String → ℕ → Outcome StdError (State × Response)
  unfolding set_contract_version
  instantiate version minter = do
    addr ← valid minter
    ok (
      record {
        contract = set_contract_version "crates.io:cw1155-base" version;
        minter = some addr;
        balances = [];
        approves = [];
        tokens = [];
      },
      [],
    )

  unfoldable pub execute_send_from :
      Env
      → (from to token_id amount : ℕ) → Option (List ℕ)
      → State
      → Outcome ContractError (State × Response)
  execute_send_from env from to token_id amount msg s = do
    from_addr ← lift (valid from)
    to_addr ← lift (valid to)
    guard_can_approve env.block from_addr env.sender s
    balances ←
        lift (execute_transfer_inner (some from_addr) (some to_addr) token_id amount s.balances)
    ok (
      record s { balances = balances },
      notify msg (receive to env.sender (some from) token_id amount),
    )

  unfoldable pub execute_mint :
      Env
      → (to token_id amount : ℕ) → Option (List ℕ)
      → State
      → Outcome ContractError (State × Response)
  execute_mint env to token_id amount msg s = do
    to_addr ← lift (valid to)
    minter ← lift (load_item s.minter)
    fail_if (not (env.sender == minter)) unauthorized
    balances ← lift (execute_transfer_inner none (some to_addr) token_id amount s.balances)
    ok (
      record s { balances = balances; tokens = register token_id s.tokens },
      notify msg (receive to env.sender none token_id amount),
    )

  unfoldable pub execute_burn :
      Env → (from token_id amount : ℕ) → State → Outcome ContractError (State × Response)
  execute_burn env from token_id amount s = do
    from_addr ← lift (valid from)
    guard_can_approve env.block from_addr env.sender s
    balances ← lift (execute_transfer_inner (some from_addr) none token_id amount s.balances)
    ok (record s { balances = balances }, [])

  unfoldable pub execute_batch_send_from :
      Env
      → (from to : ℕ) → Batch
      → Option (List ℕ)
      → State
      → Outcome ContractError (State × Response)
  execute_batch_send_from env from to batch msg s = do
    from_addr ← lift (valid from)
    to_addr ← lift (valid to)
    guard_can_approve env.block from_addr env.sender s
    balances ← lift (transfer_all (some from_addr) (some to_addr) batch s.balances)
    ok (
      record s { balances = balances },
      notify msg (batch_receive to env.sender (some from) batch),
    )

  unfoldable pub execute_batch_mint :
      Env → ℕ → Batch → Option (List ℕ) → State → Outcome ContractError (State × Response)
  execute_batch_mint env to batch msg s = do
    minter ← lift (load_item s.minter)
    fail_if (not (env.sender == minter)) unauthorized
    to_addr ← lift (valid to)
    (balances, tokens) ← lift (mint_all to_addr batch s.balances s.tokens)
    ok (
      record s { balances = balances; tokens = tokens },
      notify msg (batch_receive to env.sender none batch),
    )

  unfoldable pub execute_batch_burn :
      Env → ℕ → Batch → State → Outcome ContractError (State × Response)
  execute_batch_burn env from batch s = do
    from_addr ← lift (valid from)
    guard_can_approve env.block from_addr env.sender s
    balances ← lift (transfer_all (some from_addr) none batch s.balances)
    ok (record s { balances = balances }, [])

  unfoldable pub execute_approve_all :
      Env → ℕ → Option Expiration → State → Outcome ContractError (State × Response)
  execute_approve_all env operator expires s = do
    let until = unwrap_or never expires
    fail_if (is_expired until env.block) expired
    operator_addr ← lift (valid operator)
    ok (record s { approves = save (env.sender, operator_addr) until s.approves }, [])

  unfoldable pub execute_revoke_all : Env → ℕ → State → Outcome ContractError (State × Response)
  execute_revoke_all env operator s = do
    operator_addr ← lift (valid operator)
    ok (record s { approves = remove (env.sender, operator_addr) s.approves }, [])

  unfoldable pub execute : Env → ExecuteMsg → State → Outcome ContractError (State × Response)
  execute env (send_from from to token_id value msg) s =
      execute_send_from env from to token_id value msg s
  execute env (batch_send_from from to batch msg) s =
      execute_batch_send_from env from to batch msg s
  execute env (mint to token_id value msg) s = execute_mint env to token_id value msg s
  execute env (batch_mint to batch msg) s = execute_batch_mint env to batch msg s
  execute env (burn from token_id value) s = execute_burn env from token_id value s
  execute env (batch_burn from batch) s = execute_batch_burn env from batch s
  execute env (approve_all operator expires) s = execute_approve_all env operator expires s
  execute env (revoke_all operator) s = execute_revoke_all env operator s

  -- `Cw1155QueryMsg::Balance`
  unfoldable pub query_balance : (owner token_id : ℕ) → State → Outcome StdError ℕ
  query_balance owner token_id s = do
    owner_addr ← valid owner
    ok (unwrap_or 0 (may_load (owner_addr, token_id) s.balances))

abbrev pub live_operators : BlockInfo → Bool → List (ℕ × Expiration) → List (ℕ × Expiration)
live_operators block include_expired [] = []
live_operators block include_expired ((k, expires) ∷ rest) =
    let others = live_operators block include_expired rest in
    if include_expired || not (is_expired expires block) then (k, expires) ∷ others else others

unfoldable pub query_all_approvals :
    BlockInfo → ℕ → Bool → Option ℕ → Option ℕ → State → List (ℕ × Expiration)
query_all_approvals block owner include_expired start_after limit s = take (page_size limit) (
    live_operators block include_expired
      (range start_after none Order.ascending (prefix owner s.approves)))

unfoldable pub query_tokens : ℕ → Option ℕ → Option ℕ → State → List ℕ
query_tokens owner start_after limit s =
    map (λ e. e.0)
      (take (page_size limit) (range start_after none Order.ascending (prefix owner s.balances)))

unfoldable pub query_all_tokens : Option ℕ → Option ℕ → State → List ℕ
query_all_tokens start_after limit s =
    map (λ e. e.0) (take (page_size limit) (range start_after none Order.ascending s.tokens))
