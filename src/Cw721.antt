-- ===== src/Cw721.antt =====
-- The contract cw721-base: contracts/cw721-base/src/contract.rs, state.rs, msg.rs and error.rs, with
-- the receive message of packages/cw721/src. Tokens that are each owned by one account.
pub mod Steps
pub mod Ownership
pub mod Enumerable
mod Tests
use Prim.Native.String.{String}
use cosmwasm_plus.Prelude.{
  ℕ, Bool, true, false, not, ◌||◌, ◌&&◌, Option, none, some, List, [], ◌∷◌, ◌++◌, Outcome, ok, err,
  panic, ◌>>=◌, ◌>>◌, map_err, fail_if, or_panic, ◌==◌, nat_eq, pair_eq, unwrap_or, u64_add,
  if◌then◌else◌, take, map,
}
use cosmwasm_plus.Std.{Std, StdError, BlockInfo}
use cosmwasm_plus.Storage
use cosmwasm_plus.Storage.{Map, Item, load_item}
use cosmwasm_plus.Storage.Range.{nat_order, Order, range, prefix, page_size}
use cosmwasm_plus.Cw2.{ContractVersion, set_contract_version}
use cosmwasm_plus.Pagination.{valid, maybe_addr}
use cosmwasm_plus.Expiration.{Expiration, never, is_expired}
use cosmwasm_plus.Indexed
use cosmwasm_plus.Indexed.{IndexedMap, load, save, update, pks}

pub data ContractError : Type 0 where
  std : StdError → ContractError
  unauthorized claimed expired : ContractError

pub record Approval : Type 0 where
  pub spender : ℕ
  pub expires : Expiration

pub record TokenInfo : Type 0 where
  pub owner : ℕ
  pub approvals : List Approval
  pub name : List ℕ
  pub description : List ℕ
  pub image : Option (List ℕ)

pub record ContractInfo : Type 0 where
  pub name : List ℕ
  pub symbol : List ℕ

-- `CONTRACT_INFO`, `MINTER`, `TOKEN_COUNT`, `OPERATORS` (by granter and operator), `tokens()` with
-- the index of the owner, and cw2's `CONTRACT`
pub record State : Type 0 where
  pub contract : Item ContractVersion
  pub contract_info : Item ContractInfo
  pub minter : Item ℕ
  pub token_count : Item ℕ
  pub operators : Map (ℕ × ℕ) Expiration
  pub tokens : IndexedMap TokenInfo

pub record Env : Type 0 where
  pub sender : ℕ
  pub block : BlockInfo

pub record MintMsg : Type 0 where
  pub token_id : ℕ
  pub owner : ℕ
  pub name : List ℕ
  pub description : Option (List ℕ)
  pub image : Option (List ℕ)

pub data ExecuteMsg : Type 0 where
  transfer_nft : (recipient token_id : ℕ) → ExecuteMsg
  send_nft : (contract token_id : ℕ) (msg : List ℕ) → ExecuteMsg
  approve : (spender token_id : ℕ) (expires : Option Expiration) → ExecuteMsg
  revoke : (spender token_id : ℕ) → ExecuteMsg
  approve_all : (operator : ℕ) (expires : Option Expiration) → ExecuteMsg
  revoke_all : (operator : ℕ) → ExecuteMsg
  mint : MintMsg → ExecuteMsg

-- `Cw721ReceiveMsg`, as `into_cosmos_msg` sends it to a contract
pub record ReceiveNft : Type 0 where
  pub contract_addr : ℕ
  pub sender : ℕ
  pub token_id : ℕ
  pub msg : List ℕ

-- The messages of a `Response`.
abbrev pub Response : Type 0
Response = List ReceiveNft

abbrev lift : {A : Type 0} → Outcome StdError A → Outcome ContractError A
lift = map_err std

-- the number that the index of `tokens()` lists a token by
abbrev pub owner_index : TokenInfo → ℕ
owner_index t = t.owner

unfoldable pub num_tokens : State → ℕ
num_tokens s = unwrap_or 0 s.token_count

unfoldable pub increment_tokens : Item ℕ → Option ℕ
increment_tokens count = u64_add (unwrap_or 0 count) 1

-- `Approval::is_expired`
abbrev pub approval_is_expired : BlockInfo → Approval → Bool
approval_is_expired block apr = is_expired apr.expires block

-- whether an operator is set and has not expired
abbrev operates : Option Expiration → BlockInfo → Bool
operates none block = false
operates (some ex) block = not (is_expired ex block)

unfoldable pub check_can_approve : Env → TokenInfo → State → Outcome ContractError (Unit {0})
check_can_approve env token s =
    if token.owner == env.sender
    then ok tt
    else (if operates (Storage.may_load (token.owner, env.sender) s.operators) env.block
        then ok tt
        else err unauthorized)

-- an approval of the sender that has not expired
abbrev pub approved : Env → List Approval → Bool
approved env [] = false
approved env (apr ∷ rest) =
    (apr.spender == env.sender && not (is_expired apr.expires env.block)) || approved env rest

unfoldable pub check_can_send : Env → TokenInfo → State → Outcome ContractError (Unit {0})
check_can_send env token s =
    if token.owner == env.sender
    then ok tt
    else (if approved env token.approvals
        then ok tt
        else (if operates (Storage.may_load (token.owner, env.sender) s.operators) env.block
            then ok tt
            else err unauthorized))

-- `.filter(|apr| apr.spender != spender_addr)`
unfoldable pub without_spender : ℕ → List Approval → List Approval
without_spender spender [] = []
without_spender spender (apr ∷ rest) =
    let others = without_spender spender rest in
    if apr.spender == spender then others else apr ∷ others

-- the approvals after `approve` (with an expiration) or `revoke`
unfoldable pub set_approval :
    BlockInfo → ℕ → Option Expiration → List Approval → Outcome ContractError (List Approval)
unfolding without_spender
set_approval block spender none approvals = ok (without_spender spender approvals)
set_approval block spender (some expires) approvals = do
  fail_if (is_expired expires block) expired
  ok (without_spender spender approvals ++ (record { spender = spender; expires = expires } ∷ []))

-- the action of `tokens().update` in `execute_mint`
abbrev pub first_token : TokenInfo → Option TokenInfo → Outcome ContractError TokenInfo
first_token token none = ok token
first_token token (some _) = err claimed

module _ ⦃api : Std⦄ where
  -- `version` is CARGO_PKG_VERSION of the build; the storage is that of a new contract.
  unfoldable pub instantiate :
      String → (name symbol : List ℕ) → ℕ → Outcome StdError (State × Response)
  unfolding set_contract_version
  instantiate version name symbol minter = do
    addr ← valid minter
    ok (
      record {
        contract = set_contract_version "crates.io:cw721-base" version;
        contract_info = some (record { name = name; symbol = symbol });
        minter = some addr;
        token_count = none;
        operators = [];
        tokens = record { primary = []; idx_map = [] };
      },
      [],
    )

  unfoldable pub execute_mint : Env → MintMsg → State → Outcome ContractError (State × Response)
  unfolding update increment_tokens
  execute_mint env msg s = do
    minter ← lift (load_item s.minter)
    fail_if (not (env.sender == minter)) unauthorized
    owner ← lift (valid msg.owner)
    let token : TokenInfo = record {
      owner = owner;
      approvals = [];
      name = msg.name;
      description = unwrap_or [] msg.description;
      image = msg.image;
    }
    (_, tokens) ← update owner_index msg.token_id (first_token token) s.tokens
    count ← or_panic (increment_tokens s.token_count)
    ok (record s { tokens = tokens; token_count = some count }, [])

  -- `_transfer_nft`
  unfoldable pub transfer_token :
      Env → (recipient token_id : ℕ) → State → Outcome ContractError State
  unfolding load
  transfer_token env recipient token_id s = do
    token ← lift (load token_id s.tokens)
    check_can_send env token s
    owner ← lift (valid recipient)
    ok (record s {
      tokens = save owner_index token_id (record token { owner = owner; approvals = [] }) s.tokens;
    })

  unfoldable pub execute_transfer_nft :
      Env → (recipient token_id : ℕ) → State → Outcome ContractError (State × Response)
  execute_transfer_nft env recipient token_id s = do
    s' ← transfer_token env recipient token_id s
    ok (s', [])

  unfoldable pub execute_send_nft :
      Env → (contract token_id : ℕ) → List ℕ → State → Outcome ContractError (State × Response)
  execute_send_nft env contract token_id msg s = do
    s' ← transfer_token env contract token_id s
    ok (
      s',
      record { contract_addr = contract; sender = env.sender; token_id = token_id; msg = msg } ∷ [],
    )

  -- `_update_approvals`: `none` removes the approval of the spender
  unfoldable pub update_approvals :
      Env → (spender token_id : ℕ) → Option Expiration → State → Outcome ContractError State
  unfolding load set_approval
  update_approvals env spender token_id expires s = do
    token ← lift (load token_id s.tokens)
    check_can_approve env token s
    spender_addr ← lift (valid spender)
    approvals ← set_approval env.block spender_addr expires token.approvals
    ok (record s {
      tokens = save owner_index token_id (record token { approvals = approvals }) s.tokens;
    })

  unfoldable pub execute_approve :
      Env
      → (spender token_id : ℕ) → Option Expiration
      → State
      → Outcome ContractError (State × Response)
  execute_approve env spender token_id expires s = do
    s' ← update_approvals env spender token_id (some (unwrap_or never expires)) s
    ok (s', [])

  unfoldable pub execute_revoke :
      Env → (spender token_id : ℕ) → State → Outcome ContractError (State × Response)
  execute_revoke env spender token_id s = do
    s' ← update_approvals env spender token_id none s
    ok (s', [])

  unfoldable pub execute_approve_all :
      Env → ℕ → Option Expiration → State → Outcome ContractError (State × Response)
  execute_approve_all env operator expires s = do
    let until = unwrap_or never expires
    fail_if (is_expired until env.block) expired
    operator_addr ← lift (valid operator)
    ok (record s { operators = Storage.save (env.sender, operator_addr) until s.operators }, [])

  unfoldable pub execute_revoke_all : Env → ℕ → State → Outcome ContractError (State × Response)
  execute_revoke_all env operator s = do
    operator_addr ← lift (valid operator)
    ok (record s { operators = Storage.remove (env.sender, operator_addr) s.operators }, [])

  unfoldable pub execute : Env → ExecuteMsg → State → Outcome ContractError (State × Response)
  execute env (mint msg) s = execute_mint env msg s
  execute env (approve spender token_id expires) s = execute_approve env spender token_id expires s
  execute env (revoke spender token_id) s = execute_revoke env spender token_id s
  execute env (approve_all operator expires) s = execute_approve_all env operator expires s
  execute env (revoke_all operator) s = execute_revoke_all env operator s
  execute env (transfer_nft recipient token_id) s = execute_transfer_nft env recipient token_id s
  execute env (send_nft contract token_id msg) s = execute_send_nft env contract token_id msg s

-- `humanize_approvals`
unfoldable pub humanize_approvals : BlockInfo → Bool → List Approval → List Approval
humanize_approvals block include_expired [] = []
humanize_approvals block include_expired (apr ∷ rest) =
    let others = humanize_approvals block include_expired rest in
    if include_expired || not (approval_is_expired block apr) then apr ∷ others else others

unfoldable pub query_owner_of : BlockInfo → ℕ → Bool → State → Outcome StdError (ℕ × List Approval)
unfolding load
query_owner_of block token_id include_expired s = do
  info ← load token_id s.tokens
  ok (info.owner, humanize_approvals block include_expired info.approvals)

unfoldable pub query_nft_info : ℕ → State → Outcome StdError (List ℕ × List ℕ × Option (List ℕ))
unfolding load
query_nft_info token_id s = do
  info ← load token_id s.tokens
  ok (info.name, info.description, info.image)

unfoldable pub query_minter : State → Outcome StdError ℕ
query_minter s = load_item s.minter

unfoldable pub query_contract_info : State → Outcome StdError ContractInfo
query_contract_info s = load_item s.contract_info

-- the operators that have not expired, or all of them
abbrev pub live_operators : BlockInfo → Bool → List (ℕ × Expiration) → List (ℕ × Expiration)
live_operators block include_expired [] = []
live_operators block include_expired ((k, expires) ∷ rest) =
    let others = live_operators block include_expired rest in
    if include_expired || not (is_expired expires block) then (k, expires) ∷ others else others

module _ ⦃api : Std⦄ where
  unfoldable pub query_all_approvals :
      BlockInfo → ℕ → Bool → Option ℕ → Option ℕ → State → Outcome StdError (List (ℕ × Expiration))
  query_all_approvals block owner include_expired start_after limit s = do
    start ← maybe_addr start_after
    owner_addr ← valid owner
    let entries = range start none Order.ascending (prefix owner_addr s.operators)
    ok (take (page_size limit) (live_operators block include_expired entries))

  unfoldable pub query_tokens : ℕ → Option ℕ → Option ℕ → State → Outcome StdError (List ℕ)
  query_tokens owner start_after limit s = do
    start ← maybe_addr start_after
    owner_addr ← valid owner
    ok (take (page_size limit) (pks owner_addr start s.tokens))

  unfoldable pub query_all_tokens : Option ℕ → Option ℕ → State → Outcome StdError (List ℕ)
  query_all_tokens start_after limit s = do
    start ← maybe_addr start_after
    ok (map (λ e. e.0) (take (page_size limit) (range start none Order.ascending s.tokens.primary)))
