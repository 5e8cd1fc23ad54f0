-- ===== src/Swap.antt =====
-- The contract cw20-atomic-swap: contracts/cw20-atomic-swap/src/contract.rs, state.rs and msg.rs.
-- Funds are locked with a hash: whoever shows the preimage in time releases them to the recipient,
-- and later anyone sends them back.
pub mod Steps
pub mod Funds
pub mod Deciding
mod Tests
use cosmwasm_plus.Prelude.{
  ℕ, Bool, true, false, not, ◌||◌, ◌*◌, Option, none, some, List, [], ◌∷◌, length, Outcome, ok, err,
  panic, ◌>>=◌, ◌>>◌, map_err, fail_if, ok_or, ◌==◌, nat_eq, bytes_eq, ltb, if◌then◌else◌,
}
use cosmwasm_plus.Std.{Std, StdError, invalid_addr, BlockInfo}
use cosmwasm_plus.Storage.{Map, load, save, remove, update}
use cosmwasm_plus.Expiration.{Expiration, is_expired}
use cosmwasm_plus.Balance.{Coin}
use cosmwasm_plus.Funds.{
  Balance, native_balance, cw20_balance, balance_is_empty, Payment, bank_send, cw20_transfer,
}

pub data ContractError : Type 0 where
  std : StdError → ContractError
  parse_error invalid_id invalid_preimage : ContractError
  invalid_hash : (chars : ℕ) → ContractError
  empty_balance not_expired expired already_exists : ContractError

-- `hex::decode` of the crate hex and `Sha256::digest` of the crate sha2, on bytes
pub record Hashing : Type 0 where
  pub hex_decode : List ℕ → Option (List ℕ)
  pub sha256 : List ℕ → List ℕ

pub record AtomicSwap : Type 0 where
  pub hash : List ℕ
  pub recipient : ℕ
  pub source : ℕ
  pub expires : Expiration
  pub balance : Balance

-- the id and the hash are texts, by their bytes
pub record CreateMsg : Type 0 where
  pub id : List ℕ
  pub hash : List ℕ
  pub recipient : ℕ
  pub expires : Expiration

-- `SWAPS`
abbrev pub State : Type 0
State = Map (List ℕ) AtomicSwap

pub record Env : Type 0 where
  pub sender : ℕ
  pub block : BlockInfo
  pub funds : List Coin

pub data ReceiveMsg : Type 0 where
  create_received : CreateMsg → ReceiveMsg

-- `receive` holds the sender and the amount of a `Cw20ReceiveMsg`, and its message parsed
pub data ExecuteMsg : Type 0 where
  create : CreateMsg → ExecuteMsg
  release : (id preimage : List ℕ) → ExecuteMsg
  refund : (id : List ℕ) → ExecuteMsg
  receive : (sender amount : ℕ) (msg : ReceiveMsg) → ExecuteMsg

abbrev pub Response : Type 0
Response = List Payment

abbrev pub lift : {A : Type 0} → Outcome StdError A → Outcome ContractError A
lift = map_err std

unfoldable pub is_valid_name : List ℕ → Bool
is_valid_name bytes = if ltb (length bytes) 3 || ltb 20 (length bytes) then false else true

-- the message that sends a balance
abbrev pub message : ℕ → Balance → List Payment
message to (native_balance coins) = bank_send to coins ∷ []
message to (cw20_balance coin) = cw20_transfer coin.address to coin.amount ∷ []

unfoldable pub send_tokens : ℕ → Balance → List Payment
send_tokens to amount = if balance_is_empty amount then [] else message to amount

module _ (crypto : Hashing) where
  unfoldable pub parse_hex_32 : List ℕ → Outcome ContractError (List ℕ)
  parse_hex_32 text = do
    bin ← ok_or (crypto.hex_decode text) parse_error
    if length bin == 32 then ok bin else err (invalid_hash (length bin * 2))

  unfoldable pub execute_release :
      BlockInfo → List ℕ → List ℕ → State → Outcome ContractError (State × Response)
  unfolding load
  execute_release block id preimage s = do
    swap ← lift (load id s)
    fail_if (is_expired swap.expires block) expired
    bin ← parse_hex_32 preimage
    fail_if (not (crypto.sha256 bin == swap.hash)) invalid_preimage
    ok (remove id s, send_tokens swap.recipient swap.balance)

unfoldable pub execute_refund :
    BlockInfo → List ℕ → State → Outcome ContractError (State × Response)
unfolding load
execute_refund block id s = do
  swap ← lift (load id s)
  fail_if (not (is_expired swap.expires block)) not_expired
  ok (remove id s, send_tokens swap.source swap.balance)

-- the action of `SWAPS.update`
abbrev pub first_swap : AtomicSwap → Option AtomicSwap → Outcome ContractError AtomicSwap
first_swap swap none = ok swap
first_swap swap (some _) = err already_exists

module _ ⦃api : Std⦄ (crypto : Hashing) where
  unfoldable pub execute_create :
      BlockInfo → ℕ → CreateMsg → Balance → State → Outcome ContractError (State × Response)
  unfolding update
  execute_create block sender msg balance s = do
    fail_if (not (is_valid_name msg.id)) invalid_id
    fail_if (balance_is_empty balance) empty_balance
    hash ← parse_hex_32 crypto msg.hash
    fail_if (is_expired msg.expires block) expired
    recipient ← ok_or (api.addr_validate msg.recipient) (std invalid_addr)
    let swap : AtomicSwap = record {
      hash = hash;
      recipient = recipient;
      source = sender;
      expires = msg.expires;
      balance = balance;
    }
    (_, s') ← update msg.id (first_swap swap) s
    ok (s', [])

  unfoldable pub execute_receive :
      Env → ℕ → ℕ → ReceiveMsg → State → Outcome ContractError (State × Response)
  execute_receive env sender amount (create_received msg) s = do
    from ← ok_or (api.addr_validate sender) (std invalid_addr)
    execute_create env.block from msg
        (cw20_balance (record { address = env.sender; amount = amount })) s

  unfoldable pub execute : Env → ExecuteMsg → State → Outcome ContractError (State × Response)
  execute env (create msg) s = execute_create env.block env.sender msg (native_balance env.funds) s
  execute env (release id preimage) s = execute_release crypto env.block id preimage s
  execute env (refund id) s = execute_refund env.block id s
  execute env (receive sender amount msg) s = execute_receive env sender amount msg s

-- `query_details`
unfoldable pub query_details : List ℕ → State → Outcome StdError AtomicSwap
unfolding load
query_details id s = load id s
