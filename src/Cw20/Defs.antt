-- ===== src/Cw20/Defs.antt =====
-- State, errors and messages of contracts/cw20-base/src/state.rs, error.rs and msg.rs, and of
-- packages/cw20/src. An address is a number, which is compared only; a name, a symbol and a
-- `Binary` are their bytes.
use cosmwasm_plus.Prelude.{ℕ, List, Option, none, some}
use cosmwasm_plus.Std.{StdError, BlockInfo}
use cosmwasm_plus.Storage.{Map, Item}
use cosmwasm_plus.Cw2.{ContractVersion}
use cosmwasm_plus.Expiration.{Expiration, default_expiration}

pub data ContractError : Type 0 where
  std : StdError → ContractError
  unauthorized : ContractError
  cannot_set_own_account : ContractError
  invalid_zero_amount : ContractError
  expired : ContractError
  no_allowance : ContractError
  cannot_exceed_cap : ContractError

pub record MinterData : Type 0 where
  pub minter : ℕ
  pub cap : Option ℕ

pub record TokenInfo : Type 0 where
  pub name : List ℕ
  pub symbol : List ℕ
  pub decimals : ℕ
  pub total_supply : ℕ
  pub mint : Option MinterData

-- `as_ref().and_then(|v| v.cap)`
abbrev pub cap_of : Option MinterData → Option ℕ
cap_of none = none
cap_of (some v) = v.cap

abbrev pub get_cap : TokenInfo → Option ℕ
get_cap t = cap_of t.mint

pub record AllowanceResponse : Type 0 where
  pub allowance : ℕ
  pub expires : Expiration

-- `AllowanceResponse::default`
abbrev pub default_allowance : AllowanceResponse
default_allowance = record { allowance = 0; expires = default_expiration }

-- `TOKEN_INFO`, `BALANCES`, `ALLOWANCES` (keyed by owner and spender) and cw2's `CONTRACT`
pub record State : Type 0 where
  pub contract : Item ContractVersion
  pub token_info : Item TokenInfo
  pub balances : Map ℕ ℕ
  pub allowances : Map (ℕ × ℕ) AllowanceResponse

pub record Cw20Coin : Type 0 where
  pub address : ℕ
  pub amount : ℕ

-- `mint` is a `MinterResponse`, whose `minter` is not validated yet.
pub record InstantiateMsg : Type 0 where
  pub name : List ℕ
  pub symbol : List ℕ
  pub decimals : ℕ
  pub initial_balances : List Cw20Coin
  pub mint : Option MinterData

pub data ExecuteMsg : Type 0 where
  transfer : (recipient amount : ℕ) → ExecuteMsg
  burn : (amount : ℕ) → ExecuteMsg
  send : (contract amount : ℕ) (msg : List ℕ) → ExecuteMsg
  mint : (recipient amount : ℕ) → ExecuteMsg
  increase_allowance : (spender amount : ℕ) (expires : Option Expiration) → ExecuteMsg
  decrease_allowance : (spender amount : ℕ) (expires : Option Expiration) → ExecuteMsg
  transfer_from : (owner recipient amount : ℕ) → ExecuteMsg
  send_from : (owner contract amount : ℕ) (msg : List ℕ) → ExecuteMsg
  burn_from : (owner amount : ℕ) → ExecuteMsg

pub record Cw20ReceiveMsg : Type 0 where
  pub sender : ℕ
  pub amount : ℕ
  pub msg : List ℕ

-- `WasmMsg::Execute` with no funds, as `into_cosmos_msg` builds it
pub record SubMsg : Type 0 where
  pub contract_addr : ℕ
  pub msg : Cw20ReceiveMsg

abbrev pub into_cosmos_msg : Cw20ReceiveMsg → ℕ → SubMsg
into_cosmos_msg msg contract_addr = record { contract_addr = contract_addr; msg = msg }

-- The messages of a `Response`; its attributes are a log and are left out.
abbrev pub Response : Type 0
Response = List SubMsg

-- `info.sender` and `env.block` of a call
pub record Env : Type 0 where
  pub sender : ℕ
  pub block : BlockInfo
