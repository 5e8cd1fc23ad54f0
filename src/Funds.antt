-- ===== src/Funds.antt =====
-- What is sent with a message and paid out by one: `Balance`, `Cw20CoinVerified` and `Denom` of
-- packages/cw20/src, and the two messages that pay.
pub mod Assets
pub mod Payable
use cosmwasm_plus.Prelude.{ℕ, Bool, List, ◌==◌, nat_eq}
use cosmwasm_plus.Balance.{Coin, is_empty}

pub record Cw20CoinVerified : Type 0 where
  pub address : ℕ
  pub amount : ℕ

pub data Balance : Type 0 where
  native_balance : List Coin → Balance
  cw20_balance : Cw20CoinVerified → Balance

unfoldable pub balance_is_empty : Balance → Bool
balance_is_empty (native_balance coins) = is_empty coins
balance_is_empty (cw20_balance token) = token.amount == 0

pub data Denom : Type 0 where
  native_denom : (denom : ℕ) → Denom
  cw20_denom : (address : ℕ) → Denom

-- `BankMsg::Send`, and `Cw20ExecuteMsg::Transfer` to a token contract
pub data Payment : Type 0 where
  bank_send : (to_address : ℕ) (amount : List Coin) → Payment
  cw20_transfer : (contract_addr recipient amount : ℕ) → Payment
