-- ===== src/Cw20/Query.antt =====
-- The queries of cw20-base: `query` of contracts/cw20-base/src/contract.rs, `query_allowance` of
-- allowances.rs. A response is the queried value.
use cosmwasm_plus.Prelude.{ℕ, Option, List, Outcome, ok, ◌>>=◌, ok_or, nat_eq, pair_eq, unwrap_or}
use cosmwasm_plus.Std.{Std, StdError, invalid_addr}
use cosmwasm_plus.Storage.{may_load, load_item}
use cosmwasm_plus.Cw20.Defs.{State, AllowanceResponse, default_allowance, MinterData}

module _ ⦃api : Std⦄ where
  unfoldable pub query_balance : ℕ → State → Outcome StdError ℕ
  query_balance address s = do
    addr ← ok_or (api.addr_validate address) invalid_addr
    ok (unwrap_or 0 (may_load addr s.balances))

  -- `TokenInfoResponse` is the token's information without its minter.
  unfoldable pub query_token_info : State → Outcome StdError (List ℕ × List ℕ × ℕ × ℕ)
  query_token_info s = do
    info ← load_item s.token_info
    ok (info.name, info.symbol, info.decimals, info.total_supply)

  unfoldable pub query_minter : State → Outcome StdError (Option MinterData)
  query_minter s = do meta ← load_item s.token_info; ok meta.mint

  unfoldable pub query_allowance : ℕ → ℕ → State → Outcome StdError AllowanceResponse
  query_allowance owner spender s = do
    owner_addr ← ok_or (api.addr_validate owner) invalid_addr
    spender_addr ← ok_or (api.addr_validate spender) invalid_addr
    ok (unwrap_or default_allowance (may_load (owner_addr, spender_addr) s.allowances))
