-- ===== src/Cw20/Enumerable.antt =====
-- The paginated queries of cw20-base: contracts/cw20-base/src/enumerable.rs.
use cosmwasm_plus.Prelude.{ℕ, Option, List, map, Outcome, ok, ◌>>=◌}
use cosmwasm_plus.Std.{Std, StdError}
use cosmwasm_plus.Storage.Range.{nat_order, prefix, page}
use cosmwasm_plus.Pagination.{valid}
use cosmwasm_plus.Cw20.Defs.{State, AllowanceResponse}

module _ ⦃api : Std⦄ where
  -- each spender with its allowance
  unfoldable pub query_all_allowances :
      ℕ → Option ℕ → Option ℕ → State → Outcome StdError (List (ℕ × AllowanceResponse))
  query_all_allowances owner start_after limit s = do
    owner_addr ← valid owner
    ok (page start_after limit (prefix owner_addr s.allowances))

unfoldable pub query_all_accounts : Option ℕ → Option ℕ → State → List ℕ
query_all_accounts start_after limit s = map (λ e. e.0) (page start_after limit s.balances)
