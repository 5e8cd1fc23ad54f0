-- ===== src/Cw1/Subkeys/Lists.antt =====
-- The queries of allowances and permissions of contracts/cw1-subkeys/src/contract.rs.
use cosmwasm_plus.Prelude.{ℕ, Option, List, false, Outcome, ok, ◌>>=◌, unwrap_or, nat_eq}
use cosmwasm_plus.Std.{Std, StdError}
use cosmwasm_plus.Storage.{may_load}
use cosmwasm_plus.Storage.Range.{nat_order, page}
use cosmwasm_plus.Pagination.{valid}
use cosmwasm_plus.Cw1.Subkeys.{Permissions, Allowance, default_allowance, State}

-- `Permissions::default`
abbrev no_permissions : Permissions
no_permissions = record {
  delegate = false;
  redelegate = false;
  undelegate = false;
  withdraw = false;
}

module _ ⦃api : Std⦄ where
  unfoldable pub query_allowance : ℕ → State → Outcome StdError Allowance
  query_allowance spender s = do
    addr ← valid spender
    ok (unwrap_or default_allowance (may_load addr s.allowances))

  unfoldable pub query_permissions : ℕ → State → Outcome StdError Permissions
  query_permissions spender s = do
    addr ← valid spender
    ok (unwrap_or no_permissions (may_load addr s.permissions))

unfoldable pub query_all_allowances : Option ℕ → Option ℕ → State → List (ℕ × Allowance)
query_all_allowances start_after limit s = page start_after limit s.allowances

unfoldable pub query_all_permissions : Option ℕ → Option ℕ → State → List (ℕ × Permissions)
query_all_permissions start_after limit s = page start_after limit s.permissions
