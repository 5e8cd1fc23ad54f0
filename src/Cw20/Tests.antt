-- ===== src/Cw20/Tests.antt =====
-- Runs of cw20-base on concrete inputs, and the theorems at inputs that meet their hypotheses.
use cosmwasm_plus.Prelude.{
  ℕ, ◌+◌, ◌<◌, ◌≡◌, refl, none, some, [], ◌∷◌, Outcome, ok, err, arith, nat_eq,
}
use cosmwasm_plus.Mock.{mock_std, block}
use cosmwasm_plus.Storage.{may_load, save}
use cosmwasm_plus.Storage.Laws.{balance_of, sum}
use cosmwasm_plus.Expiration.{at_height, is_expired}
use cosmwasm_plus.Cw20.Defs.{expired, State, Env, ExecuteMsg, InstantiateMsg}
use cosmwasm_plus.Cw20.Execute.{
  execute, execute_transfer, execute_mint, execute_transfer_from, execute_increase_allowance,
  sub_balance, add_balance, deduct_allowance,
}
use cosmwasm_plus.Storage.Range.{range, sort, between, page_size}
use cosmwasm_plus.Cw20.Enumerable.{query_all_accounts}
use cosmwasm_plus.Cw20.Instantiate.{instantiate, validate, create_accounts}
use cosmwasm_plus.Cw20.Supply.{supply_of, IsValid, SupplyStep, execute-SupplyStep}
use cosmwasm_plus.Cw20.Authority.{Authorised, execute-Authorised}
use cosmwasm_plus.Cw20.Panics.{Overflows, execute_panics}
use cosmwasm_plus.Cw20.Runs.{run, history-IsValid}

program : Unit {0}
unfolding execute execute_transfer execute_mint execute_transfer_from execute_increase_allowance
    sub_balance add_balance deduct_allowance instantiate validate create_accounts save may_load
    is_expired
program = tt

abbrev token : InstantiateMsg
token = record {
  name = 67 ∷ 97 ∷ 115 ∷ 104 ∷ [];
  symbol = 67 ∷ 65 ∷ 83 ∷ 72 ∷ [];
  decimals = 9;
  initial_balances =
      record { address = 1; amount = 40 }
      ∷ record { address = 2; amount = 5 }
      ∷ record { address = 1; amount = 10 }
      ∷ [];
  mint = some (record { minter = 7; cap = some 100 });
}

abbrev started : State
started = record {
  contract = some (record { contract = "crates.io:cw20-base"; version = "0.8.0" });
  token_info = some (record {
    name = token.name;
    symbol = token.symbol;
    decimals = 9;
    total_supply = 55;
    mint = token.mint;
  });
  balances = (1, 10) ∷ (2, 5) ∷ [];
  allowances = [];
}

-- The account 1 is listed twice: it holds 10, and the supply counts 40 more.
starts : instantiate "0.8.0" token ≡ ok (started, [])
unfolding program
starts = refl

accounts_test : query_all_accounts (some 1) (some 5) started ≡ 2 ∷ []
unfolding query_all_accounts range sort between page_size
accounts_test = refl

abbrev caller : ℕ → Env
caller a = record { sender = a; block = block }

abbrev moved : State
moved = record started { balances = (1, 7) ∷ (2, 8) ∷ [] }

transfers : execute (caller 1) (ExecuteMsg.transfer 2 3) started ≡ ok (moved, [])
unfolding program
transfers = refl

abbrev allowed : State
allowed = record started {
  allowances = ((1, 2), record { allowance = 6; expires = at_height 101 }) ∷ [];
}

abbrev spent : State
spent = record started {
  balances = (1, 6) ∷ (2, 5) ∷ (3, 4) ∷ [];
  allowances = ((1, 2), record { allowance = 2; expires = at_height 101 }) ∷ [];
}

spends : execute (caller 2) (ExecuteMsg.transfer_from 1 3 4) allowed ≡ ok (spent, [])
unfolding program
spends = refl

spends_late :
    execute
      (record { sender = 2; block = record block { height = 101 } })
      (ExecuteMsg.transfer_from 1 3 4)
      allowed
    ≡ err expired
unfolding program
spends_late = refl

started-IsValid : IsValid started
started-IsValid = (omega arith, omega arith, refl)

execute-SupplyStep_example : SupplyStep 1 started moved
execute-SupplyStep_example =
    execute-SupplyStep (caller 1) (ExecuteMsg.transfer 2 3) started moved transfers

loses : balance_of 1 spent.balances < balance_of 1 allowed.balances
unfolding program
loses = omega arith

execute-Authorised_example : Authorised 1 (caller 2) allowed spent
execute-Authorised_example =
    execute-Authorised (caller 2) (ExecuteMsg.transfer_from 1 3 4) allowed spent 1 spends loses

history-IsValid_example :
    IsValid (run ((caller 1, ExecuteMsg.transfer 2 3) ∷ []) started)
    × (sum (run ((caller 1, ExecuteMsg.transfer 2 3) ∷ []) started).balances + 40
        ≡ supply_of (run ((caller 1, ExecuteMsg.transfer 2 3) ∷ []) started).token_info)
history-IsValid_example =
    history-IsValid "0.8.0" token ((caller 1, ExecuteMsg.transfer 2 3) ∷ []) started starts

-- A token without a cap at the largest supply: one more token is an overflow.
abbrev full : State
full = record started {
  token_info = some (record {
    name = token.name;
    symbol = token.symbol;
    decimals = 9;
    total_supply = 340282366920938463463374607431768211455;
    mint = some (record { minter = 7; cap = none });
  });
}

mint_panics : execute (caller 7) (ExecuteMsg.mint 2 1) full ≡ Outcome.panic
unfolding program
mint_panics = refl

execute_panics_example : Overflows (caller 7) (ExecuteMsg.mint 2 1) full
execute_panics_example =
    execute_panics (caller 7) (ExecuteMsg.mint 2 1) full (omega arith, omega arith, refl)
      mint_panics

abbrev amount : ℕ
amount = 3
