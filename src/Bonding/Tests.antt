-- ===== src/Bonding/Tests.antt =====
-- A contract at the address 50 with the reserve token 2, whose curve asks two of it for each token.
-- The address 7 holds 60 of the 100 tokens.
use cosmwasm_plus.Prelude.{
  ◌⊎◌, ◌+◌, ◌≡◌, refl, none, some, [], ◌∷◌, ok, err, arith, nat_eq, pair_eq, ◌*◌, ◌/◌,
}
use cosmwasm_plus.Mock.{mock_std, block}
use cosmwasm_plus.Storage.{save, may_load}
use cosmwasm_plus.Funds.{native_balance}
use cosmwasm_plus.Funds.Assets.{coin_of, in_funds, paid}
use cosmwasm_plus.Funds.Payable.{
  nonpayable, must_pay, may_pay, one_coin, mismatch, no_funds, non_payable, extra_denom,
}
use cosmwasm_plus.Cw20.Defs
use cosmwasm_plus.Cw20.Execute
use cosmwasm_plus.Bonding.{
  payment_error, base, Curve, CurveFn, CurveType, State, Env, buy, burn, burn_from, do_execute,
  execute, execute_buy, execute_sell, execute_sell_from, do_sell, query_curve_info,
}
use cosmwasm_plus.Bonding.Trades.{silent}
use cosmwasm_plus.Bonding.Steps.{deposit}
use cosmwasm_plus.Bonding.Pegged.{IsPegged, do_execute-IsPegged}
use cosmwasm_plus.Bonding.Reserve.{in_reserve, reserve_asset, do_execute_reserve}
use cosmwasm_plus.Bonding.Selling.{payout, holder_can_sell, execute_sell-execute_buy}

program : Unit {0}
unfolding do_execute execute execute_buy execute_sell execute_sell_from do_sell nonpayable must_pay
    one_coin save may_load Execute.execute_mint Execute.execute_burn Execute.sub_balance
    Execute.add_balance Execute.sub_supply Execute.deduct_allowance query_curve_info
program = tt

abbrev curve : Curve
curve = record {
  spot_price = λ supply. some 2_000_000_000_000_000_000;
  reserve = λ supply. some (supply * 2);
  supply = λ reserve. some (reserve / 2);
}

abbrev curve_fn : CurveFn
curve_fn places = some curve

abbrev start : State
start = record {
  token = record {
    contract = none;
    token_info = some (record {
      name = [];
      symbol = [];
      decimals = 2;
      total_supply = 100;
      mint = some (record { minter = 50; cap = none });
    });
    balances = (7, 60) ∷ (8, 40) ∷ [];
    allowances = [];
  };
  curve_state = some (record {
    reserve = 200;
    supply = 100;
    reserve_denom = 2;
    decimals = record { supply = 2; reserve = 6 };
  });
  curve_type = some (CurveType.constant_curve 2 0);
}

abbrev env : Env
env = record {
  sender = 7;
  funds = record { denom = 2; amount = 31 } ∷ [];
  contract = 50;
  block = block;
}

abbrev unpaid : Env
unpaid = record env { funds = [] }

abbrev bought : State
bought = record {
  token = record start.token {
    token_info = some (record {
      name = [];
      symbol = [];
      decimals = 2;
      total_supply = 115;
      mint = some (record { minter = 50; cap = none });
    });
    balances = (7, 75) ∷ (8, 40) ∷ [];
  };
  curve_state = some (record {
    reserve = 231;
    supply = 115;
    reserve_denom = 2;
    decimals = record { supply = 2; reserve = 6 };
  });
  curve_type = start.curve_type;
}

buy_test : do_execute curve_fn env buy start ≡ ok (bought, silent)
unfolding program
buy_test = refl

stored_curve_test : execute (λ t. curve_fn) env buy start ≡ ok (bought, silent)
unfolding program
stored_curve_test = refl

unpaid_test : do_execute curve_fn unpaid buy start ≡ err (payment_error no_funds)
unfolding program
unpaid_test = refl

paid_sale_test : do_execute curve_fn env (burn 5) start ≡ err (payment_error non_payable)
unfolding program
paid_sale_test = refl

no_allowance_test : do_execute curve_fn unpaid (burn_from 8 5) start ≡ err (base Defs.no_allowance)
unfolding program
no_allowance_test = refl

query_test : query_curve_info curve_fn bought ≡ ok (231, 115, 2_000_000_000_000_000_000, 2)
unfolding program
query_test = refl

may_pay_test :
    may_pay (record { denom = 2; amount = 3 } ∷ record { denom = 5; amount = 1 } ∷ []) 2
    ≡ err (extra_denom 5)
unfolding may_pay mismatch
may_pay_test = refl

start-IsPegged : IsPegged 50 start
start-IsPegged = record {
  state = record {
    reserve = 200;
    supply = 100;
    reserve_denom = 2;
    decimals = record { supply = 2; reserve = 6 };
  };
  info = record {
    name = [];
    symbol = [];
    decimals = 2;
    total_supply = 100;
    mint = some (record { minter = 50; cap = none });
  };
  curves = refl;
  tokens = refl;
  issued = refl;
  mints_itself = refl;
  token_is_valid = (omega arith, omega arith, refl);
}

do_execute-IsPegged_example : IsPegged 50 bought
do_execute-IsPegged_example =
    do_execute-IsPegged curve_fn env buy start bought silent start-IsPegged buy_test

do_execute_reserve_example :
    (in_reserve (coin_of 2) bought.curve_state + paid (coin_of 2) []
      ≡ in_reserve (coin_of 2) start.curve_state
        + in_funds (coin_of 2) (native_balance (deposit env buy)))
    × ((reserve_asset start.curve_state ≡ some (coin_of 2))
        ⊎ ((in_funds (coin_of 2) (native_balance (deposit env buy)) ≡ 0)
            × (paid (coin_of 2) [] ≡ 0)))
do_execute_reserve_example =
    do_execute_reserve (coin_of 2) curve_fn env buy start bought silent buy_test

holder_can_sell_example :
    (s' : State) × (execute_sell unpaid curve_fn 10 start ≡ ok (s', payout 7 2 20))
    × (s'.curve_state
        ≡ some (record {
          reserve = 180;
          supply = 90;
          reserve_denom = 2;
          decimals = record { supply = 2; reserve = 6 };
        }))
unfolding may_load
holder_can_sell_example =
    holder_can_sell curve_fn unpaid 10 180 start
      (record {
        reserve = 200;
        supply = 100;
        reserve_denom = 2;
        decimals = record { supply = 2; reserve = 6 };
      })
      curve start-IsPegged refl refl refl (omega arith) (omega arith) refl (omega arith)

execute_sell-execute_buy_example :
    (s'' : State) × (execute_sell unpaid curve_fn 15 bought ≡ ok (s'', payout 7 2 31))
    × (s''.curve_state ≡ start.curve_state)
unfolding program
execute_sell-execute_buy_example =
    execute_sell-execute_buy curve_fn env unpaid 31 115 start bought silent
      (record {
        reserve = 200;
        supply = 100;
        reserve_denom = 2;
        decimals = record { supply = 2; reserve = 6 };
      })
      curve start-IsPegged refl refl refl refl refl buy_test refl refl refl
