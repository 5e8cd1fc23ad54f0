-- ===== src/Bonding.antt =====
-- contracts/cw20-bonding/src: contract.rs, state.rs, msg.rs and error.rs. The contract is a cw20
-- token that mints itself for a payment into a reserve and burns for a part of the reserve; its
-- token handlers are those of cw20-base. `do_execute` takes the curve as an argument.
mod Tests
pub mod Trades
pub mod Steps
pub mod Pegged
pub mod Reserve
pub mod Selling
use Prim.Native.String.{String}
use cosmwasm_plus.Prelude.{
  ℕ, Option, none, some, List, [], ◌∷◌, Outcome, ok, ◌>>=◌, ◌>>◌, map_err, ok_or, or_panic,
}
use cosmwasm_plus.Std.{Std, StdError, overflow, invalid_addr, BlockInfo}
use cosmwasm_plus.Storage.{Item, load_item}
use cosmwasm_plus.Expiration.{Expiration}
use cosmwasm_plus.Cw2.{set_contract_version}
use cosmwasm_plus.Balance.{Coin}
use cosmwasm_plus.Funds.{Payment, bank_send}
use cosmwasm_plus.Funds.Payable.{PaymentError, nonpayable, must_pay}
use cosmwasm_plus.Cw20.Defs.{SubMsg}
use cosmwasm_plus.Cw20.Defs
use cosmwasm_plus.Cw20.Execute

pub data ContractError : Type 0 where
  std : StdError → ContractError
  base : Defs.ContractError → ContractError
  payment_error : PaymentError → ContractError
  unauthorized : ContractError

pub record DecimalPlaces : Type 0 where
  pub supply : ℕ
  pub reserve : ℕ

-- the trait `Curve`; `none` is a panic, and a `Decimal` is the number of its atomics
pub record Curve : Type 0 where
  pub spot_price : ℕ → Option ℕ
  pub reserve : ℕ → Option ℕ
  pub supply : ℕ → Option ℕ

abbrev pub CurveFn : Type 0
CurveFn = DecimalPlaces → Option Curve

pub data CurveType : Type 0 where
  constant_curve : (value scale : ℕ) → CurveType
  linear_curve : (slope scale : ℕ) → CurveType
  square_root_curve : (slope scale : ℕ) → CurveType

pub record CurveState : Type 0 where
  pub reserve : ℕ
  pub supply : ℕ
  pub reserve_denom : ℕ
  pub decimals : DecimalPlaces

-- the storage of cw20-base, `CURVE_STATE` and `CURVE_TYPE`
pub record State : Type 0 where
  pub token : Defs.State
  pub curve_state : Item CurveState
  pub curve_type : Item CurveType

-- `info.sender`, `info.funds`, `env.contract.address` and `env.block`
pub record Env : Type 0 where
  pub sender : ℕ
  pub funds : List Coin
  pub contract : ℕ
  pub block : BlockInfo

pub record InstantiateMsg : Type 0 where
  pub name : List ℕ
  pub symbol : List ℕ
  pub decimals : ℕ
  pub reserve_denom : ℕ
  pub reserve_decimals : ℕ
  pub curve_type : CurveType

pub data ExecuteMsg : Type 0 where
  buy : ExecuteMsg
  transfer : (recipient amount : ℕ) → ExecuteMsg
  burn : (amount : ℕ) → ExecuteMsg
  send : (contract amount : ℕ) (msg : List ℕ) → ExecuteMsg
  increase_allowance : (spender amount : ℕ) (expires : Option Expiration) → ExecuteMsg
  decrease_allowance : (spender amount : ℕ) (expires : Option Expiration) → ExecuteMsg
  transfer_from : (owner recipient amount : ℕ) → ExecuteMsg
  send_from : (owner contract amount : ℕ) (msg : List ℕ) → ExecuteMsg
  burn_from : (owner amount : ℕ) → ExecuteMsg

-- the messages of a `Response`: calls of cw20 receivers, and payments
pub record Response : Type 0 where
  pub calls : List SubMsg
  pub payments : List Payment

abbrev lift : {A : Type 0} → Outcome StdError A → Outcome ContractError A
lift = map_err std

-- the call as cw20-base sees it, made by some account
abbrev pub token_env : ℕ → BlockInfo → Defs.Env
token_env sender block = record { sender = sender; block = block }

-- `Ok(handler(…)?)` for a handler of cw20-base
abbrev pub inherit :
    State
    → Outcome Defs.ContractError (Defs.State × Defs.Response)
    → Outcome ContractError (State × Response)
inherit s result = do
  (token, calls) ← map_err base result
  ok (record s { token = token }, record { calls = calls; payments = [] })

module _ ⦃api : Std⦄ where
  -- `version` is CARGO_PKG_VERSION of the build; the storage is that of a new contract.
  unfoldable pub instantiate :
      String → Env → InstantiateMsg → Outcome ContractError (State × Response)
  unfolding set_contract_version nonpayable
  instantiate version env msg = do
    map_err payment_error (nonpayable env.funds)
    ok (
      record {
        token = record {
          contract = set_contract_version "crates.io:cw20-bonding" version;
          token_info = some (record {
            name = msg.name;
            symbol = msg.symbol;
            decimals = msg.decimals;
            total_supply = 0;
            mint = some (record { minter = env.contract; cap = none });
          });
          balances = [];
          allowances = [];
        };
        curve_state = some (record {
          reserve = 0;
          supply = 0;
          reserve_denom = msg.reserve_denom;
          decimals = record { supply = msg.decimals; reserve = msg.reserve_decimals };
        });
        curve_type = some msg.curve_type;
      },
      record { calls = []; payments = [] },
    )

  unfoldable pub execute_buy : Env → CurveFn → State → Outcome ContractError (State × Response)
  execute_buy env curve_fn s = do
    state ← lift (load_item s.curve_state)
    payment ← map_err payment_error (must_pay env.funds state.reserve_denom)
    curve ← or_panic (curve_fn state.decimals)
    reserve ← or_panic (api.uint_add state.reserve payment)
    new_supply ← or_panic (curve.supply reserve)
    minted ← ok_or (api.checked_sub new_supply state.supply) (std overflow)
    (token, _) ←
        map_err base
          (Execute.execute_mint (token_env env.contract env.block) env.sender minted s.token)
    ok (
      record s {
        token = token;
        curve_state = some (record state { reserve = reserve; supply = new_supply });
      },
      record { calls = []; payments = [] },
    )

  -- `seller` is the `info.sender` that it gets
  unfoldable pub do_sell :
      BlockInfo
      → (seller : ℕ) → CurveFn
      → (receiver amount : ℕ) → State
      → Outcome ContractError (State × Response)
  do_sell block seller curve_fn receiver amount s = do
    (token, _) ← map_err base (Execute.execute_burn (token_env seller block) amount s.token)
    state ← lift (load_item s.curve_state)
    curve ← or_panic (curve_fn state.decimals)
    supply ← ok_or (api.checked_sub state.supply amount) (std overflow)
    new_reserve ← or_panic (curve.reserve supply)
    released ← ok_or (api.checked_sub state.reserve new_reserve) (std overflow)
    ok (
      record s {
        token = token;
        curve_state = some (record state { supply = supply; reserve = new_reserve });
      },
      record {
        calls = [];
        payments =
            bank_send receiver (record { denom = state.reserve_denom; amount = released } ∷ [])
            ∷ [];
      },
    )

  unfoldable pub execute_sell : Env → CurveFn → ℕ → State → Outcome ContractError (State × Response)
  execute_sell env curve_fn amount s = do
    map_err payment_error (nonpayable env.funds)
    do_sell env.block env.sender curve_fn env.sender amount s

  unfoldable pub execute_sell_from :
      Env → CurveFn → (owner amount : ℕ) → State → Outcome ContractError (State × Response)
  execute_sell_from env curve_fn owner amount s = do
    map_err payment_error (nonpayable env.funds)
    owner_addr ← ok_or (api.addr_validate owner) (std invalid_addr)
    allowances ←
        map_err base
          (Execute.deduct_allowance owner_addr env.sender env.block amount s.token.allowances)
    do_sell env.block owner_addr curve_fn env.sender amount
        (record s { token = record s.token { allowances = allowances } })

  unfoldable pub do_execute :
      CurveFn → Env → ExecuteMsg → State → Outcome ContractError (State × Response)
  do_execute curve_fn env buy s = execute_buy env curve_fn s
  do_execute curve_fn env (burn amount) s = execute_sell env curve_fn amount s
  do_execute curve_fn env (burn_from owner amount) s = execute_sell_from env curve_fn owner amount s
  do_execute curve_fn env (transfer recipient amount) s =
      inherit s (Execute.execute_transfer (token_env env.sender env.block) recipient amount s.token)
  do_execute curve_fn env (send contract amount msg) s =
      inherit s (Execute.execute_send (token_env env.sender env.block) contract amount msg s.token)
  do_execute curve_fn env (increase_allowance spender amount expires) s = inherit s (
      Execute.execute_increase_allowance (token_env env.sender env.block) spender amount expires
        s.token)
  do_execute curve_fn env (decrease_allowance spender amount expires) s = inherit s (
      Execute.execute_decrease_allowance (token_env env.sender env.block) spender amount expires
        s.token)
  do_execute curve_fn env (transfer_from owner recipient amount) s = inherit s (
      Execute.execute_transfer_from (token_env env.sender env.block) owner recipient amount s.token)
  do_execute curve_fn env (send_from owner contract amount msg) s =
      inherit s (
        Execute.execute_send_from (token_env env.sender env.block) owner contract amount msg
          s.token)

  -- `to_curve_fn` gives the curves of curves.rs.
  unfoldable pub execute :
      (CurveType → CurveFn) → Env → ExecuteMsg → State → Outcome ContractError (State × Response)
  execute to_curve_fn env msg s = do
    curve_type ← lift (load_item s.curve_type)
    do_execute (to_curve_fn curve_type) env msg s

-- `CurveInfoResponse` is reserve, supply, spot price and denomination.
unfoldable pub query_curve_info : CurveFn → State → Outcome StdError (ℕ × ℕ × ℕ × ℕ)
query_curve_info curve_fn s = do
  state ← load_item s.curve_state
  curve ← or_panic (curve_fn state.decimals)
  spot_price ← or_panic (curve.spot_price state.supply)
  ok (state.reserve, state.supply, spot_price, state.reserve_denom)
