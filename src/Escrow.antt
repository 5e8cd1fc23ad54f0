-- ===== src/Escrow.antt =====
-- The contract cw20-escrow: contracts/cw20-escrow/src/contract.rs, state.rs and msg.rs. Funds of a
-- source go to the recipient if an arbiter approves before the end, and back otherwise.
pub mod Steps
pub mod Funds
pub mod Deciding
mod Tests
use cosmwasm_plus.Prelude.{
  ℕ, Bool, true, false, not, ◌&&◌, ◌||◌, Option, none, some, List, [], ◌∷◌, ◌++◌, map, Outcome, ok,
  err, panic, ◌>>=◌, ◌>>◌, map_err, fail_if, ok_or, or_panic, ◌==◌, nat_eq, if◌then◌else◌, ltb,
}
use cosmwasm_plus.Std.{Std, StdError, invalid_addr, BlockInfo}
use cosmwasm_plus.Storage.{Map, load, save, remove, update}
use cosmwasm_plus.Balance.{Coin}
use cosmwasm_plus.Funds.{
  Cw20CoinVerified, Balance, native_balance, cw20_balance, balance_is_empty, Payment, bank_send,
  cw20_transfer,
}

pub data ContractError : Type 0 where
  std : StdError → ContractError
  unauthorized not_in_whitelist expired empty_balance already_in_use : ContractError

pub record GenericBalance : Type 0 where
  pub native : List Coin
  pub cw20 : List Cw20CoinVerified

pub record Escrow : Type 0 where
  pub arbiter : ℕ
  pub recipient : ℕ
  pub source : ℕ
  pub end_height : Option ℕ
  pub end_time : Option ℕ
  pub balance : GenericBalance
  pub cw20_whitelist : List ℕ

pub record CreateMsg : Type 0 where
  pub id : ℕ
  pub arbiter : ℕ
  pub recipient : ℕ
  pub end_height : Option ℕ
  pub end_time : Option ℕ
  pub cw20_whitelist : Option (List ℕ)

-- `ESCROWS`
abbrev pub State : Type 0
State = Map ℕ Escrow

pub record Env : Type 0 where
  pub sender : ℕ
  pub block : BlockInfo
  pub funds : List Coin

pub data ReceiveMsg : Type 0 where
  create_received : CreateMsg → ReceiveMsg
  top_up_received : (id : ℕ) → ReceiveMsg

-- `receive` holds the sender and the amount of a `Cw20ReceiveMsg`, and its message parsed
pub data ExecuteMsg : Type 0 where
  create : CreateMsg → ExecuteMsg
  top_up : (id : ℕ) → ExecuteMsg
  approve : (id : ℕ) → ExecuteMsg
  refund : (id : ℕ) → ExecuteMsg
  receive : (sender amount : ℕ) (msg : ReceiveMsg) → ExecuteMsg

abbrev pub Response : Type 0
Response = List Payment

abbrev pub lift : {A : Type 0} → Outcome StdError A → Outcome ContractError A
lift = map_err std

abbrev pub listed : ℕ → List ℕ → Bool
listed a [] = false
listed a (t ∷ ts) = t == a || listed a ts

abbrev pub no_coins : List Coin → Bool
no_coins [] = true
no_coins (_ ∷ _) = false

unfoldable pub send_tokens : ℕ → GenericBalance → List Payment
send_tokens to balance =
    (if no_coins balance.native then [] else bank_send to balance.native ∷ [])
    ++ map (λ c. cw20_transfer c.address to c.amount) balance.cw20

-- the balance and the whitelist of a new escrow
unfoldable pub first_balance : Balance → List ℕ → GenericBalance × List ℕ
first_balance (native_balance coins) whitelist = (record { native = coins; cw20 = [] }, whitelist)
first_balance (cw20_balance token) whitelist = (
  record { native = []; cw20 = token ∷ [] },
  if listed token.address whitelist then whitelist else whitelist ++ (token.address ∷ []),
)

module _ ⦃api : Std⦄ where
  -- one coin of `add_tokens`; `none` is an overflow
  unfoldable pub add_native : Coin → List Coin → Option (List Coin)
  add_native token [] = some (token ∷ [])
  add_native token (c ∷ coins) =
      let rest = add_native token coins in
      if c.denom == token.denom
      then elim (api.uint_add c.amount token.amount) [
        | none ↦ none
        | some sum ↦ some (record c { amount = sum } ∷ coins)
      ]
      else elim rest [ none ↦ none | some coins' ↦ some (c ∷ coins') ]

  unfoldable pub add_natives : List Coin → List Coin → Option (List Coin)
  add_natives [] coins = some coins
  add_natives (token ∷ tokens) coins = elim (add_native token coins) [
    | none ↦ none
    | some coins' ↦ add_natives tokens coins'
  ]

  unfoldable pub add_cw20 :
      Cw20CoinVerified → List Cw20CoinVerified → Option (List Cw20CoinVerified)
  add_cw20 token [] = some (token ∷ [])
  add_cw20 token (c ∷ coins) =
      let rest = add_cw20 token coins in
      if c.address == token.address
      then elim (api.uint_add c.amount token.amount) [
        | none ↦ none
        | some sum ↦ some (record c { amount = sum } ∷ coins)
      ]
      else elim rest [ none ↦ none | some coins' ↦ some (c ∷ coins') ]

  unfoldable pub add_tokens : Balance → GenericBalance → Option GenericBalance
  add_tokens (native_balance tokens) b = elim (add_natives tokens b.native) [
    | none ↦ none
    | some native ↦ some (record b { native = native })
  ]
  add_tokens (cw20_balance token) b = elim (add_cw20 token b.cw20) [
    | none ↦ none
    | some cw20 ↦ some (record b { cw20 = cw20 })
  ]

  -- `Escrow::is_expired`; `none` is an overflow of the time
  unfoldable pub is_expired : BlockInfo → Escrow → Option Bool
  is_expired block escrow =
      if elim escrow.end_height [ none ↦ false | some end ↦ ltb end block.height ]
      then some true
      else elim escrow.end_time [
        | none ↦ some false
        | some end ↦ elim (api.from_seconds end) [
          | none ↦ none
          | some time ↦ some (ltb time block.time)
        ]
      ]

  unfoldable pub validate_all : List ℕ → Outcome ContractError (List ℕ)
  validate_all [] = ok []
  validate_all (a ∷ addrs) = do
    addr ← ok_or (api.addr_validate a) (std invalid_addr)
    rest ← validate_all addrs
    ok (addr ∷ rest)

  unfoldable pub addr_whitelist : CreateMsg → Outcome ContractError (List ℕ)
  addr_whitelist msg = elim msg.cw20_whitelist [ none ↦ ok [] | some v ↦ validate_all v ]

  unfoldable pub execute_create :
      CreateMsg → Balance → ℕ → State → Outcome ContractError (State × Response)
  unfolding update
  execute_create msg balance sender s = do
    fail_if (balance_is_empty balance) empty_balance
    valid ← addr_whitelist msg
    let (escrow_balance, whitelist) = first_balance balance valid
    arbiter ← ok_or (api.addr_validate msg.arbiter) (std invalid_addr)
    recipient ← ok_or (api.addr_validate msg.recipient) (std invalid_addr)
    let escrow : Escrow = record {
      arbiter = arbiter;
      recipient = recipient;
      source = sender;
      end_height = msg.end_height;
      end_time = msg.end_time;
      balance = escrow_balance;
      cw20_whitelist = whitelist;
    }
    (_, s') ←
        update msg.id (λ existing. elim existing [ none ↦ ok escrow | some _ ↦ err already_in_use ])
          s
    ok (s', [])

  abbrev accepts : Balance → List ℕ → Bool
  accepts (native_balance _) whitelist = true
  accepts (cw20_balance token) whitelist = listed token.address whitelist

  unfoldable pub execute_top_up : ℕ → Balance → State → Outcome ContractError (State × Response)
  unfolding load
  execute_top_up id balance s = do
    fail_if (balance_is_empty balance) empty_balance
    escrow ← lift (load id s)
    fail_if (not (accepts balance escrow.cw20_whitelist)) not_in_whitelist
    more ← or_panic (add_tokens balance escrow.balance)
    ok (save id (record escrow { balance = more }) s, [])

  unfoldable pub execute_approve : Env → ℕ → State → Outcome ContractError (State × Response)
  unfolding load
  execute_approve env id s = do
    escrow ← lift (load id s)
    fail_if (not (env.sender == escrow.arbiter)) unauthorized
    over ← or_panic (is_expired env.block escrow)
    fail_if over expired
    ok (remove id s, send_tokens escrow.recipient escrow.balance)

  unfoldable pub execute_refund : Env → ℕ → State → Outcome ContractError (State × Response)
  unfolding load
  execute_refund env id s = do
    escrow ← lift (load id s)
    over ← or_panic (is_expired env.block escrow)
    fail_if (not over && not (env.sender == escrow.arbiter)) unauthorized
    ok (remove id s, send_tokens escrow.source escrow.balance)

  unfoldable pub execute_receive :
      ℕ → ℕ → ℕ → ReceiveMsg → State → Outcome ContractError (State × Response)
  execute_receive token sender amount (create_received msg) s = do
    from ← ok_or (api.addr_validate sender) (std invalid_addr)
    execute_create msg (cw20_balance (record { address = token; amount = amount })) from s
  execute_receive token sender amount (top_up_received id) s =
      execute_top_up id (cw20_balance (record { address = token; amount = amount })) s

  unfoldable pub execute : Env → ExecuteMsg → State → Outcome ContractError (State × Response)
  execute env (create msg) s = execute_create msg (native_balance env.funds) env.sender s
  execute env (approve id) s = execute_approve env id s
  execute env (top_up id) s = execute_top_up id (native_balance env.funds) s
  execute env (refund id) s = execute_refund env id s
  execute env (receive sender amount msg) s = execute_receive env.sender sender amount msg s
