-- ===== src/Cw20/Execute.antt =====
-- `execute` of contracts/cw20-base/src/contract.rs and its handlers, also those of allowances.rs.
use cosmwasm_plus.Prelude.{
  ℕ, Bool, false, Option, none, some, List, [], ◌∷◌, Outcome, ok, ◌>>=◌, ◌>>◌, map_err, fail_if,
  ok_or, or_panic, ◌==◌, not, nat_eq, pair_eq, unwrap_or, ltb, if◌then◌else◌,
}
use cosmwasm_plus.Std.{Std, StdError, overflow, invalid_addr, BlockInfo}
use cosmwasm_plus.Storage.{Map, Item, save, remove, load, update, load_item}
use cosmwasm_plus.Expiration.{Expiration, is_expired}
use cosmwasm_plus.Cw20.Defs.{
  ContractError, std, unauthorized, cannot_set_own_account, invalid_zero_amount, expired,
  no_allowance, cannot_exceed_cap, MinterData, TokenInfo, get_cap, AllowanceResponse,
  default_allowance, State, ExecuteMsg, into_cosmos_msg, Response, Env,
}

-- `?` on a `StdResult`
abbrev pub lift : {A : Type 0} → Outcome StdError A → Outcome ContractError A
lift = map_err std

-- the action of `ALLOWANCES.update` in `execute_increase_allowance`, up to `val.allowance += amount`
abbrev pub with_expires : Option Expiration → AllowanceResponse → AllowanceResponse
with_expires none val = val
with_expires (some exp) val = record val { expires = exp }

-- `config.mint.is_none() || config.mint.as_ref().unwrap().minter != info.sender`
abbrev pub is_minter : Option MinterData → ℕ → Bool
is_minter none sender = false
is_minter (some m) sender = m.minter == sender

-- `if let Some(limit) = cap { if total_supply > limit … }`
abbrev pub exceeds : ℕ → Option ℕ → Bool
exceeds supply none = false
exceeds supply (some limit) = ltb limit supply

module _ ⦃api : Std⦄ where
  abbrev pub addr_validate : ℕ → Outcome ContractError ℕ
  addr_validate addr = ok_or (api.addr_validate addr) (std invalid_addr)

  -- `BALANCES.update(…, |balance| Ok(balance.unwrap_or_default().checked_sub(amount)?))?`
  unfoldable pub sub_balance : ℕ → ℕ → Map ℕ ℕ → Outcome ContractError (Map ℕ ℕ)
  unfolding update
  sub_balance addr amount balances = do
    (_, balances') ← lift (
        update addr (λ balance. ok_or (api.checked_sub (unwrap_or 0 balance) amount) overflow)
          balances)
    ok balances'

  -- `BALANCES.update(…, |balance| Ok(balance.unwrap_or_default() + amount))?`
  unfoldable pub add_balance : ℕ → ℕ → Map ℕ ℕ → Outcome ContractError (Map ℕ ℕ)
  unfolding update
  add_balance addr amount balances = do
    (_, balances') ←
        lift
          (update addr (λ balance. or_panic (api.uint_add (unwrap_or 0 balance) amount)) balances)
    ok balances'

  -- `TOKEN_INFO.update(…, |mut info| { info.total_supply = info.total_supply.checked_sub(amount)?; … })?`
  unfoldable pub sub_supply : ℕ → Item TokenInfo → Outcome ContractError (Item TokenInfo)
  sub_supply amount item = do
    info ← lift (load_item item)
    supply ← ok_or (api.checked_sub info.total_supply amount) (std overflow)
    ok (some (record info { total_supply = supply }))

  unfoldable pub execute_transfer : Env → ℕ → ℕ → State → Outcome ContractError (State × Response)
  execute_transfer env recipient amount s = do
    fail_if (amount == 0) invalid_zero_amount
    rcpt_addr ← addr_validate recipient
    debited ← sub_balance env.sender amount s.balances
    credited ← add_balance rcpt_addr amount debited
    ok (record s { balances = credited }, [])

  unfoldable pub execute_burn : Env → ℕ → State → Outcome ContractError (State × Response)
  execute_burn env amount s = do
    fail_if (amount == 0) invalid_zero_amount
    debited ← sub_balance env.sender amount s.balances
    info ← sub_supply amount s.token_info
    ok (record s { balances = debited; token_info = info }, [])

  unfoldable pub execute_mint : Env → ℕ → ℕ → State → Outcome ContractError (State × Response)
  execute_mint env recipient amount s = do
    fail_if (amount == 0) invalid_zero_amount
    config ← lift (load_item s.token_info)
    fail_if (not (is_minter config.mint env.sender)) unauthorized
    supply ← or_panic (api.uint_add config.total_supply amount)
    fail_if (exceeds supply (get_cap config)) cannot_exceed_cap
    rcpt_addr ← addr_validate recipient
    credited ← add_balance rcpt_addr amount s.balances
    ok (
      record s { token_info = some (record config { total_supply = supply }); balances = credited },
      [],
    )

  unfoldable pub execute_send :
      Env → ℕ → ℕ → List ℕ → State → Outcome ContractError (State × Response)
  execute_send env contract amount msg s = do
    fail_if (amount == 0) invalid_zero_amount
    rcpt_addr ← addr_validate contract
    debited ← sub_balance env.sender amount s.balances
    credited ← add_balance rcpt_addr amount debited
    ok (
      record s { balances = credited },
      into_cosmos_msg (record { sender = env.sender; amount = amount; msg = msg }) contract ∷ [],
    )

  unfoldable pub execute_increase_allowance :
      Env → ℕ → ℕ → Option Expiration → State → Outcome ContractError (State × Response)
  unfolding update
  execute_increase_allowance env spender amount expires s = do
    spender_addr ← addr_validate spender
    fail_if (spender_addr == env.sender) cannot_set_own_account
    (_, allowances) ← lift (
        update (env.sender, spender_addr)
          (λ allow. do
            let val = with_expires expires (unwrap_or default_allowance allow)
            sum ← or_panic (api.uint_add val.allowance amount)
            ok (record val { allowance = sum }))
          s.allowances)
    ok (record s { allowances = allowances }, [])

  unfoldable pub execute_decrease_allowance :
      Env → ℕ → ℕ → Option Expiration → State → Outcome ContractError (State × Response)
  unfolding load
  execute_decrease_allowance env spender amount expires s = do
    spender_addr ← addr_validate spender
    fail_if (spender_addr == env.sender) cannot_set_own_account
    let key : ℕ × ℕ = (env.sender, spender_addr)
    allowance ← lift (load key s.allowances)
    allowances ←
        if ltb amount allowance.allowance
        then (do
          left ← ok_or (api.checked_sub allowance.allowance amount) (std overflow)
          ok (save key (with_expires expires (record allowance { allowance = left })) s.allowances))
        else ok (remove key s.allowances)
    ok (record s { allowances = allowances }, [])

  unfoldable pub deduct_allowance :
      ℕ
      → ℕ
      → BlockInfo
      → ℕ
      → Map (ℕ × ℕ) AllowanceResponse
      → Outcome ContractError (Map (ℕ × ℕ) AllowanceResponse)
  unfolding update
  deduct_allowance owner spender block amount allowances = do
    (_, allowances') ←
        update (owner, spender)
          (λ current. do
            a ← ok_or current no_allowance
            fail_if (is_expired a.expires block) expired
            left ← ok_or (api.checked_sub a.allowance amount) (std overflow)
            ok (record a { allowance = left }))
          allowances
    ok allowances'

  unfoldable pub execute_transfer_from :
      Env → ℕ → ℕ → ℕ → State → Outcome ContractError (State × Response)
  execute_transfer_from env owner recipient amount s = do
    rcpt_addr ← addr_validate recipient
    owner_addr ← addr_validate owner
    allowances ← deduct_allowance owner_addr env.sender env.block amount s.allowances
    debited ← sub_balance owner_addr amount s.balances
    credited ← add_balance rcpt_addr amount debited
    ok (record s { allowances = allowances; balances = credited }, [])

  unfoldable pub execute_burn_from : Env → ℕ → ℕ → State → Outcome ContractError (State × Response)
  execute_burn_from env owner amount s = do
    owner_addr ← addr_validate owner
    allowances ← deduct_allowance owner_addr env.sender env.block amount s.allowances
    debited ← sub_balance owner_addr amount s.balances
    info ← sub_supply amount s.token_info
    ok (record s { allowances = allowances; balances = debited; token_info = info }, [])

  unfoldable pub execute_send_from :
      Env → ℕ → ℕ → ℕ → List ℕ → State → Outcome ContractError (State × Response)
  execute_send_from env owner contract amount msg s = do
    rcpt_addr ← addr_validate contract
    owner_addr ← addr_validate owner
    allowances ← deduct_allowance owner_addr env.sender env.block amount s.allowances
    debited ← sub_balance owner_addr amount s.balances
    credited ← add_balance rcpt_addr amount debited
    ok (
      record s { allowances = allowances; balances = credited },
      into_cosmos_msg (record { sender = env.sender; amount = amount; msg = msg }) contract ∷ [],
    )

  unfoldable pub execute : Env → ExecuteMsg → State → Outcome ContractError (State × Response)
  execute env (ExecuteMsg.transfer recipient amount) = execute_transfer env recipient amount
  execute env (ExecuteMsg.burn amount) = execute_burn env amount
  execute env (ExecuteMsg.send contract amount msg) = execute_send env contract amount msg
  execute env (ExecuteMsg.mint recipient amount) = execute_mint env recipient amount
  execute env (ExecuteMsg.increase_allowance spender amount expires) =
      execute_increase_allowance env spender amount expires
  execute env (ExecuteMsg.decrease_allowance spender amount expires) =
      execute_decrease_allowance env spender amount expires
  execute env (ExecuteMsg.transfer_from owner recipient amount) =
      execute_transfer_from env owner recipient amount
  execute env (ExecuteMsg.burn_from owner amount) = execute_burn_from env owner amount
  execute env (ExecuteMsg.send_from owner contract amount msg) =
      execute_send_from env owner contract amount msg
