-- ===== src/Cw20/Steps.antt =====
-- What a successful call of each handler of cw20-base has done, step by step.
use cosmwasm_plus.Prelude.{
  ℕ, ◌+◌, ◌<◌, ◌≡◌, true, false, Option, some, List, [], ◌∷◌, ok, ◌==◌, nat_eq, pair_eq, u128_mod,
  arith, Option-cases, inl, inr,
}
use cosmwasm_plus.Std.{Std}
use cosmwasm_plus.Storage.{Map}
use cosmwasm_plus.Expiration.{Expiration}
use cosmwasm_plus.Cw20.Defs.{TokenInfo, State, Env, Response, get_cap, into_cosmos_msg}
use cosmwasm_plus.Cw20.Execute.{
  sub_balance, add_balance, sub_supply, deduct_allowance, execute_transfer, execute_burn,
  execute_mint, execute_send, execute_increase_allowance, execute_decrease_allowance,
  execute_transfer_from, execute_burn_from, execute_send_from, is_minter, exceeds,
}

module _ ⦃api : Std⦄ where
  -- A debit of one account, then a credit of the same amount to another.
  abbrev pub Moved : ℕ → ℕ → ℕ → Map ℕ ℕ → Map ℕ ℕ → Type 0
  Moved from to x m m' =
      (between : Map ℕ ℕ) × (sub_balance from x m ≡ ok between) × (add_balance to x between ≡ ok m')

  pub transfer_steps :
      (env : Env) (recipient x : ℕ) (s : State) {s' : State} {r : Response}
      → execute_transfer env recipient x s ≡ ok (s', r)
      → (to : ℕ) × (api.addr_validate recipient ≡ some to)
        × ((x == 0) ≡ false)
        × Moved env.sender to x s.balances s'.balances
        × (s' ≡ record s { balances = s'.balances })
        × (r ≡ [])
  unfolding execute_transfer
  transfer_steps env recipient x s p = ground arith

  pub send_steps :
      (env : Env) (contract x : ℕ) (msg : List ℕ) (s : State) {s' : State} {r : Response}
      → execute_send env contract x msg s ≡ ok (s', r)
      → (to : ℕ) × (api.addr_validate contract ≡ some to)
        × ((x == 0) ≡ false)
        × Moved env.sender to x s.balances s'.balances
        × (s' ≡ record s { balances = s'.balances })
        × (r
            ≡ into_cosmos_msg (record { sender = env.sender; amount = x; msg = msg }) contract ∷ [])
  unfolding execute_send
  send_steps env contract x msg s p = ground arith

  pub burn_steps :
      (env : Env) (x : ℕ) (s : State) {s' : State} {r : Response}
      → execute_burn env x s ≡ ok (s', r)
      → ((x == 0) ≡ false)
        × (sub_balance env.sender x s.balances ≡ ok s'.balances)
        × (sub_supply x s.token_info ≡ ok s'.token_info)
        × (s' ≡ record s { balances = s'.balances; token_info = s'.token_info })
        × (r ≡ [])
  unfolding execute_burn
  burn_steps env x s p = ground arith

  pub mint_steps :
      (env : Env) (recipient x : ℕ) (s : State) {s' : State} {r : Response}
      → execute_mint env recipient x s ≡ ok (s', r)
      → (config : TokenInfo) × (s.token_info ≡ some config)
        × (((x == 0) ≡ false)
            × (is_minter config.mint env.sender ≡ true)
            × (config.total_supply + x < u128_mod)
            × (exceeds (config.total_supply + x) (get_cap config) ≡ false)
            × ((to : ℕ) × (api.addr_validate recipient ≡ some to)
                × (add_balance to x s.balances ≡ ok s'.balances))
            × (s' ≡ record s {
              token_info = some (record config { total_supply = config.total_supply + x });
              balances = s'.balances;
            })
            × (r ≡ []))
  unfolding execute_mint
  mint_steps env recipient x s p = elim (Option-cases s.token_info) [
    | inl missing ↦ absurd (ground arith)
    | inr (config, e) ↦ (config, e, ground (arith, api.uint_add_lem config.total_supply x))
  ]

  pub increase_steps :
      (env : Env) (spender x : ℕ) (expires : Option Expiration) (s : State) {s' : State}
      {r : Response}
      → execute_increase_allowance env spender x expires s ≡ ok (s', r)
      → (to : ℕ) × (api.addr_validate spender ≡ some to)
        × ((to == env.sender) ≡ false)
        × (s' ≡ record s { allowances = s'.allowances })
        × (r ≡ [])
  unfolding execute_increase_allowance
  increase_steps env spender x expires s p = ground arith

  pub decrease_steps :
      (env : Env) (spender x : ℕ) (expires : Option Expiration) (s : State) {s' : State}
      {r : Response}
      → execute_decrease_allowance env spender x expires s ≡ ok (s', r)
      → (to : ℕ) × (api.addr_validate spender ≡ some to)
        × ((to == env.sender) ≡ false)
        × (s' ≡ record s { allowances = s'.allowances })
        × (r ≡ [])
  unfolding execute_decrease_allowance
  decrease_steps env spender x expires s p = ground arith

  pub transfer_from_steps :
      (env : Env) (owner recipient x : ℕ) (s : State) {s' : State} {r : Response}
      → execute_transfer_from env owner recipient x s ≡ ok (s', r)
      → (to : ℕ) × (from : ℕ) × (api.addr_validate recipient ≡ some to)
        × (api.addr_validate owner ≡ some from)
        × (deduct_allowance from env.sender env.block x s.allowances ≡ ok s'.allowances)
        × Moved from to x s.balances s'.balances
        × (s' ≡ record s { balances = s'.balances; allowances = s'.allowances })
        × (r ≡ [])
  unfolding execute_transfer_from
  transfer_from_steps env owner recipient x s p = ground arith

  pub send_from_steps :
      (env : Env) (owner contract x : ℕ) (msg : List ℕ) (s : State) {s' : State} {r : Response}
      → execute_send_from env owner contract x msg s ≡ ok (s', r)
      → (to : ℕ) × (from : ℕ) × (api.addr_validate contract ≡ some to)
        × (api.addr_validate owner ≡ some from)
        × (deduct_allowance from env.sender env.block x s.allowances ≡ ok s'.allowances)
        × Moved from to x s.balances s'.balances
        × (s' ≡ record s { balances = s'.balances; allowances = s'.allowances })
        × (r
            ≡ into_cosmos_msg (record { sender = env.sender; amount = x; msg = msg }) contract ∷ [])
  unfolding execute_send_from
  send_from_steps env owner contract x msg s p = ground arith

  pub burn_from_steps :
      (env : Env) (owner x : ℕ) (s : State) {s' : State} {r : Response}
      → execute_burn_from env owner x s ≡ ok (s', r)
      → (from : ℕ) × (api.addr_validate owner ≡ some from)
        × (deduct_allowance from env.sender env.block x s.allowances ≡ ok s'.allowances)
        × (sub_balance from x s.balances ≡ ok s'.balances)
        × (sub_supply x s.token_info ≡ ok s'.token_info)
        × (s' ≡ record s {
          balances = s'.balances;
          allowances = s'.allowances;
          token_info = s'.token_info;
        })
        × (r ≡ [])
  unfolding execute_burn_from
  burn_from_steps env owner x s p = ground arith
