-- ===== src/Bonding/Steps.antt =====
-- What a successful message of cw20-bonding has done, step by step.
use cosmwasm_plus.Prelude.{
  ℕ, ◌≡◌, refl, true, Option, none, some, List, [], ok, nat_eq, pair_eq, arith, Option-cases, inl,
  inr, ◌⊎◌, ok-cases,
}
use cosmwasm_plus.Std.{Std}
use cosmwasm_plus.Balance.{Coin}
use cosmwasm_plus.Funds.Payable.{nonpayable}
use cosmwasm_plus.Cw20.Defs
use cosmwasm_plus.Cw20.Execute
use cosmwasm_plus.Cw20.Supply.{only_moves}
use cosmwasm_plus.Bonding.Trades.{silent, Bought, Sold, buy_steps, sell_steps}
use cosmwasm_plus.Bonding.{
  CurveFn, State, Env, ExecuteMsg, Response, buy, burn, burn_from, token_env, inherit, execute_sell,
  execute_sell_from, do_execute,
}

-- The coins that a message puts into the reserve.
abbrev pub deposit : Env → ExecuteMsg → List Coin
deposit env buy = env.funds
deposit env _ = []

-- A message that only uses the token: what it is for cw20-base.
abbrev pub inherited : ExecuteMsg → Option Defs.ExecuteMsg
inherited buy = none
inherited (burn _) = none
inherited (burn_from _ _) = none
inherited (ExecuteMsg.transfer recipient amount) = some (Defs.ExecuteMsg.transfer recipient amount)
inherited (ExecuteMsg.send contract amount msg) = some (Defs.ExecuteMsg.send contract amount msg)
inherited (ExecuteMsg.increase_allowance spender amount expires) =
    some (Defs.ExecuteMsg.increase_allowance spender amount expires)
inherited (ExecuteMsg.decrease_allowance spender amount expires) =
    some (Defs.ExecuteMsg.decrease_allowance spender amount expires)
inherited (ExecuteMsg.transfer_from owner recipient amount) =
    some (Defs.ExecuteMsg.transfer_from owner recipient amount)
inherited (ExecuteMsg.send_from owner contract amount msg) =
    some (Defs.ExecuteMsg.send_from owner contract amount msg)

module _ ⦃api : Std⦄ where
  -- What a message of cw20-base leaves.
  abbrev pub Inherited : Env → List Coin → State → State → Response → Type 0
  Inherited env coins s s' r =
      (m : Defs.ExecuteMsg) × (coins ≡ [])
      × (only_moves m ≡ true)
      × (Execute.execute (token_env env.sender env.block) m s.token ≡ ok (s'.token, r.calls))
      × (s'.curve_state ≡ s.curve_state)
      × (r.payments ≡ [])

  inherit_steps :
      (env : Env) (m : Defs.ExecuteMsg) (s s' : State) (r : Response)
      → only_moves m ≡ true
      → inherit s (Execute.execute (token_env env.sender env.block) m s.token) ≡ ok (s', r)
      → Inherited env [] s s' r
  inherit_steps env m s s' r moves p =
      elim (ok-cases (Execute.execute (token_env env.sender env.block) m s.token)) [
        | inr refused ↦ absurd (ground arith)
        | inl ((token, calls), done) ↦ (m, refl, moves, ground arith, ground arith, ground arith)
      ]

  -- A successful message buys; or it sells the tokens of an account for the sender, who is that
  -- account or spends an allowance of it; or it is one of cw20-base, which neither mints nor burns.
  pub do_execute-cases :
      (curve_fn : CurveFn) (env : Env) (msg : ExecuteMsg) (s s' : State) (r : Response)
      → do_execute curve_fn env msg s ≡ ok (s', r)
      → ((msg ≡ buy) × Bought env curve_fn s s' × (r ≡ silent))
        ⊎ ((seller : ℕ) × (amount : ℕ) × (start : State) × (deposit env msg ≡ [])
            × (start.curve_state ≡ s.curve_state)
            × (start.token.token_info ≡ s.token.token_info)
            × (start.token.balances ≡ s.token.balances)
            × ((seller ≡ env.sender) × (start ≡ s)
                ⊎ (Execute.deduct_allowance seller env.sender env.block amount s.token.allowances
                    ≡ ok start.token.allowances))
            × Sold seller env.block curve_fn env.sender amount start s' r)
        ⊎ Inherited env (deposit env msg) s s' r
  unfolding do_execute Execute.execute execute_sell execute_sell_from nonpayable
  do_execute-cases curve_fn env buy s s' r p =
      let (b, quiet) = buy_steps env curve_fn s s' r p in inl (refl, b, quiet)
  do_execute-cases curve_fn env (burn amount) s s' r p = inr (
      inl (
        env.sender,
        amount,
        s,
        refl,
        refl,
        refl,
        refl,
        inl (refl, refl),
        sell_steps env.block env.sender curve_fn env.sender amount s s' r (ground arith),
      ))
  do_execute-cases curve_fn env (burn_from owner amount) s s' r p =
      elim (Option-cases (api.addr_validate owner)) [
        | inl refused ↦ absurd (ground arith)
        | inr (seller, valid) ↦
            elim (ok-cases
              (Execute.deduct_allowance seller env.sender env.block amount s.token.allowances)) [
                | inr refused ↦ absurd (ground arith)
                | inl (allowances, spent) ↦
                    let start : State = record s {
                      token = record s.token { allowances = allowances };
                    } in
                    inr (
                      inl (
                        seller,
                        amount,
                        start,
                        refl,
                        refl,
                        refl,
                        refl,
                        inr spent,
                        sell_steps env.block seller curve_fn env.sender amount start s' r
                            (ground arith),
                      ))
              ]
      ]
  do_execute-cases curve_fn env (ExecuteMsg.transfer recipient amount) s s' r p =
      inr (inr (inherit_steps env (Defs.ExecuteMsg.transfer recipient amount) s s' r refl p))
  do_execute-cases curve_fn env (ExecuteMsg.send contract amount msg) s s' r p =
      inr (inr (inherit_steps env (Defs.ExecuteMsg.send contract amount msg) s s' r refl p))
  do_execute-cases curve_fn env (ExecuteMsg.increase_allowance spender amount expires) s s' r p =
      inr (
        inr (
          inherit_steps env (Defs.ExecuteMsg.increase_allowance spender amount expires) s s' r refl
            p))
  do_execute-cases curve_fn env (ExecuteMsg.decrease_allowance spender amount expires) s s' r p =
      inr (
        inr (
          inherit_steps env (Defs.ExecuteMsg.decrease_allowance spender amount expires) s s' r refl
            p))
  do_execute-cases curve_fn env (ExecuteMsg.transfer_from owner recipient amount) s s' r p =
      inr (
        inr
          (inherit_steps env (Defs.ExecuteMsg.transfer_from owner recipient amount) s s' r refl p))
  do_execute-cases curve_fn env (ExecuteMsg.send_from owner contract amount msg) s s' r p =
      inr (
        inr (inherit_steps env (Defs.ExecuteMsg.send_from owner contract amount msg) s s' r refl p))
