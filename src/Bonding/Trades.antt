-- ===== src/Bonding/Trades.antt =====
-- What a successful purchase and a successful sale of cw20-bonding have done, step by step.
use cosmwasm_plus.Prelude.{
  ℕ, ◌+◌, ◌-◌, ◌≤◌, ◌<◌, ◌≡◌, some, [], ◌∷◌, ok, nat_eq, pair_eq, u128_mod, arith, Option-cases,
  inl, inr, ok-cases,
}
use cosmwasm_plus.Std.{Std, BlockInfo}
use cosmwasm_plus.Funds.{bank_send}
use cosmwasm_plus.Funds.Payable.{must_pay}
use cosmwasm_plus.Cw20.Defs
use cosmwasm_plus.Cw20.Execute
use cosmwasm_plus.Bonding.{
  Curve, CurveFn, CurveState, State, Env, Response, token_env, execute_buy, do_sell,
}

abbrev pub silent : Response
silent = record { calls = []; payments = [] }

-- A purchase: what was paid, the curve at the new reserve, and the minting of the difference.
pub record Bought ⦃api : Std⦄ (env : Env) (curve_fn : CurveFn) (s s' : State) : Type 0 where
  pub state : CurveState
  pub payment : ℕ
  pub curve : Curve
  pub new_supply : ℕ
  pub token_response : Defs.Response
  pub before : s.curve_state ≡ some state
  pub pays : must_pay env.funds state.reserve_denom ≡ ok payment
  pub has_curve : curve_fn state.decimals ≡ some curve
  pub fits : state.reserve + payment < u128_mod
  pub on_curve : curve.supply (state.reserve + payment) ≡ some new_supply
  pub grows : state.supply ≤ new_supply
  pub mints :
      Execute.execute_mint
        (token_env env.contract env.block)
        env.sender
        (new_supply - state.supply)
        s.token
      ≡ ok (s'.token, token_response)
  pub after :
      s'.curve_state
      ≡ some (record state { reserve = state.reserve + payment; supply = new_supply })

-- A sale: the burning of the tokens, the curve at the new supply, and the payment of the difference.
pub record Sold ⦃api : Std⦄ (seller : ℕ) (block : BlockInfo) (curve_fn : CurveFn)
    (receiver amount : ℕ) (s s' : State) (r : Response) : Type 0 where
  pub state : CurveState
  pub curve : Curve
  pub new_reserve : ℕ
  pub token_response : Defs.Response
  pub burns :
      Execute.execute_burn (token_env seller block) amount s.token ≡ ok (s'.token, token_response)
  pub before : s.curve_state ≡ some state
  pub has_curve : curve_fn state.decimals ≡ some curve
  pub enough : amount ≤ state.supply
  pub on_curve : curve.reserve (state.supply - amount) ≡ some new_reserve
  pub shrinks : new_reserve ≤ state.reserve
  pub after :
      s'.curve_state ≡ some (record state { supply = state.supply - amount; reserve = new_reserve })
  pub told : r ≡ record {
    calls = [];
    payments =
        bank_send receiver
          (record { denom = state.reserve_denom; amount = state.reserve - new_reserve } ∷ [])
        ∷ [];
  }

module _ ⦃api : Std⦄ where
  -- The purchase at a stored state, with the curve and what was paid.
  bought :
      (env : Env) (curve_fn : CurveFn) (s s' : State) (r : Response) (state : CurveState)
      (payment : ℕ) (curve : Curve)
      → s.curve_state ≡ some state
      → must_pay env.funds state.reserve_denom ≡ ok payment
      → curve_fn state.decimals ≡ some curve
      → execute_buy env curve_fn s ≡ ok (s', r)
      → Bought env curve_fn s s' × (r ≡ silent)
  unfolding execute_buy
  bought env curve_fn s s' r state payment curve stored paid curved p =
      let adds = api.uint_add_lem state.reserve payment in
      elim (Option-cases (curve.supply (state.reserve + payment))) [
        | inl none_left ↦ absurd (ground arith)
        | inr (new_supply, supplied) ↦
            let subs = api.checked_sub_lem new_supply state.supply in
            elim (ok-cases (
              Execute.execute_mint (token_env env.contract env.block) env.sender
                (new_supply - state.supply) s.token)) [
                  | inl ((token, told), minted) ↦ (
                    record {
                      state = state;
                      payment = payment;
                      curve = curve;
                      new_supply = new_supply;
                      token_response = told;
                      before = stored;
                      pays = paid;
                      has_curve = curved;
                      fits = ground arith;
                      on_curve = supplied;
                      grows = ground arith;
                      mints = ground arith;
                      after = ground arith;
                    },
                    ground arith,
                  )
                  | inr failed ↦ absurd (ground arith)
                ]
      ]

  pub buy_steps :
      (env : Env) (curve_fn : CurveFn) (s s' : State) (r : Response)
      → execute_buy env curve_fn s ≡ ok (s', r)
      → Bought env curve_fn s s' × (r ≡ silent)
  unfolding execute_buy
  buy_steps env curve_fn s s' r p = elim (Option-cases s.curve_state) [
    | inl missing ↦ absurd (ground arith)
    | inr (state, stored) ↦ elim (ok-cases (must_pay env.funds state.reserve_denom)) [
      | inr refused ↦ absurd (ground arith)
      | inl (payment, paid) ↦ elim (Option-cases (curve_fn state.decimals)) [
        | inl no_curve ↦ absurd (ground arith)
        | inr (curve, curved) ↦ bought env curve_fn s s' r state payment curve stored paid curved p
      ]
    ]
  ]

  -- The sale at a stored state, with the curve and the burnt tokens.
  sold :
      (block : BlockInfo) (seller : ℕ) (curve_fn : CurveFn) (receiver amount : ℕ) (s s' : State)
      (r : Response) (state : CurveState) (curve : Curve) (token : Defs.State)
      (told : Defs.Response)
      → Execute.execute_burn (token_env seller block) amount s.token ≡ ok (token, told)
      → s.curve_state ≡ some state
      → curve_fn state.decimals ≡ some curve
      → do_sell block seller curve_fn receiver amount s ≡ ok (s', r)
      → Sold seller block curve_fn receiver amount s s' r
  unfolding do_sell
  sold block seller curve_fn receiver amount s s' r state curve token told burnt stored curved p =
      let subs = api.checked_sub_lem state.supply amount in
      elim (Option-cases (curve.reserve (state.supply - amount))) [
        | inl none_left ↦ absurd (ground arith)
        | inr (new_reserve, left) ↦
            let releases = api.checked_sub_lem state.reserve new_reserve in
            record {
              state = state;
              curve = curve;
              new_reserve = new_reserve;
              token_response = told;
              burns = ground arith;
              before = stored;
              has_curve = curved;
              enough = ground arith;
              on_curve = left;
              shrinks = ground arith;
              after = ground arith;
              told = ground arith;
            }
      ]

  pub sell_steps :
      (block : BlockInfo) (seller : ℕ) (curve_fn : CurveFn) (receiver amount : ℕ) (s s' : State)
      (r : Response)
      → do_sell block seller curve_fn receiver amount s ≡ ok (s', r)
      → Sold seller block curve_fn receiver amount s s' r
  unfolding do_sell
  sell_steps block seller curve_fn receiver amount s s' r p =
      elim (ok-cases (Execute.execute_burn (token_env seller block) amount s.token)) [
        | inr refused ↦ absurd (ground arith)
        | inl ((token, told), burnt) ↦ elim (Option-cases s.curve_state) [
          | inl missing ↦ absurd (ground arith)
          | inr (state, stored) ↦ elim (Option-cases (curve_fn state.decimals)) [
            | inl no_curve ↦ absurd (ground arith)
            | inr (curve, curved) ↦
                sold block seller curve_fn receiver amount s s' r state curve token told burnt
                  stored curved p
          ]
        ]
      ]
