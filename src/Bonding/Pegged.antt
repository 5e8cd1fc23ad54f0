-- ===== src/Bonding/Pegged.antt =====
-- The supply of the curve and the supply of the token, and the reserve that backs them.
use cosmwasm_plus.Prelude.{
  ℕ, ◌+◌, ◌-◌, ◌≡◌, none, some, ok, nat_eq, pair_eq, arith, inl, inr, ap, sym, ◌∙◌,
}
use cosmwasm_plus.Std.{Std, BlockInfo}
use cosmwasm_plus.Cw20.Defs.{TokenInfo}
use cosmwasm_plus.Cw20.Defs
use cosmwasm_plus.Cw20.Execute
use cosmwasm_plus.Cw20.Steps.{mint_steps, burn_steps}
use cosmwasm_plus.Cw20.Balances.{sub_supply-eq-ok}
use cosmwasm_plus.Cw20.Supply.{IsValid, execute_keeps, execute-IsValid}
use cosmwasm_plus.Bonding.{
  CurveFn, CurveState, State, Env, ExecuteMsg, Response, token_env, do_execute,
}
use cosmwasm_plus.Bonding.Trades.{Bought, Sold}
use cosmwasm_plus.Bonding.Steps.{do_execute-cases}

-- The token supply is what the curve has issued, only the contract mints and burns, without a cap,
-- and the token is valid: its balances add up to at most its supply, which is within u128.
pub record IsPegged (contract : ℕ) (s : State) : Type 0 where
  pub state : CurveState
  pub info : TokenInfo
  pub curves : s.curve_state ≡ some state
  pub tokens : s.token.token_info ≡ some info
  pub issued : state.supply ≡ info.total_supply
  pub mints_itself : info.mint ≡ some (record { minter = contract; cap = none })
  pub token_is_valid : IsValid s.token

module _ ⦃api : Std⦄ where
  pub Bought-IsPegged :
      (env : Env) (curve_fn : CurveFn) (s s' : State)
      → IsPegged env.contract s
      → Bought env curve_fn s s'
      → IsPegged env.contract s'
  unfolding Execute.execute
  Bought-IsPegged env curve_fn s s' peg b =
      let minted = b.new_supply - b.state.supply in
      let (info, had, (_, _, _, _, _, left, _)) =
        mint_steps (token_env env.contract env.block) env.sender minted s.token b.mints in
      let same_info : peg.info ≡ info = ground arith in
      let same_state : peg.state ≡ b.state = ground arith in
      let grows = b.grows in
      record {
        state = record b.state { reserve = b.state.reserve + b.payment; supply = b.new_supply };
        info = record info { total_supply = info.total_supply + minted };
        curves = b.after;
        tokens = ap (λ t. t.token_info) left;
        issued =
            omega (
              arith,
              peg.issued,
              ap (λ t. t.total_supply) same_info,
              ap (λ c. c.supply) same_state,
            );
        mints_itself = sym (ap (λ t. t.mint) same_info) ∙ peg.mints_itself;
        token_is_valid =
            execute-IsValid (token_env env.contract env.block)
              (Defs.ExecuteMsg.mint env.sender minted) s.token s'.token b.mints peg.token_is_valid;
      }

  Sold-IsPegged :
      (contract seller : ℕ) (block : BlockInfo) (curve_fn : CurveFn) (receiver amount : ℕ)
      (s s' : State) (r : Response)
      → IsPegged contract s
      → Sold seller block curve_fn receiver amount s s' r
      → IsPegged contract s'
  unfolding Execute.execute
  Sold-IsPegged contract seller block curve_fn receiver amount s s' r peg b =
      let (_, _, burnt, _, _) = burn_steps (token_env seller block) amount s.token b.burns in
      let (info, had, le, left) = sub_supply-eq-ok amount s.token.token_info burnt in
      let same_info : peg.info ≡ info = ground arith in
      let same_state : peg.state ≡ b.state = ground arith in
      record {
        state = record b.state { supply = b.state.supply - amount; reserve = b.new_reserve };
        info = record info { total_supply = info.total_supply - amount };
        curves = b.after;
        tokens = left;
        issued =
            omega (
              arith,
              peg.issued,
              ap (λ t. t.total_supply) same_info,
              ap (λ c. c.supply) same_state,
            );
        mints_itself = sym (ap (λ t. t.mint) same_info) ∙ peg.mints_itself;
        token_is_valid =
            execute-IsValid (token_env seller block) (Defs.ExecuteMsg.burn amount) s.token s'.token
              b.burns peg.token_is_valid;
      }

  -- Every successful message keeps the supply of the token equal to what the curve has issued, the
  -- contract as the only one that mints, without a cap, and the token valid.
  pub do_execute-IsPegged :
      (curve_fn : CurveFn) (env : Env) (msg : ExecuteMsg) (s s' : State) (r : Response)
      → IsPegged env.contract s
      → do_execute curve_fn env msg s ≡ ok (s', r)
      → IsPegged env.contract s'
  do_execute-IsPegged curve_fn env msg s s' r peg p =
      elim (do_execute-cases curve_fn env msg s s' r p) [
        | inl (_, b, _) ↦ Bought-IsPegged env curve_fn s s' peg b
        | inr (inl (seller, amount, start, _, curves, tokens, balances, _, b)) ↦
            Sold-IsPegged env.contract seller env.block curve_fn env.sender amount start s' r
              (record {
                state = peg.state;
                info = peg.info;
                curves = curves ∙ peg.curves;
                tokens = tokens ∙ peg.tokens;
                issued = peg.issued;
                mints_itself = peg.mints_itself;
                token_is_valid = rw (tokens, balances) peg.token_is_valid;
              })
              b
        | inr (inr (m, _, moves, done, curves, _)) ↦ record {
          state = peg.state;
          info = peg.info;
          curves = curves ∙ peg.curves;
          tokens =
              (execute_keeps (token_env env.sender env.block) m s.token s'.token moves done).0
              ∙ peg.tokens;
          issued = peg.issued;
          mints_itself = peg.mints_itself;
          token_is_valid =
              execute-IsValid (token_env env.sender env.block) m s.token s'.token done
                peg.token_is_valid;
        }
      ]
