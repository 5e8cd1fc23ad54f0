-- ===== src/Bonding/Selling.antt =====
-- Selling tokens of cw20-bonding: when it succeeds, and what comes back of a payment.
use cosmwasm_plus.Prelude.{
  ℕ, ◌+◌, ◌-◌, ◌<◌, ◌≤◌, ◌≡◌, refl, some, [], ◌∷◌, ok, nat_eq, pair_eq, arith, inl, inr,
  nat_beq_iff, Option-cases, ap,
}
use mathlib.Core.Path.{subst}
use cosmwasm_plus.Std.{Std, BlockInfo}
use cosmwasm_plus.Storage.{save}
use cosmwasm_plus.Storage.Laws.{balance_of, balance_of-le-sum}
use cosmwasm_plus.Funds.{bank_send}
use cosmwasm_plus.Funds.Payable.{must_pay, nonpayable}
use cosmwasm_plus.Cw20.Defs
use cosmwasm_plus.Cw20.Execute
use cosmwasm_plus.Cw20.Steps.{mint_steps, burn_steps}
use cosmwasm_plus.Cw20.Balances.{
  sub_balance_lem, sub_supply_lem, add_balance-eq-ok, sub_supply-eq-ok,
}
use cosmwasm_plus.Cw20.Supply.{IsValid, IsBacked}
use cosmwasm_plus.Bonding.{
  Curve, CurveFn, CurveState, State, Env, Response, token_env, execute_buy, do_sell, execute_sell,
}
use cosmwasm_plus.Bonding.Trades.{buy_steps}
use cosmwasm_plus.Bonding.Pegged.{IsPegged, Bought-IsPegged}

-- The response of a sale.
abbrev pub payout : (receiver denom amount : ℕ) → Response
payout receiver denom amount = record {
  calls = [];
  payments = bank_send receiver (record { denom = denom; amount = amount } ∷ []) ∷ [];
}

module _ ⦃api : Std⦄ where
  burn_succeeds :
      (seller : ℕ) (block : BlockInfo) (amount : ℕ) (t : Defs.State)
      → IsValid t
      → 0 < amount
      → amount ≤ balance_of seller t.balances
      → (t' : Defs.State) × (Execute.execute_burn (token_env seller block) amount t ≡ ok (t', []))
  unfolding Execute.execute_burn
  burn_succeeds seller block amount t v positive held = elim (Option-cases t.token_info) [
    | inl missing ↦ absurd (subst (λ i. IsBacked i t.balances) missing v)
    | inr (info, had) ↦
        let (covered, _, _) : IsBacked (some info) t.balances =
          subst (λ i. IsBacked i t.balances) had v in
        let left = balance_of seller t.balances - amount in
        (
          record t {
            balances = save seller left t.balances;
            token_info = some (record info { total_supply = info.total_supply - amount });
          },
          rw had (
              ground (
                arith,
                sub_balance_lem seller amount t.balances,
                sub_supply_lem amount info,
                balance_of-le-sum seller t.balances,
              )),
        )
  ]

  -- Where the supply of the token is what the curve has issued, a holder can always sell: a sale of
  -- some tokens that the sender holds, with no funds, succeeds where the curve asks no more for the
  -- supply that is left than the reserve holds, and pays the rest of the reserve to the sender.
  pub holder_can_sell :
      (curve_fn : CurveFn) (env : Env) (amount new_reserve : ℕ) (s : State) (state : CurveState)
      (curve : Curve)
      → IsPegged env.contract s
      → s.curve_state ≡ some state
      → curve_fn state.decimals ≡ some curve
      → env.funds ≡ []
      → 0 < amount
      → amount ≤ balance_of env.sender s.token.balances
      → curve.reserve (state.supply - amount) ≡ some new_reserve
      → new_reserve ≤ state.reserve
      → (s' : State) × (execute_sell env curve_fn amount s
          ≡ ok (s', payout env.sender state.reserve_denom (state.reserve - new_reserve)))
        × (s'.curve_state
            ≡ some (record state { supply = state.supply - amount; reserve = new_reserve }))
  unfolding execute_sell do_sell nonpayable
  holder_can_sell curve_fn env amount new_reserve s state curve peg stored curved unpaid positive
        held left shrinks =
      let same : peg.state ≡ state = ground arith in
      let (token, burnt) =
        burn_succeeds env.sender env.block amount s.token peg.token_is_valid positive held in
      let (_, _, burnt_supply, _, _) =
        burn_steps (token_env env.sender env.block) amount s.token burnt in
      let (info, had, enough, _) = sub_supply-eq-ok amount s.token.token_info burnt_supply in
      let same_info : peg.info ≡ info = ground arith in
      let covered : amount ≤ state.supply =
        omega (arith, peg.issued, ap (λ t. t.total_supply) same_info, ap (λ c. c.supply) same) in
      let adds = api.checked_sub_lem state.supply amount in
      let pays = api.checked_sub_lem state.reserve new_reserve in
      (
        record s {
          token = token;
          curve_state =
              some (record state { supply = state.supply - amount; reserve = new_reserve });
        },
        ground arith,
        refl,
      )

  -- Buying and selling what was bought gives exactly the payment back: where the reserve is what the
  -- curve asks for the supply, a purchase succeeds and the buyer then sells, with no funds, the
  -- tokens that it has minted, the sale succeeds, pays the buyer what the purchase cost and leaves
  -- the state of the curve as it was before the purchase.
  pub execute_sell-execute_buy :
      (curve_fn : CurveFn) (env later : Env) (payment new_supply : ℕ) (s s' : State) (r : Response)
      (state : CurveState) (curve : Curve)
      → IsPegged env.contract s
      → s.curve_state ≡ some state
      → curve_fn state.decimals ≡ some curve
      → curve.reserve state.supply ≡ some state.reserve
      → must_pay env.funds state.reserve_denom ≡ ok payment
      → curve.supply (state.reserve + payment) ≡ some new_supply
      → execute_buy env curve_fn s ≡ ok (s', r)
      → later.sender ≡ env.sender
      → later.contract ≡ env.contract
      → later.funds ≡ []
      → (s'' : State) × (execute_sell later curve_fn (new_supply - state.supply) s'
          ≡ ok (s'', payout env.sender state.reserve_denom payment))
        × (s''.curve_state ≡ some state)
  execute_sell-execute_buy curve_fn env later payment new_supply s s' r state curve peg stored
        curved on_curve paid supplied p same_sender same_contract unpaid =
      let (b, _) = buy_steps env curve_fn s s' r p in
      let same : b.state ≡ state = ground arith in
      let same_payment : b.payment ≡ payment = ground arith in
      let same_curve : b.curve ≡ curve = ground arith in
      let same_supply : b.new_supply ≡ new_supply = ground arith in
      let minted = b.new_supply - b.state.supply in
      let (_, _, (nonzero, _, _, _, (to, valid, credit), _, _)) =
        mint_steps (token_env env.contract env.block) env.sender minted s.token b.mints in
      let mine : to ≡ env.sender = api.addr_validate_lem valid in
      let (_, balances) = add_balance-eq-ok to minted s.token.balances credit in
      let grows : state.supply ≤ new_supply = ground (arith, b.grows) in
      let back : new_supply - (new_supply - state.supply) ≡ state.supply = omega arith in
      let rest : state.reserve + payment - state.reserve ≡ payment = omega arith in
      let same_minted : minted ≡ new_supply - state.supply = ground arith in
      let holds : new_supply - state.supply ≤ balance_of later.sender s'.token.balances =
        ground (arith, balances env.sender, nat_beq_iff env.sender to) in
      let (s'', sells, after) =
        holder_can_sell curve_fn later (new_supply - state.supply) state.reserve s'
          (record state { reserve = state.reserve + payment; supply = new_supply }) curve
          (rw same_contract (Bought-IsPegged env curve_fn s s' peg b)) (ground (arith, b.after))
          curved unpaid (ground arith) holds (ground arith) (omega arith) in
      (s'', ground arith, ground arith)
