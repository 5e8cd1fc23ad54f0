-- ===== src/Bonding/Reserve.antt =====
-- The reserve of cw20-bonding: what is paid in and out.
use cosmwasm_plus.Prelude.{
  ℕ, ◌+◌, ◌≡◌, refl, none, some, List, [], ◌∷◌, ok, ◌==◌, nat_eq, pair_eq, arith, inl, inr,
  if◌then◌else◌, nat_beq_iff, sym, Bool-cases, ap, ◌⊎◌, Option,
}
use cosmwasm_plus.Std.{Std, BlockInfo}
use cosmwasm_plus.Storage.{Item}
use cosmwasm_plus.Balance.{Coin}
use cosmwasm_plus.Balance.Totals.{coins_in}
use cosmwasm_plus.Funds.{native_balance}
use cosmwasm_plus.Funds.Assets.{Asset, coin_of, token_of, in_funds, paid, no_funds}
use cosmwasm_plus.Funds.Payable.{must_pay, one_coin}
use cosmwasm_plus.Bonding.{CurveFn, CurveState, State, Env, ExecuteMsg, Response, do_execute}
use cosmwasm_plus.Bonding.Trades.{Bought, Sold}
use cosmwasm_plus.Bonding.Steps.{deposit, do_execute-cases}

-- How much of an asset the reserve holds.
abbrev pub in_reserve : Asset → Item CurveState → ℕ
in_reserve x none = 0
in_reserve (coin_of d) (some c) = if d == c.reserve_denom then c.reserve else 0
in_reserve (token_of _) (some c) = 0

-- The asset that the reserve is kept in.
abbrev pub reserve_asset : Item CurveState → Option Asset
reserve_asset none = none
reserve_asset (some c) = some (coin_of c.reserve_denom)

must_pay_lem :
    (funds : List Coin) (denom d n : ℕ)
    → must_pay funds denom ≡ ok n
    → coins_in d funds ≡ (if d == denom then n else 0)
unfolding must_pay one_coin
must_pay_lem [] denom d n p = cc
must_pay_lem (c ∷ []) denom d n p =
    ground (arith, nat_beq_iff c.denom denom, nat_beq_iff c.denom d, nat_beq_iff d denom)
must_pay_lem (_ ∷ _ ∷ _) denom d n p = cc

module _ ⦃api : Std⦄ where
  purchase_reserve :
      (x : Asset) (env : Env) (curve_fn : CurveFn) (s s' : State)
      → Bought env curve_fn s s'
      → in_reserve x s'.curve_state
        ≡ in_reserve x s.curve_state + in_funds x (native_balance env.funds)
  purchase_reserve (coin_of d) env curve_fn s s' b =
      rw (b.after, b.before)
        (ground (arith, must_pay_lem env.funds b.state.reserve_denom d b.payment b.pays))
  purchase_reserve (token_of t) env curve_fn s s' b = rw (b.after, b.before) refl

  sale_reserve :
      (x : Asset) (seller : ℕ) (block : BlockInfo) (curve_fn : CurveFn) (receiver amount : ℕ)
      (s s' : State) (r : Response)
      → Sold seller block curve_fn receiver amount s s' r
      → in_reserve x s'.curve_state + paid x r.payments ≡ in_reserve x s.curve_state
  sale_reserve (coin_of d) seller block curve_fn receiver amount s s' r b =
      let shrinks = b.shrinks in
      rw (b.after, b.before, b.told)
        (ground (arith, nat_beq_iff b.state.reserve_denom d, nat_beq_iff d b.state.reserve_denom))
  sale_reserve (token_of t) seller block curve_fn receiver amount s s' r b =
      rw (b.after, b.before, b.told) refl

  purchase_asset :
      (x : Asset) (env : Env) (curve_fn : CurveFn) (s s' : State)
      → Bought env curve_fn s s'
      → (reserve_asset s.curve_state ≡ some x) ⊎ (in_funds x (native_balance env.funds) ≡ 0)
  purchase_asset (token_of t) env curve_fn s s' b = inr refl
  purchase_asset (coin_of d) env curve_fn s s' b =
      let denom = b.state.reserve_denom in
      elim (Bool-cases (d == denom)) [
        | inl same ↦
            inl (rw b.before (ap (λ e. some (coin_of e)) (sym ((nat_beq_iff d denom).0 same))))
        | inr other ↦ inr (ground (arith, must_pay_lem env.funds denom d b.payment b.pays))
      ]

  sale_asset :
      (x : Asset) (seller : ℕ) (block : BlockInfo) (curve_fn : CurveFn) (receiver amount : ℕ)
      (s s' : State) (r : Response)
      → Sold seller block curve_fn receiver amount s s' r
      → (reserve_asset s.curve_state ≡ some x) ⊎ (paid x r.payments ≡ 0)
  sale_asset (token_of t) seller block curve_fn receiver amount s s' r b = inr (rw b.told refl)
  sale_asset (coin_of d) seller block curve_fn receiver amount s s' r b =
      let denom = b.state.reserve_denom in
      elim (Bool-cases (denom == d)) [
        | inl same ↦ inl (rw b.before (ap (λ e. some (coin_of e)) ((nat_beq_iff denom d).0 same)))
        | inr other ↦ inr (rw (b.told, other) refl)
      ]

  -- Of every asset, what the reserve holds after a successful message and what the message pays add
  -- up to what the reserve held and, for a purchase, the coins sent with it. An asset that the
  -- reserve is not kept in is neither paid in by a purchase nor paid out.
  pub do_execute_reserve :
      (x : Asset) (curve_fn : CurveFn) (env : Env) (msg : ExecuteMsg) (s s' : State) (r : Response)
      → do_execute curve_fn env msg s ≡ ok (s', r)
      → (in_reserve x s'.curve_state + paid x r.payments
          ≡ in_reserve x s.curve_state + in_funds x (native_balance (deposit env msg)))
        × ((reserve_asset s.curve_state ≡ some x)
            ⊎ ((in_funds x (native_balance (deposit env msg)) ≡ 0) × (paid x r.payments ≡ 0)))
  do_execute_reserve x curve_fn env msg s s' r p =
      elim (do_execute-cases curve_fn env msg s s' r p) [
        | inl (is, b, quiet) ↦
            rw (is, quiet)
              (
                omega (arith, purchase_reserve x env curve_fn s s' b),
                elim (purchase_asset x env curve_fn s s' b) [
                  | inl kept ↦ inl kept
                  | inr none_in ↦ inr (none_in, refl)
                ],
              )
        | inr (inl (seller, amount, start, nothing, curves, _, _, _, b)) ↦
            rw (nothing, sym curves)
              (
                omega (
                  arith,
                  sale_reserve x seller env.block curve_fn env.sender amount start s' r b,
                  no_funds x,
                ),
                elim (sale_asset x seller env.block curve_fn env.sender amount start s' r b) [
                  | inl kept ↦ inl kept
                  | inr none_out ↦ inr (no_funds x, none_out)
                ],
              )
        | inr (inr (m, nothing, _, _, curves, silence)) ↦
            rw (nothing, curves, silence) (omega (arith, no_funds x), inr (no_funds x, refl))
      ]
