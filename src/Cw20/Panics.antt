-- ===== src/Cw20/Panics.antt =====
-- Which messages of cw20-base can panic (overflow) on a valid state.
use cosmwasm_plus.Prelude.{
  ℕ, ◌+◌, ◌≤◌, ◌<◌, ◌≡◌, Option, none, some, List, ok, panic, ◌>>=◌, nat_eq, pair_eq, u128_mod,
  arith, Option-cases, inl, inr, ◌≢◌, Outcome-cases,
}
use mathlib.Core.Path.{subst}
use cosmwasm_plus.Std.{Std, BlockInfo}
use cosmwasm_plus.Storage.{Map, Item, may_load}
use cosmwasm_plus.Storage.Laws.{balance_of-le-sum, sum}
use cosmwasm_plus.Expiration.{Expiration}
use cosmwasm_plus.Cw20.Defs.{State, Env, ExecuteMsg, AllowanceResponse, TokenInfo}
use cosmwasm_plus.Cw20.Execute.{
  sub_balance, add_balance, sub_supply, deduct_allowance, execute, execute_transfer, execute_burn,
  execute_mint, execute_send, execute_increase_allowance, execute_decrease_allowance,
  execute_transfer_from, execute_burn_from, execute_send_from,
}
use cosmwasm_plus.Cw20.Balances.{sub_balance_lem, add_balance_lem, sub_balance-eq-ok}
use cosmwasm_plus.Cw20.Supply.{supply_of, IsBacked, IsValid}

-- the allowance that is stored, 0 if there is none
abbrev pub allowance_of : Option AllowanceResponse → ℕ
allowance_of none = 0
allowance_of (some a) = a.allowance

-- The only overflows: a mint past the range of `Uint128`, and an allowance past it.
abbrev pub Overflows : Env → ExecuteMsg → State → Type 0
Overflows env (ExecuteMsg.mint recipient x) s = u128_mod ≤ supply_of s.token_info + x
Overflows env (ExecuteMsg.increase_allowance spender x expires) s =
    u128_mod ≤ allowance_of (may_load (env.sender, spender) s.allowances) + x
Overflows env msg s = ⊥

module _ ⦃api : Std⦄ where
  -- After a debit the same amount always fits the other balance.
  credit_fits :
      (from to x : ℕ) (m d : Map ℕ ℕ)
      → sum m < u128_mod
      → sub_balance from x m ≡ ok d
      → add_balance to x d ≢ panic
  credit_fits from to x m d fits p =
      let (_, sums, _) = sub_balance-eq-ok from x m p in
      ground (arith, add_balance_lem to x d, balance_of-le-sum to d)

  sub_balance-ne-panic : (from x : ℕ) (m : Map ℕ ℕ) → sub_balance from x m ≢ panic
  sub_balance-ne-panic from x m = ground (arith, sub_balance_lem from x m)

  sub_supply-ne-panic : (x : ℕ) (i : Item TokenInfo) → sub_supply x i ≢ panic
  unfolding sub_supply
  sub_supply-ne-panic x none = ground arith
  sub_supply-ne-panic x (some t) = ground (arith, api.checked_sub_lem t.total_supply x)

  deduct_allowance-ne-panic :
      (owner spender : ℕ) (block : BlockInfo) (x : ℕ) (m : Map (ℕ × ℕ) AllowanceResponse)
      → deduct_allowance owner spender block x m ≢ panic
  unfolding deduct_allowance
  deduct_allowance-ne-panic owner spender block x m =
      elim (Option-cases (may_load (owner, spender) m)) [
        | inl missing ↦ ground arith
        | inr (a, found) ↦ ground (arith, api.checked_sub_lem a.allowance x)
      ]

  sum_fits : (i : Item TokenInfo) (m : Map ℕ ℕ) → IsBacked i m → sum m < u128_mod
  sum_fits none m v = absurd v
  sum_fits (some t) m v = omega arith

  module _ (env : Env) (x : ℕ) (s : State) (fits : sum s.balances < u128_mod) where
    move-ne-panic :
        (from to : ℕ) → (sub_balance from x s.balances >>= λ d. add_balance to x d) ≢ panic
    move-ne-panic from to = elim (Outcome-cases (sub_balance from x s.balances)) [
      | inl (d, e) ↦ rw e (credit_fits from to x s.balances d fits e)
      | inr (inl (e, p)) ↦ ground arith
      | inr (inr p) ↦ absurd (sub_balance-ne-panic from x s.balances p)
    ]

    transfer-ne-panic : (recipient : ℕ) → execute_transfer env recipient x s ≢ panic
    unfolding execute_transfer
    transfer-ne-panic recipient = elim (Option-cases (api.addr_validate recipient)) [
      | inl bad ↦ ground arith
      | inr (to, e) ↦ ground (arith, move-ne-panic env.sender to)
    ]

    send-ne-panic : (contract : ℕ) (msg : List ℕ) → execute_send env contract x msg s ≢ panic
    unfolding execute_send
    send-ne-panic contract msg = elim (Option-cases (api.addr_validate contract)) [
      | inl bad ↦ ground arith
      | inr (to, e) ↦ ground (arith, move-ne-panic env.sender to)
    ]

    transfer_from-ne-panic :
        (owner recipient : ℕ) → execute_transfer_from env owner recipient x s ≢ panic
    unfolding execute_transfer_from
    transfer_from-ne-panic owner recipient = elim (Option-cases (api.addr_validate owner)) [
      | inl bad ↦ ground arith
      | inr (from, e) ↦ elim (Option-cases (api.addr_validate recipient)) [
        | inl bad ↦ ground arith
        | inr (to, e') ↦ ground (
          arith,
          move-ne-panic from to,
          deduct_allowance-ne-panic from env.sender env.block x s.allowances,
        )
      ]
    ]

    send_from-ne-panic :
        (owner contract : ℕ) (msg : List ℕ) → execute_send_from env owner contract x msg s ≢ panic
    unfolding execute_send_from
    send_from-ne-panic owner contract msg = elim (Option-cases (api.addr_validate owner)) [
      | inl bad ↦ ground arith
      | inr (from, e) ↦ elim (Option-cases (api.addr_validate contract)) [
        | inl bad ↦ ground arith
        | inr (to, e') ↦ ground (
          arith,
          move-ne-panic from to,
          deduct_allowance-ne-panic from env.sender env.block x s.allowances,
        )
      ]
    ]

    mint_overflows :
        (recipient : ℕ)
        → IsBacked s.token_info s.balances
        → execute_mint env recipient x s ≡ panic
        → u128_mod ≤ supply_of s.token_info + x
    unfolding execute_mint
    mint_overflows recipient v p = elim (Option-cases s.token_info) [
      | inl missing ↦ absurd (ground arith)
      | inr (t, e) ↦ elim (Option-cases (api.addr_validate recipient)) [
        | inl bad ↦ ground (arith, api.uint_add_lem t.total_supply x)
        | inr (to, e') ↦ ground (
          arith,
          api.uint_add_lem t.total_supply x,
          add_balance_lem to x s.balances,
          balance_of-le-sum to s.balances,
          subst (λ i. IsBacked i s.balances) e v,
        )
      ]
    ]

  burn-ne-panic : (env : Env) (x : ℕ) (s : State) → execute_burn env x s ≢ panic
  unfolding execute_burn
  burn-ne-panic env x s =
      ground
        (arith, sub_balance-ne-panic env.sender x s.balances, sub_supply-ne-panic x s.token_info)

  burn_from-ne-panic :
      (env : Env) (owner x : ℕ) (s : State) → execute_burn_from env owner x s ≢ panic
  unfolding execute_burn_from
  burn_from-ne-panic env owner x s = elim (Option-cases (api.addr_validate owner)) [
    | inl bad ↦ ground arith
    | inr (from, e) ↦ ground (
      arith,
      deduct_allowance-ne-panic from env.sender env.block x s.allowances,
      sub_balance-ne-panic from x s.balances,
      sub_supply-ne-panic x s.token_info,
    )
  ]

  increase_overflows :
      (env : Env) (spender x : ℕ) (expires : Option Expiration) (s : State)
      → execute_increase_allowance env spender x expires s ≡ panic
      → u128_mod ≤ allowance_of (may_load (env.sender, spender) s.allowances) + x
  unfolding execute_increase_allowance
  increase_overflows env spender x expires s p = elim (Option-cases (api.addr_validate spender)) [
    | inl bad ↦ absurd (ground arith)
    | inr (to, e) ↦ ground (
      arith,
      api.addr_validate_lem e,
      api.uint_add_lem (allowance_of (may_load (env.sender, spender) s.allowances)) x,
    )
  ]

  decrease-ne-panic :
      (env : Env) (spender x : ℕ) (expires : Option Expiration) (s : State)
      → execute_decrease_allowance env spender x expires s ≢ panic
  unfolding execute_decrease_allowance
  decrease-ne-panic env spender x expires s = elim (Option-cases (api.addr_validate spender)) [
    | inl bad ↦ ground arith
    | inr (to, e) ↦ elim (Option-cases (may_load (env.sender, to) s.allowances)) [
      | inl missing ↦ ground arith
      | inr (a, found) ↦ ground (arith, api.checked_sub_lem a.allowance x)
    ]
  ]

  -- On a valid state a message panics only by a mint that takes the supply out of the range of
  -- `Uint128`, or by an allowance that would leave it: no transfer, send or burn overflows.
  pub execute_panics :
      (env : Env) (msg : ExecuteMsg) (s : State)
      → IsValid s
      → execute env msg s ≡ panic
      → Overflows env msg s
  unfolding execute
  execute_panics env (ExecuteMsg.transfer recipient x) s v p =
      transfer-ne-panic env x s (sum_fits s.token_info s.balances v) recipient p
  execute_panics env (ExecuteMsg.burn x) s v p = burn-ne-panic env x s p
  execute_panics env (ExecuteMsg.send contract x msg) s v p =
      send-ne-panic env x s (sum_fits s.token_info s.balances v) contract msg p
  execute_panics env (ExecuteMsg.mint recipient x) s v p =
      mint_overflows env x s (sum_fits s.token_info s.balances v) recipient v p
  execute_panics env (ExecuteMsg.increase_allowance spender x expires) s v p =
      increase_overflows env spender x expires s p
  execute_panics env (ExecuteMsg.decrease_allowance spender x expires) s v p =
      decrease-ne-panic env spender x expires s p
  execute_panics env (ExecuteMsg.transfer_from owner recipient x) s v p =
      transfer_from-ne-panic env x s (sum_fits s.token_info s.balances v) owner recipient p
  execute_panics env (ExecuteMsg.send_from owner contract x msg) s v p =
      send_from-ne-panic env x s (sum_fits s.token_info s.balances v) owner contract msg p
  execute_panics env (ExecuteMsg.burn_from owner x) s v p = burn_from-ne-panic env owner x s p
