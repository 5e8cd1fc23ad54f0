-- ===== src/Cw20/Transfer.antt =====
-- `Transfer` of cw20-base: when it succeeds, and what it does.
use cosmwasm_plus.Prelude.{
  ℕ, ◌+◌, ◌≤◌, ◌≡◌, ◌↔◌, [], ok, arith, ◌==◌, nat_eq, if◌then◌else◌, some, inl, inr, Outcome-cases,
  ◌≢◌, ◌-◌, ap,
}
use cosmwasm_plus.Std.{Std}
use cosmwasm_plus.Storage.{save}
use cosmwasm_plus.Storage.Laws.{balance_of}
use cosmwasm_plus.Cw20.Defs.{State, Env, Response, ExecuteMsg}
use cosmwasm_plus.Cw20.Execute.{execute, execute_transfer}
use cosmwasm_plus.Cw20.Balances.{
  sub_balance_lem, add_balance_lem, sub_balance-eq-ok, add_balance-eq-ok,
}
use cosmwasm_plus.Cw20.Steps.{transfer_steps}
use cosmwasm_plus.Cw20.Supply.{IsValid}
use cosmwasm_plus.Cw20.Panics.{execute_panics}

module _ ⦃api : Std⦄ where
  transfer_needs :
      (env : Env) (recipient x : ℕ) (s : State) {s' : State} {r : Response}
      → execute env (ExecuteMsg.transfer recipient x) s ≡ ok (s', r)
      → (x ≢ 0)
        × ((to : ℕ) × (api.addr_validate recipient ≡ some to))
        × (x ≤ balance_of env.sender s.balances)
  unfolding execute
  transfer_needs env recipient x s p =
      let (to, valid, nonzero, (d, debit, _), _, _) = transfer_steps env recipient x s p in
      (ground arith, (to, valid), (sub_balance-eq-ok env.sender x s.balances debit).0)

  transfer_suffices :
      (env : Env) (recipient x : ℕ) (s : State)
      → IsValid s
      → x ≢ 0
      → {to : ℕ} → api.addr_validate recipient ≡ some to
      → x ≤ balance_of env.sender s.balances
      → (s' : State) × (execute env (ExecuteMsg.transfer recipient x) s ≡ ok (s', []))
  unfolding execute execute_transfer
  transfer_suffices env recipient x s v nonzero {to} valid le =
      elim (Outcome-cases (execute env (ExecuteMsg.transfer recipient x) s)) [
        | inl ((s', r), p) ↦ (s', ground arith)
        | inr (inl (f, p)) ↦ absurd (
            ground (
              arith,
              sub_balance_lem env.sender x s.balances,
              add_balance_lem to x
                  (save env.sender (balance_of env.sender s.balances - x) s.balances),
            ))
        | inr (inr p) ↦ absurd (execute_panics env (ExecuteMsg.transfer recipient x) s v p)
      ]

  -- On a valid state a transfer succeeds exactly when the amount is not zero, the recipient is a
  -- valid address and the sender holds the amount.
  pub transfer_succeeds :
      (env : Env) (recipient x : ℕ) (s : State)
      → IsValid s
      → ((s' : State) × (execute env (ExecuteMsg.transfer recipient x) s ≡ ok (s', []))) ↔ (
          (x ≢ 0)
          × ((to : ℕ) × (api.addr_validate recipient ≡ some to))
          × (x ≤ balance_of env.sender s.balances))
  transfer_succeeds env recipient x s v = (
    λ done. transfer_needs env recipient x s done.1,
    λ needs. transfer_suffices env recipient x s v needs.0 needs.1.1 needs.2,
  )

  -- A transfer that succeeds takes the amount from the sender, adds it to the recipient, changes
  -- no other balance, and leaves allowances and supply alone.
  pub transfer_balances :
      (env : Env) (recipient x : ℕ) (s s' : State) {r : Response}
      → execute env (ExecuteMsg.transfer recipient x) s ≡ ok (s', r)
      → (balance_of env.sender s'.balances + (if env.sender == recipient then 0 else x)
          ≡ balance_of env.sender s.balances)
        × (balance_of recipient s'.balances
            ≡ balance_of recipient s.balances + (if env.sender == recipient then 0 else x))
        × ((j : ℕ)
            → j ≢ env.sender
            → j ≢ recipient
            → balance_of j s'.balances ≡ balance_of j s.balances)
        × (s'.allowances ≡ s.allowances)
        × (s'.token_info ≡ s.token_info)
  unfolding execute
  transfer_balances env recipient x s s' p =
      let (to, valid, _, (d, debit, credit), e, _) = transfer_steps env recipient x s p in
      let same = api.addr_validate_lem valid in
      let (le, _, after_sub) = sub_balance-eq-ok env.sender x s.balances debit in
      let (_, after_add) = add_balance-eq-ok to x d credit in
      (
        ground (arith, after_sub env.sender, after_sub to, after_add env.sender),
        ground (arith, after_sub recipient, after_sub to, after_add recipient),
        λ j a b. ground (arith, after_sub j, after_add j),
        ap (λ t. t.allowances) e,
        ap (λ t. t.token_info) e,
      )
