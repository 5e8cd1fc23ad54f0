-- ===== src/Cw20/Authority.antt =====
-- Whose balance and allowance a message of cw20-base can lower.
use cosmwasm_plus.Prelude.{
  ℕ, ◌+◌, ◌-◌, ◌≤◌, ◌<◌, ◌≡◌, false, some, ok, nat_eq, pair_eq, arith, inl, inr, ◌⊎◌, ap,
}
use cosmwasm_plus.Std.{Std, BlockInfo}
use cosmwasm_plus.Storage.{Map, may_load}
use cosmwasm_plus.Storage.Laws.{balance_of, may_load-save}
use cosmwasm_plus.Expiration.{is_expired}
use cosmwasm_plus.Cw20.Defs.{State, Env, Response, ExecuteMsg, AllowanceResponse}
use cosmwasm_plus.Cw20.Execute.{sub_balance, deduct_allowance, execute}
use cosmwasm_plus.Cw20.Balances.{sub_balance-eq-ok, add_balance-eq-ok, deduct_allowance-eq-ok}
use cosmwasm_plus.Cw20.Steps.{
  Moved, transfer_steps, send_steps, burn_steps, mint_steps, increase_steps, decrease_steps,
  transfer_from_steps, send_from_steps, burn_from_steps,
}

-- The spender's allowance from the owner has not expired, and the call takes `taken` from it.
abbrev pub Spends : ℕ → ℕ → BlockInfo → ℕ → State → State → Type 0
Spends owner spender block taken s s' =
    (a : AllowanceResponse) × (may_load (owner, spender) s.allowances ≡ some a)
    × (is_expired a.expires block ≡ false)
    × (taken ≤ a.allowance)
    × (may_load (owner, spender) s'.allowances
        ≡ some (record a { allowance = a.allowance - taken }))

-- Why the balance of `owner` may fall in a call: the owner calls, or the caller spends from an
-- allowance at least what the balance loses.
abbrev pub Authorised : ℕ → Env → State → State → Type 0
Authorised owner env s s' =
    (owner ≡ env.sender)
    ⊎ ((taken : ℕ) × (balance_of owner s.balances ≤ balance_of owner s'.balances + taken)
        × Spends owner env.sender env.block taken s s')

module _ ⦃api : Std⦄ where
  -- Only the account that is debited can lose, and no more than the amount.
  Moved-loss :
      (from to x : ℕ) (m m' : Map ℕ ℕ) (j : ℕ)
      → Moved from to x m m'
      → (balance_of j m ≤ balance_of j m' + x) × (balance_of j m' < balance_of j m → j ≡ from)
  Moved-loss from to x m m' j (d, p, q) =
      let (le, _, after_sub) = sub_balance-eq-ok from x m p in
      let (_, after_add) = add_balance-eq-ok to x d q in
      (
        ground (arith, after_sub j, after_sub to, after_add j),
        λ lt. ground (arith, after_sub j, after_sub to, after_add j),
      )

  sub_balance_loss :
      (from x : ℕ) (m m' : Map ℕ ℕ) (j : ℕ)
      → sub_balance from x m ≡ ok m'
      → (balance_of j m ≤ balance_of j m' + x) × (balance_of j m' < balance_of j m → j ≡ from)
  sub_balance_loss from x m m' j p =
      let (le, _, after_sub) = sub_balance-eq-ok from x m p in
      (ground (arith, after_sub j), λ lt. ground (arith, after_sub j))

  deduct_allowance-Spends :
      (from : ℕ) (env : Env) (x : ℕ) (s s' : State)
      → deduct_allowance from env.sender env.block x s.allowances ≡ ok s'.allowances
      → Spends from env.sender env.block x s s'
  deduct_allowance-Spends from env x s s' p =
      let (a, found, live, le, e) =
        deduct_allowance-eq-ok from env.sender env.block x s.allowances p in
      let key : ℕ × ℕ = (from, env.sender) in
      let v : AllowanceResponse = record a { allowance = a.allowance - x } in
      (a, found, live, le, ground (arith, may_load-save key key v s.allowances))

  -- A message lowers the balance of an account only if the account sends it, or if the sender has
  -- an unexpired allowance from the account and spends from it at least what the account loses.
  pub execute-Authorised :
      (env : Env) (msg : ExecuteMsg) (s s' : State) (owner : ℕ) {r : Response}
      → execute env msg s ≡ ok (s', r)
      → balance_of owner s'.balances < balance_of owner s.balances
      → Authorised owner env s s'
  unfolding execute
  execute-Authorised env (ExecuteMsg.transfer recipient x) s s' owner p lt =
      let (to, _, _, moved, _, _) = transfer_steps env recipient x s p in
      inl ((Moved-loss env.sender to x s.balances s'.balances owner moved).1 lt)
  execute-Authorised env (ExecuteMsg.send contract x msg) s s' owner p lt =
      let (to, _, _, moved, _, _) = send_steps env contract x msg s p in
      inl ((Moved-loss env.sender to x s.balances s'.balances owner moved).1 lt)
  execute-Authorised env (ExecuteMsg.burn x) s s' owner p lt =
      let (_, d, _, _, _) = burn_steps env x s p in
      inl ((sub_balance_loss env.sender x s.balances s'.balances owner d).1 lt)
  execute-Authorised env (ExecuteMsg.mint recipient x) s s' owner p lt =
      let (t, e, (_, _, _, _, (to, _, credit), e', _)) = mint_steps env recipient x s p in
      absurd (ground (arith, (add_balance-eq-ok to x s.balances credit).1 owner))
  execute-Authorised env (ExecuteMsg.increase_allowance spender x expires) s s' owner p lt =
      let (_, _, _, e, _) = increase_steps env spender x expires s p in
      absurd (omega (arith, ap (λ t. balance_of owner t.balances) e))
  execute-Authorised env (ExecuteMsg.decrease_allowance spender x expires) s s' owner p lt =
      let (_, _, _, e, _) = decrease_steps env spender x expires s p in
      absurd (omega (arith, ap (λ t. balance_of owner t.balances) e))
  execute-Authorised env (ExecuteMsg.transfer_from o recipient x) s s' owner p lt =
      let (to, from, _, _, spent, moved, e, _) = transfer_from_steps env o recipient x s p in
      let (le, whose) = Moved-loss from to x s.balances s'.balances owner moved in
      inr (x, le, rw (whose lt) (deduct_allowance-Spends from env x s s' spent))
  execute-Authorised env (ExecuteMsg.send_from o contract x msg) s s' owner p lt =
      let (to, from, _, _, spent, moved, e, _) = send_from_steps env o contract x msg s p in
      let (le, whose) = Moved-loss from to x s.balances s'.balances owner moved in
      inr (x, le, rw (whose lt) (deduct_allowance-Spends from env x s s' spent))
  execute-Authorised env (ExecuteMsg.burn_from o x) s s' owner p lt =
      let (from, _, spent, d, _, _, _) = burn_from_steps env o x s p in
      let (le, whose) = sub_balance_loss from x s.balances s'.balances owner d in
      inr (x, le, rw (whose lt) (deduct_allowance-Spends from env x s s' spent))
