-- ===== src/Cw20/Supply.antt =====
-- Balances and supply of cw20-base: what every message keeps.
use cosmwasm_plus.Prelude.{
  ℕ, ◌+◌, ◌-◌, ◌≤◌, ◌<◌, ◌≡◌, refl, Bool, true, false, none, some, ok, nat_eq, pair_eq, u128_mod,
  arith, ap,
}
use mathlib.Core.Path.{subst}
use cosmwasm_plus.Std.{Std}
use cosmwasm_plus.Storage.{Map, Item}
use cosmwasm_plus.Storage.Laws.{sum}
use cosmwasm_plus.Cw20.Defs.{TokenInfo, State, Env, Response, get_cap, ExecuteMsg}
use cosmwasm_plus.Cw20.Execute.{sub_balance, sub_supply, exceeds, is_minter, execute}
use cosmwasm_plus.Cw20.Balances.{sub_balance-eq-ok, add_balance-eq-ok, sub_supply-eq-ok}
use cosmwasm_plus.Cw20.Steps.{
  Moved, transfer_steps, send_steps, burn_steps, mint_steps, increase_steps, decrease_steps,
  transfer_from_steps, send_from_steps, burn_from_steps,
}

-- `total_supply`, 0 before the contract is instantiated
abbrev pub supply_of : Item TokenInfo → ℕ
supply_of none = 0
supply_of (some t) = t.total_supply

-- The supply that no balance accounts for stays what it was.
abbrev pub Conserves : State → State → Type 0
Conserves s s' = sum s'.balances + supply_of s.token_info ≡ sum s.balances + supply_of s'.token_info

-- A token whose balances add up to no more than its supply, which is a `Uint128` within the cap.
abbrev pub IsBacked : Item TokenInfo → Map ℕ ℕ → Type 0
IsBacked none balances = ⊥
IsBacked (some t) balances =
    (sum balances ≤ t.total_supply)
    × (t.total_supply < u128_mod)
    × (exceeds t.total_supply (get_cap t) ≡ false)

abbrev pub IsValid : State → Type 0
IsValid s = IsBacked s.token_info s.balances

-- What a call may do to the supply: nothing, destroy tokens together with their balance, or, if the
-- minter calls, create tokens together with a balance, within the cap.
pub data SupplyStep (sender : ℕ) (s s' : State) : Type 0 where
  keep : s'.token_info ≡ s.token_info → sum s'.balances ≡ sum s.balances → SupplyStep sender s s'
  burn :
      (t : TokenInfo) (x : ℕ)
      → s.token_info ≡ some t
      → x ≤ t.total_supply
      → s'.token_info ≡ some (record t { total_supply = t.total_supply - x })
      → sum s'.balances + x ≡ sum s.balances
      → SupplyStep sender s s'
  mint :
      (t : TokenInfo) (x : ℕ)
      → s.token_info ≡ some t
      → is_minter t.mint sender ≡ true
      → t.total_supply + x < u128_mod
      → exceeds (t.total_supply + x) (get_cap t) ≡ false
      → s'.token_info ≡ some (record t { total_supply = t.total_supply + x })
      → sum s'.balances ≡ sum s.balances + x
      → SupplyStep sender s s'

SupplyStep-Conserves : (sender : ℕ) (s s' : State) → SupplyStep sender s s' → Conserves s s'
SupplyStep-Conserves sender s s' (SupplyStep.keep e h) = omega (arith, ap supply_of e)
SupplyStep-Conserves sender s s' (SupplyStep.burn t x e le e' h) = rw (e, e') (omega arith)
SupplyStep-Conserves sender s s' (SupplyStep.mint t x e m fits within e' h) =
    rw (e, e') (omega arith)

IsBacked-sum : (i : Item TokenInfo) (m m' : Map ℕ ℕ) → sum m' ≡ sum m → IsBacked i m → IsBacked i m'
IsBacked-sum none m m' h v = v
IsBacked-sum (some t) m m' h v = (omega arith, v.1, v.2)

SupplyStep-IsValid : (sender : ℕ) (s s' : State) → SupplyStep sender s s' → IsValid s → IsValid s'
SupplyStep-IsValid sender s s' (SupplyStep.keep e h) v =
    rw e (IsBacked-sum s.token_info s.balances s'.balances h v)
SupplyStep-IsValid sender s s' (SupplyStep.burn t x e le e' h) v =
    let w : IsBacked (some t) s.balances = subst (λ i. IsBacked i s.balances) e v in
    rw e' (ground arith)
SupplyStep-IsValid sender s s' (SupplyStep.mint t x e m fits within e' h) v =
    let w : IsBacked (some t) s.balances = subst (λ i. IsBacked i s.balances) e v in
    rw e' (ground arith)

-- The messages of the cw20 standard that neither mint nor burn.
abbrev pub only_moves : ExecuteMsg → Bool
only_moves (ExecuteMsg.mint _ _) = false
only_moves (ExecuteMsg.burn _) = false
only_moves (ExecuteMsg.burn_from _ _) = false
only_moves _ = true

module _ ⦃api : Std⦄ where
  sum-Moved : (from to x : ℕ) (m m' : Map ℕ ℕ) → Moved from to x m m' → sum m' ≡ sum m
  sum-Moved from to x m m' (d, p, q) =
      omega (arith, (sub_balance-eq-ok from x m p).1, (add_balance-eq-ok to x d q).0)

  burn-SupplyStep :
      (sender from x : ℕ) (s s' : State)
      → sub_balance from x s.balances ≡ ok s'.balances
      → sub_supply x s.token_info ≡ ok s'.token_info
      → SupplyStep sender s s'
  burn-SupplyStep sender from x s s' p q =
      let (t, e, le, e') = sub_supply-eq-ok x s.token_info q in
      SupplyStep.burn t x e le e' (sub_balance-eq-ok from x s.balances p).1

  -- A message that neither mints nor burns leaves the token information and the sum of the balances.
  pub execute_keeps :
      (env : Env) (msg : ExecuteMsg) (s s' : State) {r : Response}
      → only_moves msg ≡ true
      → execute env msg s ≡ ok (s', r)
      → (s'.token_info ≡ s.token_info) × (sum s'.balances ≡ sum s.balances)
  unfolding execute
  execute_keeps env (ExecuteMsg.transfer recipient x) s s' m p =
      let (to, _, _, moved, e, _) = transfer_steps env recipient x s p in
      (ap (λ t. t.token_info) e, sum-Moved env.sender to x s.balances s'.balances moved)
  execute_keeps env (ExecuteMsg.send contract x msg) s s' m p =
      let (to, _, _, moved, e, _) = send_steps env contract x msg s p in
      (ap (λ t. t.token_info) e, sum-Moved env.sender to x s.balances s'.balances moved)
  execute_keeps env (ExecuteMsg.increase_allowance spender x expires) s s' m p =
      let (_, _, _, e, _) = increase_steps env spender x expires s p in
      (ap (λ t. t.token_info) e, ap (λ t. sum t.balances) e)
  execute_keeps env (ExecuteMsg.decrease_allowance spender x expires) s s' m p =
      let (_, _, _, e, _) = decrease_steps env spender x expires s p in
      (ap (λ t. t.token_info) e, ap (λ t. sum t.balances) e)
  execute_keeps env (ExecuteMsg.transfer_from owner recipient x) s s' m p =
      let (to, from, _, _, _, moved, e, _) = transfer_from_steps env owner recipient x s p in
      (ap (λ t. t.token_info) e, sum-Moved from to x s.balances s'.balances moved)
  execute_keeps env (ExecuteMsg.send_from owner contract x msg) s s' m p =
      let (to, from, _, _, _, moved, e, _) = send_from_steps env owner contract x msg s p in
      (ap (λ t. t.token_info) e, sum-Moved from to x s.balances s'.balances moved)
  execute_keeps env (ExecuteMsg.burn x) s s' m p = cc
  execute_keeps env (ExecuteMsg.mint recipient x) s s' m p = cc
  execute_keeps env (ExecuteMsg.burn_from owner x) s s' m p = cc

  keep-SupplyStep :
      (env : Env) (msg : ExecuteMsg) (s s' : State) {r : Response}
      → only_moves msg ≡ true
      → execute env msg s ≡ ok (s', r)
      → SupplyStep env.sender s s'
  keep-SupplyStep env msg s s' m p =
      let (same, sums) = execute_keeps env msg s s' m p in SupplyStep.keep same sums

  -- Every successful message does to balances and supply what the specification allows: it moves
  -- balances, or burns tokens with their balance, or mints them for the minter within the cap.
  pub execute-SupplyStep :
      (env : Env) (msg : ExecuteMsg) (s s' : State) {r : Response}
      → execute env msg s ≡ ok (s', r)
      → SupplyStep env.sender s s'
  unfolding execute
  execute-SupplyStep env (ExecuteMsg.burn x) s s' p =
      let (_, d, i, _, _) = burn_steps env x s p in burn-SupplyStep env.sender env.sender x s s' d i
  execute-SupplyStep env (ExecuteMsg.mint recipient x) s s' p =
      let (t, e, (_, minter, fits, within, (to, _, credit), e', _)) =
        mint_steps env recipient x s p in
      SupplyStep.mint t x e minter fits within (ap (λ t. t.token_info) e')
        (add_balance-eq-ok to x s.balances credit).0
  execute-SupplyStep env (ExecuteMsg.burn_from owner x) s s' p =
      let (from, _, _, d, i, _, _) = burn_from_steps env owner x s p in
      burn-SupplyStep env.sender from x s s' d i
  execute-SupplyStep env (ExecuteMsg.transfer recipient x) s s' p =
      keep-SupplyStep env (ExecuteMsg.transfer recipient x) s s' refl p
  execute-SupplyStep env (ExecuteMsg.send contract x msg) s s' p =
      keep-SupplyStep env (ExecuteMsg.send contract x msg) s s' refl p
  execute-SupplyStep env (ExecuteMsg.increase_allowance spender x expires) s s' p =
      keep-SupplyStep env (ExecuteMsg.increase_allowance spender x expires) s s' refl p
  execute-SupplyStep env (ExecuteMsg.decrease_allowance spender x expires) s s' p =
      keep-SupplyStep env (ExecuteMsg.decrease_allowance spender x expires) s s' refl p
  execute-SupplyStep env (ExecuteMsg.transfer_from owner recipient x) s s' p =
      keep-SupplyStep env (ExecuteMsg.transfer_from owner recipient x) s s' refl p
  execute-SupplyStep env (ExecuteMsg.send_from owner contract x msg) s s' p =
      keep-SupplyStep env (ExecuteMsg.send_from owner contract x msg) s s' refl p

  -- A successful message changes the sum of the balances by exactly what it changes the supply.
  pub execute-Conserves :
      (env : Env) (msg : ExecuteMsg) (s s' : State) {r : Response}
      → execute env msg s ≡ ok (s', r)
      → Conserves s s'
  execute-Conserves env msg s s' p =
      SupplyStep-Conserves env.sender s s' (execute-SupplyStep env msg s s' p)

  -- A successful message keeps the balances backed by the supply and the supply within the cap.
  pub execute-IsValid :
      (env : Env) (msg : ExecuteMsg) (s s' : State) {r : Response}
      → execute env msg s ≡ ok (s', r)
      → IsValid s
      → IsValid s'
  execute-IsValid env msg s s' p =
      SupplyStep-IsValid env.sender s s' (execute-SupplyStep env msg s s' p)
