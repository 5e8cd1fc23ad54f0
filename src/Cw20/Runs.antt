-- ===== src/Cw20/Runs.antt =====
-- Histories of a cw20-base token: `instantiate`, then any messages of anybody.
use Prim.Native.String.{String}
use cosmwasm_plus.Prelude.{
  ◌+◌, ◌≡◌, refl, List, [], ◌∷◌, ok, arith, nat_eq, inl, inr, Outcome-cases, settle,
}
use cosmwasm_plus.Std.{Std}
use cosmwasm_plus.Storage.Laws.{sum}
use cosmwasm_plus.Cw20.Defs.{State, Env, Response, ExecuteMsg, InstantiateMsg}
use cosmwasm_plus.Cw20.Execute.{execute}
use cosmwasm_plus.Cw20.Instantiate.{instantiate}
use cosmwasm_plus.Cw20.Supply.{supply_of, IsValid, Conserves, execute-Conserves, execute-IsValid}
use cosmwasm_plus.Cw20.Genesis.{shadowed, instantiate-sum, instantiate-IsValid}

module _ ⦃api : Std⦄ where
  pub run : List (Env × ExecuteMsg) → State → State
  run [] s = s
  run ((env, msg) ∷ calls) s = run calls (settle s (execute env msg s))

  settle_keeps :
      (env : Env) (msg : ExecuteMsg) (s : State)
      → let s' = settle s (execute env msg s) in Conserves s s' × (IsValid s → IsValid s')
  settle_keeps env msg s = elim (Outcome-cases (execute env msg s)) [
    | inl ((s', r), e) ↦ rw e (execute-Conserves env msg s s' e, execute-IsValid env msg s s' e)
    | inr (inl (f, e)) ↦ rw e (refl, λ v. v)
    | inr (inr e) ↦ rw e (refl, λ v. v)
  ]

  run_keeps :
      (calls : List (Env × ExecuteMsg)) (s : State)
      → Conserves s (run calls s) × (IsValid s → IsValid (run calls s))
  unfolding run
  run_keeps [] s = (refl, λ v. v)
  run_keeps ((env, msg) ∷ calls) s =
      let (same, valid) = settle_keeps env msg s in
      let (same', valid') = run_keeps calls (settle s (execute env msg s)) in
      (omega arith, λ v. valid' (valid v))

  -- In every history of a token the state is valid, and the supply exceeds the sum of the balances
  -- by exactly the amounts of the initial accounts that are listed again further down.
  pub history-IsValid :
      (version : String) (msg : InstantiateMsg) (calls : List (Env × ExecuteMsg)) (s : State)
      {r : Response}
      → instantiate version msg ≡ ok (s, r)
      → IsValid (run calls s)
        × (sum (run calls s).balances + shadowed msg.initial_balances
            ≡ supply_of (run calls s).token_info)
  history-IsValid version msg calls s p =
      let (same, valid) = run_keeps calls s in
      (valid (instantiate-IsValid version msg s p), omega (arith, instantiate-sum version msg s p))
