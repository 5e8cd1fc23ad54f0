-- ===== src/Stake/Runs.antt =====
-- Histories of a cw4-stake contract: `instantiate`, then any messages of anybody.
use Prim.Native.String.{String}
use cosmwasm_plus.Prelude.{
  ◌≡◌, some, List, [], ◌∷◌, ok, arith, nat_eq, inl, inr, settle, settle-keeps, ok-cases,
  if◌then◌else◌, ltb,
}
use cosmwasm_plus.Std.{Std}
use cosmwasm_plus.Storage
use cosmwasm_plus.Pagination.{maybe_addr}
use cosmwasm_plus.Snapshot.{may_load}
use cosmwasm_plus.Cw4.{no_members}
use cosmwasm_plus.Stake.{
  Config, State, Env, ExecuteMsg, Response, InstantiateMsg, calc_weight, execute, instantiate,
}
use cosmwasm_plus.Stake.Weights.{IsInStep, execute-IsInStep}

-- The configuration that a message gives.
abbrev pub config_of : InstantiateMsg → Config
config_of msg = record {
  denom = msg.denom;
  tokens_per_weight = msg.tokens_per_weight;
  min_bond = if ltb msg.min_bond 1 then 1 else msg.min_bond;
  unbonding_period = msg.unbonding_period;
}

module _ ⦃api : Std⦄ where
  instantiate-IsInStep :
      (version : String) (msg : InstantiateMsg) (s : State) (r : Response)
      → instantiate version msg ≡ ok (s, r)
      → IsInStep (config_of msg) s
  unfolding instantiate calc_weight may_load Storage.may_load
  instantiate-IsInStep version msg s r p = elim (ok-cases (maybe_addr msg.new_admin)) [
    | inr bad ↦ absurd (ground arith)
    | inl (adm, e) ↦
        let nobody : s.members ≡ no_members = ground arith in
        let nothing : s.stake ≡ [] = ground arith in
        let zero : s.total ≡ some 0 = ground arith in
        record {
          positive = ground arith;
          stored = ground arith;
          distinct = rw nobody tt;
          total_of = rw nobody zero;
          fits = rw nobody (omega arith);
          weighs = rw (nobody, nothing) (λ a. ground arith);
        }
  ]

  pub run : List (Env × ExecuteMsg) → State → State
  run [] s = s
  run ((env, msg) ∷ calls) s = run calls (settle s (execute env msg s))

  run-IsInStep :
      (cfg : Config) (calls : List (Env × ExecuteMsg)) (s : State)
      → IsInStep cfg s
      → IsInStep cfg (run calls s)
  unfolding run
  run-IsInStep cfg [] s i = i
  run-IsInStep cfg ((env, msg) ∷ calls) s i =
      run-IsInStep cfg calls (settle s (execute env msg s)) (
        settle-keeps (IsInStep cfg) s (execute env msg s) i
          (λ s' r e. execute-IsInStep cfg env msg s s' r i e))

  -- In every history of a contract, failed messages reverted, the configuration is the one of the
  -- start (with a minimal bond of at least 1), each address has the weight of its stake, none if the
  -- stake is below the minimal bond, the total is the sum of the weights and within u64, and each
  -- member is stored once.
  pub history-IsInStep :
      (version : String) (msg : InstantiateMsg) (calls : List (Env × ExecuteMsg)) (s : State)
      (r : Response)
      → instantiate version msg ≡ ok (s, r)
      → IsInStep (config_of msg) (run calls s)
  history-IsInStep version msg calls s r p =
      run-IsInStep (config_of msg) calls s (instantiate-IsInStep version msg s r p)
