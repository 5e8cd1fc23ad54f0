-- ===== src/Stake/Tests.antt =====
-- A contract for the native token 2, with 10 tokens to a weight, a minimal bond of 5 and a delay of
-- 20 blocks. The address 7 has bonded 40 tokens, of which it is unbonding 8 more.
use cosmwasm_plus.Prelude.{
  ℕ, ◌+◌, ◌≡◌, ◌≤◌, ◌<◌, ◌⊎◌, refl, false, none, some, [], ◌∷◌, ok, err, arith, nat_eq, ◌==◌,
}
use cosmwasm_plus.Mock.{mock_std, block}
use cosmwasm_plus.Storage
use cosmwasm_plus.Pagination.{maybe_addr}
use cosmwasm_plus.Snapshot.{Strategy, save, remove, may_load, write_change}
use cosmwasm_plus.Snapshot.Heights.{IsUpTo}
use cosmwasm_plus.Expiration.{Expiration, Duration, after, is_expired}
use cosmwasm_plus.Controllers.Claims.{create_claim, claim_tokens, partition, pay}
use cosmwasm_plus.Controllers.Claims.Paying.{owed, claims_of, live_claims}
use cosmwasm_plus.Controllers.Hooks.{prepare_hooks}
use cosmwasm_plus.Funds.{native_denom, bank_send}
use cosmwasm_plus.Funds.Assets.{coin_of, asset_of, in_funds, paid}
use cosmwasm_plus.Stake.{
  nothing_to_claim, missing_denom, mixed_native_and_cw20, Config, State, Env, InstantiateMsg,
  Response, bond, claim, receive, bond_received, must_pay_funds, calc_weight, bonded_amount,
  update_membership, execute_bond, execute_receive, execute_unbond, execute_claim, execute,
  release_to, instantiate,
}
use cosmwasm_plus.Stake.Steps.{bonds}
use cosmwasm_plus.Stake.Bonded.{backing, in_denom, execute-Accounts}
use cosmwasm_plus.Stake.Runs.{config_of, run, history-IsInStep}
use cosmwasm_plus.Stake.Releasing.{unbond_can_be_claimed, claim_pays}
use cosmwasm_plus.Stake.Weights.{IsInStep}

abbrev config : Config
config = record {
  denom = native_denom 2;
  tokens_per_weight = 10;
  min_bond = 5;
  unbonding_period = Duration.height 20;
}

abbrev start : State
start = record {
  contract = none;
  claims = (7, record { amount = 8; release_at = Expiration.at_height 105 } ∷ []) ∷ [];
  admin = some (some 1);
  hooks = some (30 ∷ []);
  config = some config;
  total = some 4;
  members = record {
    primary = (7, 4) ∷ [];
    checkpoints = [];
    changelog = ((7, 90), none) ∷ [];
    strategy = Strategy.every_block;
  };
  stake = (7, 40) ∷ [];
}

abbrev env : Env
env = record { sender = 7; block = block; funds = record { denom = 2; amount = 15 } ∷ [] }

abbrev bonded : State
bonded = record start {
  total = some 5;
  members = record {
    primary = (7, 5) ∷ [];
    checkpoints = [];
    changelog = ((7, 90), none) ∷ ((7, 100), some 4) ∷ [];
    strategy = Strategy.every_block;
  };
  stake = (7, 55) ∷ [];
}

abbrev told : Response
told = record {
  calls =
      record { contract_addr = 30; diffs = record { key = 7; old = some 4; new = some 5 } ∷ [] }
      ∷ [];
  payments = [];
}

bond_test : execute env bond start ≡ ok (bonded, told)
unfolding execute execute_bond bonded_amount must_pay_funds update_membership calc_weight
    prepare_hooks save may_load write_change Storage.save Storage.may_load
bond_test = refl

foreign_test :
    execute (record env { funds = record { denom = 3; amount = 15 } ∷ [] }) bond start
    ≡ err (missing_denom 2)
unfolding execute execute_bond bonded_amount must_pay_funds
foreign_test = refl

token_test :
    execute env (receive 8 15 bond_received) start
    ≡ err (mixed_native_and_cw20 "Invalid address or denom")
unfolding execute execute_receive execute_bond bonded_amount must_pay_funds
token_test = refl

abbrev left : State
left = record start {
  claims =
      (
        7,
        record { amount = 8; release_at = Expiration.at_height 105 }
            ∷ record { amount = 37; release_at = Expiration.at_height 120 }
            ∷ [],
      )
      ∷ [];
  total = some 0;
  members = record {
    primary = [];
    checkpoints = [];
    changelog = ((7, 90), none) ∷ ((7, 100), some 4) ∷ [];
    strategy = Strategy.every_block;
  };
  stake = (7, 3) ∷ [];
}

abbrev gone : Response
gone = record {
  calls =
      record { contract_addr = 30; diffs = record { key = 7; old = some 4; new = none } ∷ [] } ∷ [];
  payments = [];
}

-- A stake below the minimal bond has no weight.
unbond_test : execute_unbond env 37 start ≡ ok (left, gone)
unfolding execute_unbond create_claim update_membership calc_weight prepare_hooks remove may_load
    write_change Storage.save Storage.may_load Storage.remove after
unbond_test = refl

early_test : execute env claim start ≡ err nothing_to_claim
unfolding execute execute_claim claim_tokens partition pay is_expired Storage.may_load
early_test = refl

abbrev later : Env
later = record env { block = record block { height = 105 } }

abbrev paid_out : State
paid_out = record start { claims = (7, []) ∷ [] }

abbrev payout : Response
payout = record { calls = []; payments = bank_send 7 (record { denom = 2; amount = 8 } ∷ []) ∷ [] }

claim_test : execute later claim start ≡ ok (paid_out, payout)
unfolding execute execute_claim claim_tokens partition pay is_expired Storage.may_load Storage.save
claim_test = refl

execute-Accounts_example :
    (bonded.config ≡ some config)
    × (in_denom (coin_of 2) config.denom (backing bonded) + paid (coin_of 2) told.payments
        ≡ in_denom (coin_of 2) config.denom (backing start) + in_funds (coin_of 2) (bonds env bond))
    × ((coin_of 2 ≡ asset_of config.denom)
        ⊎ ((in_funds (coin_of 2) (bonds env bond) ≡ 0) × (paid (coin_of 2) told.payments ≡ 0)))
execute-Accounts_example =
    execute-Accounts (coin_of 2) config env bond start bonded told refl bond_test

start-IsUpTo : IsUpTo 95 start.members
unfolding Storage.may_load
start-IsUpTo = record { every_block = refl; past = λ k g old e. ground arith }

unbond_can_be_claimed_example :
    (n : ℕ) × (s : State) × (37 ≤ n)
    × (execute_claim (record env { block = record block { height = 120 } }) left
        ≡ ok (s, record { calls = []; payments = release_to 7 config.denom n ∷ [] }))
unfolding Storage.may_load after is_expired
unbond_can_be_claimed_example =
    unbond_can_be_claimed env (record env { block = record block { height = 120 } }) config 37
      (Expiration.at_height 120) start left gone refl (omega arith) unbond_test refl refl refl
      (omega arith)

claim_pays_example :
    (payout.payments ≡ [])
    ⊎ (claim ≡ claim)
      × ((n : ℕ) × (cfg : Config) × (start.config ≡ some cfg)
          × (payout.payments ≡ release_to 7 cfg.denom n ∷ [])
          × (0 < n)
          × (n + owed (claims_of 7 paid_out.claims) ≡ owed (claims_of 7 start.claims))
          × (live_claims later.block (claims_of 7 paid_out.claims)
              ≡ live_claims later.block (claims_of 7 start.claims))
          × ((other : ℕ)
              → (other == 7) ≡ false
              → claims_of other paid_out.claims ≡ claims_of other start.claims))
claim_pays_example = claim_pays later claim start paid_out payout claim_test

abbrev opening : InstantiateMsg
opening = record {
  denom = native_denom 2;
  tokens_per_weight = 10;
  min_bond = 0;
  unbonding_period = Duration.height 20;
  new_admin = none;
}

abbrev opened : State
opened = record {
  contract = some (record { contract = "crates.io:cw4-stake"; version = "0.8.0" });
  claims = [];
  admin = some none;
  hooks = none;
  config = some (config_of opening);
  total = some 0;
  members = record {
    primary = [];
    checkpoints = [];
    changelog = [];
    strategy = Strategy.every_block;
  };
  stake = [];
}

opened_test : instantiate "0.8.0" opening ≡ ok (opened, record { calls = []; payments = [] })
unfolding instantiate maybe_addr
opened_test = refl

history-IsInStep_example : IsInStep (config_of opening) (run ((env, bond) ∷ []) opened)
history-IsInStep_example =
    history-IsInStep "0.8.0" opening ((env, bond) ∷ []) opened
      (record { calls = []; payments = [] }) opened_test
