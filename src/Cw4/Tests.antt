-- ===== src/Cw4/Tests.antt =====
-- A group with the admin 1 and the members 7 and 8, which changes in block 100.
use Prim.Native.Nat.{ℕ}
use cosmwasm_plus.Prelude.{
  ◌≡◌, refl, none, some, List, [], ◌∷◌, ok, err, ◌⊎◌, map, unwrap_or, arith,
}
use cosmwasm_plus.Mock.{mock_std, block}
use cosmwasm_plus.Storage
use cosmwasm_plus.Snapshot.{
  Strategy, save, remove, may_load, snapshot_at, write_change, first_since,
}
use cosmwasm_plus.Snapshot.Heights.{IsUpTo}
use cosmwasm_plus.Controllers.Admin.{AdminError, is_admin, assert_admin}
use cosmwasm_plus.Controllers.Hooks.{prepare_hooks}
use cosmwasm_plus.Cw4.{
  ContractError, State, Env, ExecuteMsg, Response, Member, MemberDiff, add_members, remove_members,
  update_members, execute_update_members, execute, create, create_members, validate_option,
  instantiate, query_member,
}
use cosmwasm_plus.Cw4.Total.{IsTotal, execute-IsTotal}
use cosmwasm_plus.Cw4.Past.{KeepsPast, execute-KeepsPast}
use cosmwasm_plus.Expiration.{Expiration, Duration}
use cosmwasm_plus.Cw3.Defs.{Vote, Status, Threshold, Proposal}
use cosmwasm_plus.Cw3.Flex
use cosmwasm_plus.Cw4.Voting.{group_of, with_group, vote_keeps}
use cosmwasm_plus.Cw4.Diffs.{replay, execute_tells}

abbrev group : State
group = record {
  contract = none;
  admin = some (some 1);
  hooks = some (40 ∷ 41 ∷ []);
  total = some 24;
  members = record {
    primary = (7, 20) ∷ (8, 4) ∷ [];
    checkpoints = [];
    changelog = ((7, 90), none) ∷ ((8, 95), some 3) ∷ [];
    strategy = Strategy.every_block;
  };
}

abbrev env : Env
env = record { sender = 1; block = block }

abbrev change : ExecuteMsg
change =
    ExecuteMsg.update_members_msg (8 ∷ 6 ∷ [])
      (record { addr = 7; weight = 5 } ∷ record { addr = 9; weight = 2 } ∷ [])

abbrev diff : List MemberDiff
diff =
    record { key = 7; old = some 20; new = some 5 }
    ∷ record { key = 9; old = none; new = some 2 }
    ∷ record { key = 8; old = some 4; new = none }
    ∷ []

abbrev changed : State
changed = record group {
  total = some 7;
  members = record {
    primary = (7, 5) ∷ (9, 2) ∷ [];
    checkpoints = [];
    changelog =
        ((7, 90), none)
        ∷ ((8, 95), some 3)
        ∷ ((7, 100), some 20)
        ∷ ((9, 100), none)
        ∷ ((8, 100), some 4)
        ∷ [];
    strategy = Strategy.every_block;
  };
}

abbrev told : Response
told =
    record { contract_addr = 40; diffs = diff } ∷ record { contract_addr = 41; diffs = diff } ∷ []

change_test : execute env change group ≡ ok (changed, told)
unfolding execute execute_update_members update_members add_members remove_members prepare_hooks
    assert_admin is_admin save remove may_load write_change Storage.save Storage.remove
    Storage.may_load
change_test = refl

stranger_test :
    execute (record env { sender = 2 }) change group
    ≡ err (ContractError.admin AdminError.not_admin)
unfolding execute execute_update_members update_members assert_admin is_admin
stranger_test = refl

past_test : query_member 8 (some 100) changed ≡ ok (some 4)
unfolding query_member snapshot_at first_since Storage.may_load
past_test = refl

group-IsTotal : IsTotal 0 24 group.members
unfolding Storage.may_load
group-IsTotal = ((refl, (refl, tt)), refl, omega arith)

group-IsUpTo : IsUpTo 95 group.members
unfolding Storage.may_load
group-IsUpTo = record { every_block = refl; past = λ k g old e. ground arith }

execute-IsTotal_example : (t : ℕ) × (changed.total ≡ some t) × IsTotal 0 t changed.members
execute-IsTotal_example =
    execute-IsTotal env change 0 24 group changed refl group-IsTotal change_test

execute-KeepsPast_example : KeepsPast 100 group.members changed.members
execute-KeepsPast_example =
    execute-KeepsPast env change 95 group changed group-IsUpTo (omega arith) change_test

execute_tells_example :
    ((changed.members ≡ group.members) × (told ≡ []))
    ⊎ ((diff' : List MemberDiff) × (told
          ≡ map (λ h. record { contract_addr = h; diffs = diff' }) (unwrap_or [] changed.hooks))
        × ((j : ℕ) → replay j diff' (may_load j group.members) ≡ may_load j changed.members))
execute_tells_example = execute_tells env change group changed told change_test

abbrev rows : List Member
rows =
    record { addr = 7; weight = 20 }
    ∷ record { addr = 8; weight = 4 }
    ∷ record { addr = 7; weight = 1 }
    ∷ []

abbrev made : State
made = record {
  contract = some (record { contract = "crates.io:cw4-group"; version = "0.8.0" });
  admin = some (some 1);
  hooks = none;
  total = some 25;
  members = record {
    primary = (7, 1) ∷ (8, 4) ∷ [];
    checkpoints = [];
    changelog = ((7, 100), none) ∷ ((8, 100), none) ∷ [];
    strategy = Strategy.every_block;
  };
}

-- The address 7 is listed twice: the total counts both weights, the members hold the last one.
made_test : instantiate "0.8.0" block (some 1) rows ≡ ok (made, [])
unfolding instantiate create create_members validate_option save write_change Storage.save
    Storage.may_load
made_test = refl

abbrev proposal : Proposal
proposal = record {
  title = [];
  description = [];
  start_height = 100;
  expires = Expiration.at_height 200;
  msgs = [];
  status = Status.open_status;
  threshold = Threshold.absolute_count 20;
  total_weight = 24;
  votes = record { yes_weight = 4; no_weight = 0; abstain_weight = 0; veto_weight = 0 };
}

abbrev multisig : Flex.State
multisig = record {
  contract = none;
  config = some (record {
    threshold = Threshold.absolute_count 20;
    max_voting_period = Duration.height 100;
    group_addr = 60;
  });
  proposal_count = some 1;
  ballots = ((1, 8), record { weight = 4; vote = Vote.yes_vote }) ∷ [];
  proposals = (1, proposal) ∷ [];
}

abbrev voter : Flex.Env
voter = record { sender = 7; block = block; querier = λ _. group_of group }

vote_keeps_example :
    Flex.execute_vote (with_group voter changed) 1 Vote.yes_vote multisig
    ≡ Flex.execute_vote (with_group voter group) 1 Vote.yes_vote multisig
unfolding Storage.may_load
vote_keeps_example =
    vote_keeps env change 95 group changed told voter 1 Vote.yes_vote multisig proposal group-IsUpTo
      (omega arith) change_test refl (omega arith)
