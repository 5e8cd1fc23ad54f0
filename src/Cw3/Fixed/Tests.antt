-- ===== src/Cw3/Fixed/Tests.antt =====
-- A multisig of the voters 5 (weight 2) and 6 (weight 3), which requires a weight of 4.
use cosmwasm_plus.Prelude.{
  ℕ, ◌≡◌, ◌≤◌, ◌↔◌, ◌⊎◌, refl, true, false, none, some, List, [], ◌∷◌, ok, err, is_ok, nat_eq,
  pair_eq,
}
use cosmwasm_plus.Mock.{mock_std, block}
use cosmwasm_plus.Storage.{may_load, save}
use cosmwasm_plus.Expiration.{Expiration, Duration, is_expired, partial_cmp, after}
use cosmwasm_plus.Cw3.Defs.{Vote, Status}
use cosmwasm_plus.Cw3.Flex.Tally.{cast}
use cosmwasm_plus.Cw3.Fixed.{
  wrong_execute_status, unreachable_weight, Config, Proposal, Voter, State, Env, Response,
  ExecuteMsg, current_status, sum_weights, next_id, clamp_expires, tally, execute_vote,
  execute_execute, execute_propose, query_proposal, add_voters, instantiate, execute,
}
use cosmwasm_plus.Cw3.Fixed.Sound.{IsSound, execute-IsSound}
use cosmwasm_plus.Storage.Range.{range, sort, between, prefix, page_size}
use cosmwasm_plus.Cw3.Fixed.Lists.{map_proposals, list_votes, list_voters, reverse_proposals}
use cosmwasm_plus.Cw3.Fixed.Runs.{run}
use cosmwasm_plus.Cw3.Fixed.Dispatch.{fixed_dispatch, query_proposal_agrees}

abbrev voters : List Voter
voters = record { addr = 5; weight = 2 } ∷ record { addr = 6; weight = 3 } ∷ []

abbrev config : Config
config = record { required_weight = 4; total_weight = 5; max_voting_period = Duration.height 50 }

abbrev made : State
made = record {
  contract = some (record { contract = "crates.io:cw3-fixed-multisig"; version = "0.8.0" });
  config = some config;
  proposal_count = none;
  voters = (5, 2) ∷ (6, 3) ∷ [];
  proposals = [];
  ballots = [];
}

made_test : instantiate "0.8.0" voters 4 (Duration.height 50) ≡ ok (made, [])
unfolding instantiate sum_weights add_voters save
made_test = refl

unreachable_test : instantiate "0.8.0" voters 6 (Duration.height 50) ≡ err unreachable_weight
unfolding instantiate sum_weights
unreachable_test = refl

abbrev env : ℕ → Env
env sender = record { sender = sender; block = block }

abbrev proposal : Proposal
proposal = record {
  title = [];
  description = [];
  expires = Expiration.at_height 150;
  msgs = 9 ∷ [];
  status = Status.open_status;
  yes_weight = 2;
  required_weight = 4;
}

abbrev proposed : State
proposed = record made {
  proposal_count = some 1;
  proposals = (1, proposal) ∷ [];
  ballots = ((1, 5), record { weight = 2; vote = Vote.yes_vote }) ∷ [];
}

propose_test : execute (env 5) (ExecuteMsg.propose [] [] (9 ∷ []) none) made ≡ ok (proposed, [])
unfolding execute execute_propose may_load save next_id clamp_expires partial_cmp after
propose_test = refl

page_test : list_voters (some 5) none proposed ≡ (6, 3) ∷ []
unfolding list_voters range sort between page_size
page_test = refl

votes_test :
    list_votes 1 none (some 30) proposed ≡ (5, record { weight = 2; vote = Vote.yes_vote }) ∷ []
unfolding list_votes range sort between prefix page_size
votes_test = refl

reverse_test : reverse_proposals block (some 2) none proposed ≡ ok ((1, proposal) ∷ [], config)
unfolding reverse_proposals map_proposals range sort between page_size current_status is_expired
reverse_test = refl

early_test : execute (env 5) (ExecuteMsg.execute_proposal 1) proposed ≡ err wrong_execute_status
unfolding execute execute_execute may_load
early_test = refl

abbrev passed : State
passed = record proposed {
  proposals = (1, record proposal { status = Status.passed; yes_weight = 5 }) ∷ [];
  ballots =
      ((1, 5), record { weight = 2; vote = Vote.yes_vote })
      ∷ ((1, 6), record { weight = 3; vote = Vote.yes_vote })
      ∷ [];
}

vote_test : execute (env 6) (ExecuteMsg.vote 1 Vote.yes_vote) proposed ≡ ok (passed, [])
unfolding execute execute_vote tally may_load save is_expired
vote_test = refl

abbrev done : State
done = record passed {
  proposals = (1, record proposal { status = Status.executed; yes_weight = 5 }) ∷ [];
}

done_test : execute (env 8) (ExecuteMsg.execute_proposal 1) passed ≡ ok (done, 9 ∷ [])
unfolding execute execute_execute may_load save
done_test = refl

made-IsSound : IsSound made
unfolding may_load
made-IsSound = record { proposals = λ id p found. absurd cc; ballots = λ key b found. absurd cc }

proposed-IsSound : IsSound proposed
proposed-IsSound =
    execute-IsSound (env 5) (ExecuteMsg.propose [] [] (9 ∷ []) none) made proposed [] made-IsSound
      propose_test

passed-IsSound : IsSound passed
passed-IsSound =
    execute-IsSound (env 6) (ExecuteMsg.vote 1 Vote.yes_vote) proposed passed [] proposed-IsSound
      vote_test

execute-IsSound_example : IsSound done
execute-IsSound_example =
    execute-IsSound (env 8) (ExecuteMsg.execute_proposal 1) passed done (9 ∷ []) passed-IsSound
      done_test

abbrev sent : Response
sent = 9 ∷ []

fixed_dispatch_example :
    (sent ≡ [])
    ⊎ ((id : ℕ) × (p : Proposal) × (ExecuteMsg.execute_proposal 1 ≡ ExecuteMsg.execute_proposal id)
        × (may_load id passed.proposals ≡ some p)
        × (sent ≡ p.msgs)
        × (4 ≤ cast id Vote.yes_vote passed.ballots)
        × (may_load id done.proposals ≡ some (record p { status = Status.executed }))
        × ((calls : List (Env × ExecuteMsg)) (later : Env)
            → is_ok (execute later (ExecuteMsg.execute_proposal id) (run calls done)) ≡ false))
fixed_dispatch_example =
    fixed_dispatch (env 8) (ExecuteMsg.execute_proposal 1) config passed done (9 ∷ [])
      passed-IsSound refl done_test

query_proposal_agrees_example :
    (status : Status) × (query_proposal block 1 proposed
      ≡ ok (1, record proposal { status = status }, config))
    × ((status ≡ Status.passed) ↔ (is_ok (execute_execute 1 proposed) ≡ true))
    × ((status ≡ Status.rejected)
        ↔ (proposal.status ≡ Status.rejected)
          ⊎ (proposal.status ≡ Status.open_status) × (is_expired proposal.expires block ≡ true))
unfolding may_load
query_proposal_agrees_example =
    query_proposal_agrees block 1 proposal config proposed proposed-IsSound refl refl

-- The address 5 is listed twice: its first weight counts towards the total, and nobody has it.
abbrev twice : List Voter
twice =
    record { addr = 5; weight = 2 }
    ∷ record { addr = 6; weight = 3 }
    ∷ record { addr = 5; weight = 1 }
    ∷ []

abbrev stuck : State
stuck = record made {
  config =
      some
        (record { required_weight = 6; total_weight = 6; max_voting_period = Duration.height 50 });
  voters = (5, 1) ∷ (6, 3) ∷ [];
}

stuck_test : instantiate "0.8.0" twice 6 (Duration.height 50) ≡ ok (stuck, [])
unfolding instantiate sum_weights add_voters save
stuck_test = refl
