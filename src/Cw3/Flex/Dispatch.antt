-- ===== src/Cw3/Flex/Dispatch.antt =====
-- When cw3-flex-multisig sends the messages of a proposal, and the proposals whose messages it
-- cannot send.
use cosmwasm_plus.Prelude.{ℕ, ◌≡◌, ◌≢◌, refl, true, some, [], ok, err, nat_eq, pair_eq, arith}
use cosmwasm_plus.Std.{Std}
use cosmwasm_plus.Storage.{may_load, save}
use cosmwasm_plus.Storage.Laws.{may_load-save}
use cosmwasm_plus.Expiration.{is_expired}
use cosmwasm_plus.Cw3.Defs.{Vote, Status, Proposal, is_passed, current_status}
use cosmwasm_plus.Cw3.Threshold.{expired, wrong_execute_status}
use cosmwasm_plus.Cw3.Flex.{
  State, Env, Response, ExecuteMsg, execute, execute_execute, execute_vote, execute_close,
  query_proposal, Config,
}
use cosmwasm_plus.Cw3.Flex.Steps.{execute_steps, close_steps, hook_steps, vote_steps, propose_steps}
use cosmwasm_plus.Cw3.Flex.Lifecycle.{IsNumbered, next_id_lem}

-- The message sends the messages of a proposal that had passed, which it marks as executed.
abbrev pub Dispatched : ExecuteMsg → Response → State → State → Type 0
Dispatched msg r s s' =
    (id : ℕ) × (p : Proposal) × (msg ≡ ExecuteMsg.execute_proposal id)
    × (may_load id s.proposals ≡ some p)
    × (p.status ≡ Status.passed)
    × (r ≡ p.msgs)
    × (may_load id s'.proposals ≡ some (record p { status = Status.executed }))

module _ ⦃api : Std⦄ where
  -- The contract sends messages only for a passed proposal, all of its messages and no other, and
  -- marks the proposal as executed with it.
  pub execute-Dispatched :
      (env : Env) (msg : ExecuteMsg) (s s' : State) (r : Response)
      → execute env msg s ≡ ok (s', r)
      → r ≢ []
      → Dispatched msg r s s'
  unfolding execute
  execute-Dispatched env (ExecuteMsg.propose title description msgs latest) s s' r e sends =
      let (_, _, (_, _, (_, _, _, _, _, _, (_, _, _, _, _, silent)))) =
        propose_steps env title description msgs latest s e in
      absurd (sends silent)
  execute-Dispatched env (ExecuteMsg.vote voted choice) s s' r e sends =
      let (_, _, (_, _, _, _, (_, _, _, (_, _, _, _, _, silent)))) =
        vote_steps env voted choice s e in
      absurd (sends silent)
  execute-Dispatched env (ExecuteMsg.execute_proposal id) s s' r e sends =
      let (p, found, passed, e', all) = execute_steps env id s e in
      let q : Proposal = record p { status = Status.executed } in
      (id, p, refl, found, passed, all, ground (arith, may_load-save id id q s.proposals))
  execute-Dispatched env (ExecuteMsg.close id) s s' r e sends =
      let (_, _, _, _, _, silent) = close_steps env id s e in absurd (sends silent)
  execute-Dispatched env ExecuteMsg.member_changed_hook s s' r e sends =
      let (_, _, _, _, silent) = hook_steps env s e in absurd (sends silent)

  -- `IsNumbered` holds in every state that the contract reaches.
  pub execute-IsNumbered :
      (env : Env) (msg : ExecuteMsg) (s s' : State) {r : Response}
      → execute env msg s ≡ ok (s', r)
      → IsNumbered s
      → IsNumbered s'
  unfolding execute
  execute-IsNumbered env (ExecuteMsg.propose title description msgs latest) s s' e n =
      let (cfg, _, (power, _, (_, _, weight, _, _, _, (q, id, _, next, e', _)))) =
        propose_steps env title description msgs latest s e in
      let new = next_id_lem s.proposal_count next in
      rw e' (record {
        proposals = λ j p h. ground (arith, may_load-save id j q s.proposals, n.proposals j p);
        ballots = λ j voter b h. ground (
          arith,
          may_load-save (id, env.sender) (j, voter)
              (record { weight = power; vote = Vote.yes_vote }) s.ballots,
          n.ballots j voter b,
        );
      })
  execute-IsNumbered env (ExecuteMsg.vote voted choice) s s' e n =
      let (cfg, _, (prop, found, _, _, (power, _, _, (votes, q, _, _, e', _)))) =
        vote_steps env voted choice s e in
      let below = n.proposals voted prop found in
      rw e' (record {
        proposals = λ j p h. ground (arith, may_load-save voted j q s.proposals, n.proposals j p);
        ballots = λ j voter b h. ground (
          arith,
          may_load-save (voted, env.sender) (j, voter) (record { weight = power; vote = choice })
              s.ballots,
          n.ballots j voter b,
        );
      })
  execute-IsNumbered env (ExecuteMsg.execute_proposal id) s s' e n =
      let (p, found, _, e', _) = execute_steps env id s e in
      let q : Proposal = record p { status = Status.executed } in
      let below = n.proposals id p found in
      rw e' (record {
        proposals = λ j r h. ground (arith, may_load-save id j q s.proposals, n.proposals j r);
        ballots = n.ballots;
      })
  execute-IsNumbered env (ExecuteMsg.close id) s s' e n =
      let (p, found, _, _, e', _) = close_steps env id s e in
      let q : Proposal = record p { status = Status.rejected } in
      let below = n.proposals id p found in
      rw e' (record {
        proposals = λ j r h. ground (arith, may_load-save id j q s.proposals, n.proposals j r);
        ballots = n.ballots;
      })
  execute-IsNumbered env ExecuteMsg.member_changed_hook s s' e n =
      let (_, _, _, e', _) = hook_steps env s e in rw e' n

  -- A proposal that meets its threshold only when voting is over is lost: once an open proposal has
  -- expired, `query_proposal` reports it as passed if it meets the threshold, and yet it cannot be
  -- executed, takes no vote, and anybody can close it as rejected.
  pub late_pass_is_lost :
      (env : Env) (id : ℕ) (choice : Vote) (s : State) (cfg : Config) (p : Proposal)
      → s.config ≡ some cfg
      → may_load id s.proposals ≡ some p
      → p.status ≡ Status.open_status
      → is_expired p.expires env.block ≡ true
      → is_passed p env.block ≡ some true
      → (query_proposal env id s ≡ ok (id, record p { status = Status.passed }))
        × (execute env (ExecuteMsg.execute_proposal id) s ≡ err wrong_execute_status)
        × (execute env (ExecuteMsg.vote id choice) s ≡ err expired)
        × (execute env (ExecuteMsg.close id) s
            ≡ ok (
              record s { proposals = save id (record p { status = Status.rejected }) s.proposals },
              [],
            ))
  unfolding execute execute_execute execute_vote execute_close query_proposal current_status
  late_pass_is_lost env id choice s cfg p e found open_now over passing =
      (ground arith, ground arith, ground arith, ground arith)
