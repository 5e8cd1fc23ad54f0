-- ===== src/Cw3/Flex/Steps.antt =====
-- What a successful call of each handler of cw3-flex-multisig has done, step by step.
use cosmwasm_plus.Prelude.{
  ℕ, ◌≡◌, true, false, Option, none, some, List, [], ok, nat_eq, pair_eq, arith, Option-cases, inl,
  inr, ok-cases,
}
use cosmwasm_plus.Std.{Std}
use cosmwasm_plus.Storage.{may_load, save}
use cosmwasm_plus.Expiration.{Expiration, is_expired, after}
use cosmwasm_plus.Cw3.Defs.{Vote, Status, Votes, add_vote, Proposal, update_status}
use cosmwasm_plus.Cw3.Threshold.{ContractError}
use cosmwasm_plus.Cw3.Flex.{
  Config, new_proposal, State, Env, Response, next_id, clamp_expires, execute_propose, execute_vote,
  execute_execute, execute_close, execute_membership_hook, power_or_refuse, is_closed,
}

module _ ⦃api : Std⦄ where
  pub execute_steps :
      (env : Env) (id : ℕ) (s : State) {s' : State} {r : Response}
      → execute_execute env id s ≡ ok (s', r)
      → (prop : Proposal) × (may_load id s.proposals ≡ some prop)
        × (prop.status ≡ Status.passed)
        × (s' ≡ record s {
          proposals = save id (record prop { status = Status.executed }) s.proposals;
        })
        × (r ≡ prop.msgs)
  unfolding execute_execute
  execute_steps env id s p = elim (Option-cases (may_load id s.proposals)) [
    | inl missing ↦ absurd (ground arith)
    | inr (prop, e) ↦ (prop, e, ground arith, ground arith, ground arith)
  ]

  pub close_steps :
      (env : Env) (id : ℕ) (s : State) {s' : State} {r : Response}
      → execute_close env id s ≡ ok (s', r)
      → (prop : Proposal) × (may_load id s.proposals ≡ some prop)
        × (is_closed prop.status ≡ false)
        × (is_expired prop.expires env.block ≡ true)
        × (s' ≡ record s {
          proposals = save id (record prop { status = Status.rejected }) s.proposals;
        })
        × (r ≡ [])
  unfolding execute_close
  close_steps env id s p = elim (Option-cases (may_load id s.proposals)) [
    | inl missing ↦ absurd (ground arith)
    | inr (prop, e) ↦ (prop, e, ground arith, ground arith, ground arith, ground arith)
  ]

  pub hook_steps :
      (env : Env) (s : State) {s' : State} {r : Response}
      → execute_membership_hook env s ≡ ok (s', r)
      → (cfg : Config) × (s.config ≡ some cfg) × (env.sender ≡ cfg.group_addr) × (s' ≡ s) × (r ≡ [])
  unfolding execute_membership_hook
  hook_steps env s p = elim (Option-cases s.config) [
    | inl missing ↦ absurd (ground arith)
    | inr (cfg, e) ↦ (cfg, e, ground arith, ground arith, ground arith)
  ]

  pub vote_steps :
      (env : Env) (id : ℕ) (choice : Vote) (s : State) {s' : State} {r : Response}
      → execute_vote env id choice s ≡ ok (s', r)
      → (cfg : Config) × (s.config ≡ some cfg)
        × ((prop : Proposal) × (may_load id s.proposals ≡ some prop)
            × (prop.status ≡ Status.open_status)
            × (is_expired prop.expires env.block ≡ false)
            × ((power : ℕ) × (power_or_refuse
                    ((env.querier cfg.group_addr).member_at_height env.sender prop.start_height)
                  ≡ ok power)
                × (may_load (id, env.sender) s.ballots ≡ none)
                × ((votes : Votes) × (prop' : Proposal) × (add_vote prop.votes choice power
                      ≡ some votes)
                    × (update_status (record prop { votes = votes }) env.block ≡ some prop')
                    × (s' ≡ record s {
                      ballots =
                          save
                            (id, env.sender)
                            (record { weight = power; vote = choice })
                            s.ballots;
                      proposals = save id prop' s.proposals;
                    })
                    × (r ≡ []))))
  unfolding execute_vote
  vote_steps env id choice s p = elim (Option-cases s.config) [
    | inl missing ↦ absurd (ground arith)
    | inr (cfg, e) ↦ elim (Option-cases (may_load id s.proposals)) [
      | inl missing ↦ absurd (ground arith)
      | inr (prop, e') ↦
          elim (ok-cases (
            power_or_refuse
              ((env.querier cfg.group_addr).member_at_height env.sender prop.start_height))) [
                | inr refused ↦ absurd (ground arith)
                | inl (power, e2) ↦ elim (Option-cases (add_vote prop.votes choice power)) [
                  | inl over ↦ absurd (ground arith)
                  | inr (votes, e3) ↦
                      elim (Option-cases
                        (update_status (record prop { votes = votes }) env.block)) [
                          | inl over ↦ absurd (ground arith)
                          | inr (prop', e4) ↦ (
                            cfg,
                            e,
                            (
                              prop,
                              e',
                              ground arith,
                              ground arith,
                              (
                                power,
                                e2,
                                ground arith,
                                (votes, prop', e3, e4, ground arith, ground arith),
                              ),
                            ),
                          )
                        ]
                ]
              ]
    ]
  ]

  propose_steps_at :
      (env : Env) (title description msgs : List ℕ) (latest : Option Expiration) (s : State)
      (cfg : Config) (power : ℕ) {s' : State} {r : Response}
      → s.config ≡ some cfg
      → power_or_refuse ((env.querier cfg.group_addr).is_member env.sender) ≡ ok power
      → execute_propose env title description msgs latest s ≡ ok (s', r)
      → (last : Expiration) × (expires : Expiration) × (weight : ℕ) × (after {E = ContractError}
            cfg.max_voting_period env.block
          ≡ ok last)
        × (clamp_expires latest last ≡ ok expires)
        × ((env.querier cfg.group_addr).total_weight ≡ ok weight)
        × ((prop : Proposal) × (id : ℕ) × (update_status
                (new_proposal env title description msgs cfg.threshold expires weight power)
                env.block
              ≡ some prop)
            × (next_id s.proposal_count ≡ some id)
            × (s' ≡ record s {
              proposal_count = some id;
              proposals = save id prop s.proposals;
              ballots =
                  save (id, env.sender) (record { weight = power; vote = Vote.yes_vote }) s.ballots;
            })
            × (r ≡ []))
  unfolding execute_propose
  propose_steps_at env title description msgs latest s cfg power e e2 p =
      elim (ok-cases (after {E = ContractError} cfg.max_voting_period env.block)) [
        | inr over ↦ absurd (ground arith)
        | inl (last, e3) ↦ elim (ok-cases (clamp_expires latest last)) [
          | inr wrong ↦ absurd (ground arith)
          | inl (expires, e4) ↦ elim (ok-cases (env.querier cfg.group_addr).total_weight) [
            | inr broken ↦ absurd (ground arith)
            | inl (weight, e5) ↦
                elim (Option-cases (
                  update_status
                    (new_proposal env title description msgs cfg.threshold expires weight power)
                    env.block)) [
                      | inl over ↦ absurd (ground arith)
                      | inr (prop, e6) ↦ elim (Option-cases (next_id s.proposal_count)) [
                        | inl over ↦ absurd (ground arith)
                        | inr (id, e7) ↦ (
                          last,
                          expires,
                          weight,
                          e3,
                          e4,
                          e5,
                          (prop, id, e6, e7, ground arith, ground arith),
                        )
                      ]
                    ]
          ]
        ]
      ]

  pub propose_steps :
      (env : Env) (title description msgs : List ℕ) (latest : Option Expiration) (s : State)
      {s' : State} {r : Response}
      → execute_propose env title description msgs latest s ≡ ok (s', r)
      → (cfg : Config) × (s.config ≡ some cfg)
        × ((power : ℕ) × (power_or_refuse ((env.querier cfg.group_addr).is_member env.sender)
              ≡ ok power)
            × ((last : Expiration) × (expires : Expiration) × (weight : ℕ) × (after
                    {E = ContractError} cfg.max_voting_period env.block
                  ≡ ok last)
                × (clamp_expires latest last ≡ ok expires)
                × ((env.querier cfg.group_addr).total_weight ≡ ok weight)
                × ((prop : Proposal) × (id : ℕ) × (update_status
                        (new_proposal env title description msgs cfg.threshold expires weight power)
                        env.block
                      ≡ some prop)
                    × (next_id s.proposal_count ≡ some id)
                    × (s' ≡ record s {
                      proposal_count = some id;
                      proposals = save id prop s.proposals;
                      ballots =
                          save
                            (id, env.sender)
                            (record { weight = power; vote = Vote.yes_vote })
                            s.ballots;
                    })
                    × (r ≡ []))))
  unfolding execute_propose
  propose_steps env title description msgs latest s p = elim (Option-cases s.config) [
    | inl missing ↦ absurd (ground arith)
    | inr (cfg, e) ↦
        elim (ok-cases (power_or_refuse ((env.querier cfg.group_addr).is_member env.sender))) [
          | inr refused ↦ absurd (ground arith)
          | inl (power, e2) ↦ (
            cfg,
            e,
            (power, e2, propose_steps_at env title description msgs latest s cfg power e e2 p),
          )
        ]
  ]
