-- ===== src/Cw3/Fixed/Steps.antt =====
-- What a successful call of each handler of cw3-fixed-multisig has done.
use cosmwasm_plus.Prelude.{
  ℕ, ◌≡◌, true, false, Option, none, some, List, [], ok, nat_eq, pair_eq, arith, Option-cases, inl,
  inr, ok-cases,
}
use cosmwasm_plus.Std.{Std}
use cosmwasm_plus.Storage.{Map, may_load, save}
use cosmwasm_plus.Expiration.{Expiration, is_expired, after}
use cosmwasm_plus.Cw3.Defs.{Vote, Status}
use cosmwasm_plus.Cw3.Flex.{is_closed}
use cosmwasm_plus.Cw3.Fixed.{
  ContractError, Config, Proposal, new_proposal, State, Env, Response, next_id, clamp_expires,
  tally, execute_propose, execute_vote, execute_execute, execute_close,
}

pub execute_steps :
    (id : ℕ) (s : State) {s' : State} {r : Response}
    → execute_execute id s ≡ ok (s', r)
    → (prop : Proposal) × (may_load id s.proposals ≡ some prop)
      × (prop.status ≡ Status.passed)
      × (s'
          ≡ record s { proposals = save id (record prop { status = Status.executed }) s.proposals })
      × (r ≡ prop.msgs)
unfolding execute_execute
execute_steps id s p = elim (Option-cases (may_load id s.proposals)) [
  | inl missing ↦ absurd (ground arith)
  | inr (prop, e) ↦ (prop, e, ground arith, ground arith, ground arith)
]

pub close_steps :
    (env : Env) (id : ℕ) (s : State) {s' : State} {r : Response}
    → execute_close env id s ≡ ok (s', r)
    → (prop : Proposal) × (may_load id s.proposals ≡ some prop)
      × (is_closed prop.status ≡ false)
      × (is_expired prop.expires env.block ≡ true)
      × (s'
          ≡ record s { proposals = save id (record prop { status = Status.rejected }) s.proposals })
      × (r ≡ [])
unfolding execute_close
close_steps env id s p = elim (Option-cases (may_load id s.proposals)) [
  | inl missing ↦ absurd (ground arith)
  | inr (prop, e) ↦ (prop, e, ground arith, ground arith, ground arith, ground arith)
]

pub vote_steps :
    (env : Env) (id : ℕ) (choice : Vote) (s : State) {s' : State} {r : Response}
    → execute_vote env id choice s ≡ ok (s', r)
    → (power : ℕ) × (prop : Proposal) × (proposals : Map ℕ Proposal) × (may_load env.sender s.voters
        ≡ some power)
      × (may_load id s.proposals ≡ some prop)
      × (prop.status ≡ Status.open_status)
      × (is_expired prop.expires env.block ≡ false)
      × (may_load (id, env.sender) s.ballots ≡ none)
      × (tally id prop choice power s.proposals ≡ ok proposals)
      × (s' ≡ record s {
        ballots = save (id, env.sender) (record { weight = power; vote = choice }) s.ballots;
        proposals = proposals;
      })
      × (r ≡ [])
unfolding execute_vote
vote_steps env id choice s p = elim (Option-cases (may_load env.sender s.voters)) [
  | inl nobody ↦ absurd (ground arith)
  | inr (power, e) ↦ elim (Option-cases (may_load id s.proposals)) [
    | inl missing ↦ absurd (ground arith)
    | inr (prop, e1) ↦ elim (Option-cases (may_load (id, env.sender) s.ballots)) [
      | inr (b, voted) ↦ absurd (ground arith)
      | inl first ↦ elim (ok-cases (tally id prop choice power s.proposals)) [
        | inr over ↦ absurd (ground arith)
        | inl (proposals, e2) ↦ (
          power,
          prop,
          proposals,
          e,
          e1,
          ground arith,
          ground arith,
          first,
          e2,
          ground arith,
          ground arith,
        )
      ]
    ]
  ]
]

module _ ⦃api : Std⦄ where
  pub propose_steps :
      (env : Env) (title description msgs : List ℕ) (latest : Option Expiration) (s : State)
      {s' : State} {r : Response}
      → execute_propose env title description msgs latest s ≡ ok (s', r)
      → (power : ℕ) × (cfg : Config) × (expires : Expiration) × (id : ℕ) × (may_load env.sender
            s.voters
          ≡ some power)
        × (s.config ≡ some cfg)
        × (next_id s.proposal_count ≡ some id)
        × (s' ≡ record s {
          proposal_count = some id;
          proposals =
              save id
                (new_proposal title description msgs expires cfg.required_weight power)
                s.proposals;
          ballots =
              save (id, env.sender) (record { weight = power; vote = Vote.yes_vote }) s.ballots;
        })
        × (r ≡ [])
  unfolding execute_propose
  propose_steps env title description msgs latest s p =
      elim (Option-cases (may_load env.sender s.voters)) [
        | inl nobody ↦ absurd (ground arith)
        | inr (power, e) ↦ elim (Option-cases s.config) [
          | inl missing ↦ absurd (ground arith)
          | inr (cfg, e1) ↦
              elim (ok-cases (after {E = ContractError} cfg.max_voting_period env.block)) [
                | inr late ↦ absurd (ground arith)
                | inl (last, e2) ↦ elim (ok-cases (clamp_expires latest last)) [
                  | inr wrong ↦ absurd (ground arith)
                  | inl (expires, e3) ↦ elim (Option-cases (next_id s.proposal_count)) [
                    | inl over ↦ absurd (ground arith)
                    | inr (id, e4) ↦
                        (power, cfg, expires, id, e, e1, e4, ground arith, ground arith)
                  ]
                ]
              ]
        ]
      ]
