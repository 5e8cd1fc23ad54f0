-- ===== src/Cw3/Flex/Tally.antt =====
-- The votes of a proposal of cw3-flex-multisig are the ballots that were cast on it.
use cosmwasm_plus.Prelude.{
  ℕ, ◌+◌, ◌<◌, ◌≡◌, refl, Bool, true, false, ◌&&◌, none, some, [], ◌∷◌, ok, ◌==◌, nat_eq, pair_eq,
  unwrap_or, nat_beq_iff, Bool-cases, arith, Option-cases, inl, inr, if◌then◌else◌,
}
use cosmwasm_plus.Std.{Std}
use cosmwasm_plus.Storage.{Map, may_load, save}
use cosmwasm_plus.Storage.Laws.{may_load-save}
use cosmwasm_plus.Cw3.Defs.{Vote, Votes, new_votes, add_vote, Proposal}
use cosmwasm_plus.Cw3.Flex.{State, Env, Response, ExecuteMsg, Ballot, execute}
use cosmwasm_plus.Cw3.Flex.Steps.{execute_steps, close_steps, hook_steps, vote_steps, propose_steps}
use cosmwasm_plus.Cw3.Flex.Lifecycle.{IsNumbered, next_id_lem, update_status_lem}

abbrev pub same_vote : Vote → Vote → Bool
same_vote Vote.yes_vote Vote.yes_vote = true
same_vote Vote.no_vote Vote.no_vote = true
same_vote Vote.abstain_vote Vote.abstain_vote = true
same_vote Vote.veto_vote Vote.veto_vote = true
same_vote _ _ = false

abbrev pub weight_of : Vote → Votes → ℕ
weight_of Vote.yes_vote v = v.yes_weight
weight_of Vote.no_vote v = v.no_weight
weight_of Vote.abstain_vote v = v.abstain_weight
weight_of Vote.veto_vote v = v.veto_weight

-- the weight of the ballots of one proposal for one choice
pub cast : ℕ → Vote → Map (ℕ × ℕ) Ballot → ℕ
cast id choice [] = 0
cast id choice ((key, b) ∷ m) =
    (if key.0 == id && same_vote choice b.vote then b.weight else 0) + cast id choice m

-- A first ballot of a voter counts for its proposal and its choice, and for no other.
pub cast-save :
    (id voter j : ℕ) (b : Ballot) (choice : Vote) (m : Map (ℕ × ℕ) Ballot)
    → may_load (id, voter) m ≡ none
    → cast j choice (save (id, voter) b m)
      ≡ cast j choice m + (if id == j && same_vote choice b.vote then b.weight else 0)
unfolding cast may_load save
cast-save id voter j b choice [] h = omega arith
cast-save id voter j b choice ((key, w) ∷ m) h = ground (arith, cast-save id voter j b choice m)

-- No ballot of a proposal, no weight.
pub cast-none :
    (id : ℕ) (choice : Vote) (m : Map (ℕ × ℕ) Ballot)
    → ((voter : ℕ) → may_load (id, voter) m ≡ none)
    → cast id choice m ≡ 0
unfolding cast may_load
cast-none id choice [] h = refl
cast-none id choice (((i, a), w) ∷ m) h =
    let other = h a in
    let rest : (voter : ℕ) → may_load (id, voter) m ≡ none =
      λ voter. ground (arith, h voter, h a) in
    ground (arith, cast-none id choice m rest)

add_vote_lem :
    (v : Votes) (choice : Vote) (weight : ℕ) (c : Vote) {v' : Votes}
    → add_vote v choice weight ≡ some v'
    → weight_of c v' ≡ weight_of c v + (if same_vote c choice then weight else 0)
unfolding add_vote
add_vote_lem v Vote.yes_vote weight c p = ground arith
add_vote_lem v Vote.no_vote weight c p = ground arith
add_vote_lem v Vote.abstain_vote weight c p = ground arith
add_vote_lem v Vote.veto_vote weight c p = ground arith

-- The counts of every proposal are the weights of its ballots.
abbrev pub IsTallied : Map ℕ Proposal → Map (ℕ × ℕ) Ballot → Type 0
IsTallied proposals ballots =
    (id : ℕ) (p : Proposal) (c : Vote)
    → may_load id proposals ≡ some p
    → weight_of c p.votes ≡ cast id c ballots

new_votes_lem :
    (power : ℕ) (c : Vote)
    → weight_of c (new_votes power) ≡ (if same_vote c Vote.yes_vote then power else 0)
new_votes_lem power Vote.yes_vote = refl
new_votes_lem power Vote.no_vote = refl
new_votes_lem power Vote.abstain_vote = refl
new_votes_lem power Vote.veto_vote = refl

-- A proposal that is written again with the same votes keeps the counts right.
rewrite-IsTallied :
    (id : ℕ) (p q : Proposal) (proposals : Map ℕ Proposal) (ballots : Map (ℕ × ℕ) Ballot)
    → may_load id proposals ≡ some p
    → q.votes ≡ p.votes
    → IsTallied proposals ballots
    → IsTallied (save id q proposals) ballots
rewrite-IsTallied id p q proposals ballots found same t j r c h = elim (Bool-cases (j == id)) [
  | inl here ↦
      let at_id : j ≡ id = (nat_beq_iff j id).0 here in
      let is_q : r ≡ q = ground (arith, may_load-save id j q proposals) in
      let counted = t id p c found in rw (at_id, is_q, same) counted
  | inr other ↦ t j r c (ground (arith, may_load-save id j q proposals))
]

-- A proposal that is written with one more ballot, counted once.
ballot-IsTallied :
    (id voter : ℕ) (b : Ballot) (q : Proposal) (proposals : Map ℕ Proposal)
    (ballots : Map (ℕ × ℕ) Ballot)
    → may_load (id, voter) ballots ≡ none
    → ((c : Vote)
        → weight_of c q.votes ≡ cast id c ballots + (if same_vote c b.vote then b.weight else 0))
    → IsTallied proposals ballots
    → IsTallied (save id q proposals) (save (id, voter) b ballots)
ballot-IsTallied id voter b q proposals ballots first counts t j r c h =
    elim (Bool-cases (j == id)) [
      | inl here ↦
          let at_id : j ≡ id = (nat_beq_iff j id).0 here in
          let is_q : r ≡ q = ground (arith, may_load-save id j q proposals) in
          let counted = counts c in
          rw (at_id, is_q) (ground (arith, cast-save id voter id b c ballots first))
      | inr other ↦
          let counted = t j r c (ground (arith, may_load-save id j q proposals)) in
          ground (arith, cast-save id voter j b c ballots first)
    ]

-- Nobody has voted on a proposal beyond the count.
unvoted :
    (s : State)
    → IsNumbered s
    → (id voter : ℕ) → unwrap_or 0 s.proposal_count < id
    → may_load (id, voter) s.ballots ≡ none
unvoted s n id voter above = elim (Option-cases (may_load (id, voter) s.ballots)) [
  | inl nobody ↦ nobody
  | inr (b, found) ↦ absurd (omega (arith, n.ballots id voter b found))
]

module _ ⦃api : Std⦄ where
  -- Every successful message keeps the count of each proposal equal, for every choice, to the
  -- weight of the ballots that were cast on the proposal for the choice.
  pub execute-IsTallied :
      (env : Env) (msg : ExecuteMsg) (s s' : State) {r : Response}
      → IsNumbered s
      → IsTallied s.proposals s.ballots
      → execute env msg s ≡ ok (s', r)
      → IsTallied s'.proposals s'.ballots
  unfolding execute
  execute-IsTallied env (ExecuteMsg.propose title description msgs latest) s s' n t e =
      let (cfg, _, (power, _, (_, _, weight, _, _, _, (q, new_id, made, next, e', _)))) =
        propose_steps env title description msgs latest s e in
      let new = next_id_lem s.proposal_count next in
      let (same, _) = update_status_lem _ env.block made in
      let none_yet : (voter : ℕ) → may_load (new_id, voter) s.ballots ≡ none =
        λ voter. unvoted s n new_id voter (omega arith) in
      rw e' (
        ballot-IsTallied new_id env.sender (record { weight = power; vote = Vote.yes_vote }) q
          s.proposals s.ballots (none_yet env.sender)
          (λ c. ground (arith, cast-none new_id c s.ballots none_yet, new_votes_lem power c)) t)
  execute-IsTallied env (ExecuteMsg.vote voted choice) s s' n t e =
      let (cfg, _, (prop, found, _, _, (power, _, first, (votes, prop', e3, e4, e', _)))) =
        vote_steps env voted choice s e in
      let (same, _) = update_status_lem (record prop { votes = votes }) env.block e4 in
      rw e' (
        ballot-IsTallied voted env.sender (record { weight = power; vote = choice }) prop'
          s.proposals s.ballots first
          (λ c. ground (arith, t voted prop c found, add_vote_lem prop.votes choice power c e3)) t)
  execute-IsTallied env (ExecuteMsg.execute_proposal id) s s' n t e =
      let (prop, found, _, e', _) = execute_steps env id s e in
      rw e' (rewrite-IsTallied id prop _ s.proposals s.ballots found refl t)
  execute-IsTallied env (ExecuteMsg.close id) s s' n t e =
      let (prop, found, _, _, e', _) = close_steps env id s e in
      rw e' (rewrite-IsTallied id prop _ s.proposals s.ballots found refl t)
  execute-IsTallied env ExecuteMsg.member_changed_hook s s' n t e =
      let (_, _, _, e', _) = hook_steps env s e in rw e' t
