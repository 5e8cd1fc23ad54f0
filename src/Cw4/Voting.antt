-- ===== src/Cw4/Voting.antt =====
-- cw4-group as the group of cw3-flex-multisig: `total_weight`, `is_member` and `member_at_height` of
-- packages/cw4/src/helpers.rs, answered by the group contract.
use cosmwasm_plus.Prelude.{
  ℕ, ◌≡◌, ◌≤◌, refl, Option, some, Outcome, ok, err, panic, Option-cases, inl, inr, nat_eq, pair_eq,
}
use cosmwasm_plus.Std.{Std, StdError, generic_err}
use cosmwasm_plus.Storage
use cosmwasm_plus.Snapshot.{may_load, may_load_at_height}
use cosmwasm_plus.Snapshot.Heights.{IsUpTo}
use cosmwasm_plus.Cw3.Defs.{Vote, Proposal}
use cosmwasm_plus.Cw3.Flex
use cosmwasm_plus.Cw3.Flex.{Group, execute_vote}
use cosmwasm_plus.Cw4.{
  State, Env, ExecuteMsg, Response, ContractError, execute, query_member, query_total_weight,
}
use cosmwasm_plus.Cw4.Past.{execute-KeepsPast}

-- what a contract gets of a smart query: a failure is an error text
abbrev answer : Outcome ContractError (Option ℕ) → Outcome StdError (Option ℕ)
answer (ok weight) = ok weight
answer (err e) = err (generic_err "Querier contract error")
answer panic = err (generic_err "Querier system error")

module _ ⦃api : Std⦄ where
  -- `member_at_height`: the smart query `Member` with a height
  unfoldable pub member_at_height : State → ℕ → ℕ → Outcome StdError (Option ℕ)
  unfolding query_member
  member_at_height g member height = answer (query_member member (some height) g)

  -- `total_weight` and `is_member` read the total and the present weight of the group's storage.
  abbrev pub group_of : State → Group
  group_of g = record {
    total_weight = query_total_weight g;
    is_member = λ addr. ok (may_load addr g.members);
    member_at_height = member_at_height g;
  }

  -- The environment of a call of the multisig while the group has the state `g`.
  abbrev pub with_group : Flex.Env → State → Flex.Env
  with_group env g = record env { querier = λ _. group_of g }

  member_at_height_keeps :
      (env : Env) (msg : ExecuteMsg) (last : ℕ) (g g' : State) (r : Response) (member height : ℕ)
      → IsUpTo last g.members
      → last ≤ env.block.height
      → execute env msg g ≡ ok (g', r)
      → height ≤ env.block.height
      → member_at_height g' member height ≡ member_at_height g member height
  unfolding member_at_height query_member may_load_at_height
  member_at_height_keeps env msg last g g' r member height u le e before =
      let (u', keeps) = execute-KeepsPast env msg last g g' u le e in
      elim (Option-cases (api.addr_validate member)) [
        | inl bad ↦ rw (u'.every_block, u.every_block, bad) refl
        | inr (a, good) ↦ rw (u'.every_block, u.every_block, good, keeps a height before) refl
      ]

  -- A message to the group that succeeds in the block in which a proposal starts or later leaves
  -- the outcome of every vote on the proposal: the weight of a ballot, a refusal, and the state that
  -- the multisig has afterwards are those of the group before the message.
  pub vote_keeps :
      (env : Env) (msg : ExecuteMsg) (last : ℕ) (g g' : State) (r : Response) (voter : Flex.Env)
      (id : ℕ) (choice : Vote) (s : Flex.State) (prop : Proposal)
      → IsUpTo last g.members
      → last ≤ env.block.height
      → execute env msg g ≡ ok (g', r)
      → Storage.may_load id s.proposals ≡ some prop
      → prop.start_height ≤ env.block.height
      → execute_vote (with_group voter g') id choice s
        ≡ execute_vote (with_group voter g) id choice s
  unfolding execute_vote
  vote_keeps env msg last g g' r voter id choice s prop u le e stored before =
      let same =
        member_at_height_keeps env msg last g g' r voter.sender prop.start_height u le e before in
      elim (Option-cases s.config) [
        | inl missing ↦ rw (execute_vote, missing) refl
        | inr (cfg, found) ↦ rw (execute_vote, found, Storage.load, stored, same) refl
      ]
