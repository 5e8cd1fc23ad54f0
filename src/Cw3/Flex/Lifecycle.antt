-- ===== src/Cw3/Flex/Lifecycle.antt =====
-- The life of a proposal of cw3-flex-multisig: what no message can change, and which way its
-- status goes.
use cosmwasm_plus.Prelude.{
  ℕ, ◌+◌, ◌≤◌, ◌≡◌, ◌⊎◌, refl, false, Option, some, ok, ◌==◌, nat_eq, pair_eq, unwrap_or,
  nat_beq_iff, Bool-cases, arith, inl, inr,
}
use cosmwasm_plus.Std.{Std, BlockInfo}
use cosmwasm_plus.Storage.{Map, may_load, save}
use cosmwasm_plus.Storage.Laws.{may_load-save}
use cosmwasm_plus.Expiration.{is_expired}
use cosmwasm_plus.Cw3.Defs.{Vote, Status, Votes, add_vote, Proposal, update_status}
use cosmwasm_plus.Cw3.Early.{Extends}
use cosmwasm_plus.Cw3.Flex.{State, Env, Response, ExecuteMsg, Ballot, next_id, execute, is_closed}
use cosmwasm_plus.Cw3.Flex.Steps.{execute_steps, close_steps, hook_steps, vote_steps, propose_steps}

-- A status stays, or an open proposal passes, or a passed one is executed, or a pending or open one
-- is rejected.
abbrev pub StatusStep : Status → Status → Type 0
StatusStep a b =
    (a ≡ b)
    ⊎ ((a ≡ Status.open_status) × (b ≡ Status.passed))
    ⊎ ((a ≡ Status.passed) × (b ≡ Status.executed))
    ⊎ (((a ≡ Status.pending) ⊎ (a ≡ Status.open_status)) × (b ≡ Status.rejected))

unsettled_is :
    (status : Status)
    → is_closed status ≡ false
    → (status ≡ Status.pending) ⊎ (status ≡ Status.open_status)
unsettled_is Status.pending free = inl refl
unsettled_is Status.open_status free = inr refl
unsettled_is Status.rejected free = absurd cc
unsettled_is Status.passed free = absurd cc
unsettled_is Status.executed free = absurd cc

-- The terms of a proposal are those that it was made with; votes are only added.
pub record Follows (p p' : Proposal) : Type 0 where
  pub same_terms : p' ≡ record p { votes = p'.votes; status = p'.status }
  pub extends : Extends p.votes p'.votes
  pub status_step : StatusStep p.status p'.status

Follows-refl : (p : Proposal) → Follows p p
Follows-refl p = record { same_terms = refl; extends = omega arith; status_step = inl refl }

-- Proposals and ballots are numbered up to the count.
pub record IsNumbered (s : State) : Type 0 where
  pub proposals :
      (id : ℕ) (p : Proposal) → may_load id s.proposals ≡ some p → id ≤ unwrap_or 0 s.proposal_count
  pub ballots :
      (id voter : ℕ) (b : Ballot)
      → may_load (id, voter) s.ballots ≡ some b
      → id ≤ unwrap_or 0 s.proposal_count

pub add_vote-Extends :
    (v : Votes) (choice : Vote) (weight : ℕ) {v' : Votes}
    → add_vote v choice weight ≡ some v'
    → Extends v v'
unfolding add_vote
add_vote-Extends v Vote.yes_vote weight p = ground arith
add_vote-Extends v Vote.no_vote weight p = ground arith
add_vote-Extends v Vote.abstain_vote weight p = ground arith
add_vote-Extends v Vote.veto_vote weight p = ground arith

pub next_id_lem : (count : Option ℕ) {id : ℕ} → next_id count ≡ some id → id ≡ unwrap_or 0 count + 1
unfolding next_id
next_id_lem count p = ground arith

module _ ⦃api : Std⦄ where
  -- `update_status` changes the status alone; before the end, an open proposal stays open or passes.
  pub update_status_lem :
      (p : Proposal) (block : BlockInfo) {p' : Proposal}
      → update_status p block ≡ some p'
      → (p' ≡ record p { status = p'.status })
        × (is_expired p.expires block ≡ false → StatusStep p.status p'.status)
  unfolding update_status
  update_status_lem p block {p'} e = (ground arith, λ live. ground arith)

  -- A write of a follower under its own id is a follower of what any id held.
  Follows-save :
      (id j : ℕ) (p q p0 : Proposal) (m : Map ℕ Proposal)
      → may_load id m ≡ some p
      → Follows p q
      → may_load j m ≡ some p0
      → (p' : Proposal) × (may_load j (save id q m) ≡ some p') × Follows p0 p'
  Follows-save id j p q p0 m e f e0 = elim (Bool-cases (j == id)) [
    | inl same ↦
        let at_id : j ≡ id = (nat_beq_iff j id).0 same in
        let same_p : p0 ≡ p = ground arith in
        (q, ground (arith, may_load-save id j q m), rw same_p f)
    | inr other ↦ (p0, ground (arith, may_load-save id j q m), Follows-refl p0)
  ]

  vote-Follows :
      (env : Env) (prop prop' : Proposal) (votes : Votes) (choice : Vote) (power : ℕ)
      → is_expired prop.expires env.block ≡ false
      → add_vote prop.votes choice power ≡ some votes
      → update_status (record prop { votes = votes }) env.block ≡ some prop'
      → Follows prop prop'
  vote-Follows env prop prop' votes choice power live e3 e4 =
      let (same, step) = update_status_lem (record prop { votes = votes }) env.block e4 in
      let more = add_vote-Extends prop.votes choice power e3 in
      record { same_terms = ground arith; extends = ground arith; status_step = step live }

  -- After every successful message, each proposal is still there with the terms that it was made
  -- with, its votes have only grown, and its status is the same or has gone one step: from open to
  -- passed, from passed to executed, or from pending or open to rejected.
  pub execute-Follows :
      (env : Env) (msg : ExecuteMsg) (s s' : State) (id : ℕ) (p : Proposal) {r : Response}
      → IsNumbered s
      → execute env msg s ≡ ok (s', r)
      → may_load id s.proposals ≡ some p
      → (p' : Proposal) × (may_load id s'.proposals ≡ some p') × Follows p p'
  unfolding execute
  execute-Follows env (ExecuteMsg.propose title description msgs latest) s s' id p n e h =
      let (cfg, _, (power, _, (_, _, weight, _, _, _, (q, new_id, _, next, e', _)))) =
        propose_steps env title description msgs latest s e in
      let above = n.proposals id p h in
      let new = next_id_lem s.proposal_count next in
      (p, ground (arith, may_load-save new_id id q s.proposals), Follows-refl p)
  execute-Follows env (ExecuteMsg.vote voted choice) s s' id p n e h =
      let (cfg, _, (prop, found, _, live, (power, _, _, (votes, prop', e3, e4, e', _)))) =
        vote_steps env voted choice s e in
      let kept =
        Follows-save voted id prop prop' p s.proposals found
          (vote-Follows env prop prop' votes choice power live e3 e4) h in
      (kept.0, ground arith, kept.2)
  execute-Follows env (ExecuteMsg.execute_proposal done) s s' id p n e h =
      let (prop, found, passed, e', _) = execute_steps env done s e in
      let q : Proposal = record prop { status = Status.executed } in
      let f : Follows prop q = record {
        same_terms = refl;
        extends = omega arith;
        status_step = inr (inr (inl (passed, refl)));
      } in
      let kept = Follows-save done id prop q p s.proposals found f h in
      (kept.0, ground arith, kept.2)
  execute-Follows env (ExecuteMsg.close closed) s s' id p n e h =
      let (prop, found, unsettled, _, e', _) = close_steps env closed s e in
      let q : Proposal = record prop { status = Status.rejected } in
      let f : Follows prop q = record {
        same_terms = refl;
        extends = omega arith;
        status_step = inr (inr (inr (unsettled_is prop.status unsettled, refl)));
      } in
      let kept = Follows-save closed id prop q p s.proposals found f h in
      (kept.0, ground arith, kept.2)
  execute-Follows env ExecuteMsg.member_changed_hook s s' id p n e h =
      let (_, _, _, e', _) = hook_steps env s e in (p, ground arith, Follows-refl p)
