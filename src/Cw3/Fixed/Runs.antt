-- ===== src/Cw3/Fixed/Runs.antt =====
-- What happens to a proposal of cw3-fixed-multisig after it has been executed, whatever is called.
use cosmwasm_plus.Prelude.{
  ℕ, ◌+◌, ◌≡◌, some, List, [], ◌∷◌, ok, nat_eq, pair_eq, arith, inl, inr, ◌≢◌, settle, settle-keeps,
  ◌==◌, Bool-cases, nat_beq_iff,
}
use cosmwasm_plus.Std.{Std}
use cosmwasm_plus.Storage.{Map, may_load, save}
use cosmwasm_plus.Storage.Laws.{may_load-save}
use cosmwasm_plus.Cw3.Defs.{Vote, Status}
use cosmwasm_plus.Cw3.Fixed.{
  Proposal, new_proposal, counted, is_yes, State, Env, Response, ExecuteMsg, tally, execute,
}
use cosmwasm_plus.Cw3.Fixed.Steps.{execute_steps, close_steps, vote_steps, propose_steps}
use cosmwasm_plus.Cw3.Fixed.Sound.{IsSound, execute-IsSound, next_id_lem}

-- The proposal `id` is stored, with the status of an executed one.
abbrev pub IsExecuted : ℕ → Proposal → State → Type 0
IsExecuted id p s = (may_load id s.proposals ≡ some p) × (p.status ≡ Status.executed)

-- A write under the number of a proposal that has not been executed.
other_stays :
    (id j : ℕ) (p prop q : Proposal) (m : Map ℕ Proposal)
    → may_load id m ≡ some p
    → p.status ≡ Status.executed
    → may_load j m ≡ some prop
    → prop.status ≢ Status.executed
    → may_load id (save j q m) ≡ some p
other_stays id j p prop q m found done other differs = elim (Bool-cases (id == j)) [
  | inl same ↦ let at_id : id ≡ j = (nat_beq_iff id j).0 same in absurd (differs (ground arith))
  | inr different ↦ ground (arith, may_load-save j id q m)
]

tally_stays :
    (id j power : ℕ) (choice : Vote) (p prop : Proposal) (m proposals : Map ℕ Proposal)
    → may_load id m ≡ some p
    → p.status ≡ Status.executed
    → may_load j m ≡ some prop
    → prop.status ≢ Status.executed
    → tally j prop choice power m ≡ ok proposals
    → may_load id proposals ≡ some p
unfolding tally
tally_stays id j power choice p prop m proposals found done other differs t =
    elim (Bool-cases (is_yes choice)) [
      | inr no_yes ↦ ground arith
      | inl says_yes ↦
          let q = counted prop (prop.yes_weight + power) in
          let made : proposals ≡ save j q m = ground arith in
          rw made (other_stays id j p prop q m found done other differs)
    ]

module _ ⦃api : Std⦄ where
  execute_stays :
      (env : Env) (msg : ExecuteMsg) (s s' : State) (r : Response) (id : ℕ) (p : Proposal)
      → IsSound s
      → IsExecuted id p s
      → execute env msg s ≡ ok (s', r)
      → IsExecuted id p s'
  unfolding execute
  execute_stays env (ExecuteMsg.propose title description msgs latest) s s' r id p i (found, done)
        e =
      let (power, cfg, expires, new_id, _, _, next, made, _) =
        propose_steps env title description msgs latest s e in
      let q = new_proposal title description msgs expires cfg.required_weight power in
      let above = (i.proposals id p found).numbered in
      let new = next_id_lem s.proposal_count new_id next in
      (rw made (ground (arith, may_load-save new_id id q s.proposals, nat_beq_iff id new_id)), done)
  execute_stays env (ExecuteMsg.vote voted choice) s s' r id p i (found, done) e =
      let (power, prop, proposals, _, other, opened, _, _, counts, made, _) =
        vote_steps env voted choice s e in
      (
        rw made (
            tally_stays id voted power choice p prop s.proposals proposals found done other
              (λ e2. absurd (ground arith)) counts),
        done,
      )
  execute_stays env (ExecuteMsg.execute_proposal other) s s' r id p i (found, done) e =
      let (prop, stored, passed, made, _) = execute_steps other s e in
      let q : Proposal = record prop { status = Status.executed } in
      (
        rw made (
            other_stays id other p prop q s.proposals found done stored
              (λ e2. absurd (ground arith))),
        done,
      )
  execute_stays env (ExecuteMsg.close other) s s' r id p i (found, done) e =
      let (prop, stored, unsettled, _, made, _) = close_steps env other s e in
      let q : Proposal = record prop { status = Status.rejected } in
      (
        rw made (
            other_stays id other p prop q s.proposals found done stored
              (λ e2. absurd (ground arith))),
        done,
      )

  -- The state after some messages, failed ones reverted.
  pub run : List (Env × ExecuteMsg) → State → State
  run [] s = s
  run ((env, msg) ∷ calls) s = run calls (settle s (execute env msg s))

  pub run_stays :
      (calls : List (Env × ExecuteMsg)) (s : State) (id : ℕ) (p : Proposal)
      → IsSound s
      → IsExecuted id p s
      → IsExecuted id p (run calls s)
  unfolding run
  run_stays [] s id p i done = done
  run_stays ((env, msg) ∷ calls) s id p i done =
      let (i', done') =
        settle-keeps (λ t. IsSound t × IsExecuted id p t) s (execute env msg s) (i, done)
          (λ s' r e.
            (execute-IsSound env msg s s' r i e, execute_stays env msg s s' r id p i done e)) in
      run_stays calls (settle s (execute env msg s)) id p i' done'
