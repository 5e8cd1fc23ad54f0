-- ===== src/Cw3/Fixed/Dispatch.antt =====
-- Which messages cw3-fixed-multisig sends, and what its queries tell of it.
use cosmwasm_plus.Prelude.{
  ℕ, ◌≤◌, ◌≡◌, ◌↔◌, refl, Bool, true, false, some, List, [], ok, is_ok, nat_eq, pair_eq, arith, inl,
  inr, ◌⊎◌, leb, ◌&&◌, if◌then◌else◌,
}
use cosmwasm_plus.Std.{Std, BlockInfo}
use cosmwasm_plus.Storage.{may_load}
use cosmwasm_plus.Storage.Laws.{may_load-save}
use cosmwasm_plus.Expiration.{is_expired}
use cosmwasm_plus.Cw3.Defs.{Vote, Status, is_open}
use cosmwasm_plus.Cw3.Flex.{has_passed}
use cosmwasm_plus.Cw3.Flex.Tally.{cast}
use cosmwasm_plus.Cw3.Fixed.{
  Config, Proposal, State, Env, Response, ExecuteMsg, current_status, execute_execute,
  query_proposal, execute,
}
use cosmwasm_plus.Cw3.Fixed.Steps.{execute_steps, close_steps, vote_steps, propose_steps}
use cosmwasm_plus.Cw3.Fixed.Sound.{IsSound, fits_status, execute-IsSound}
use cosmwasm_plus.Cw3.Fixed.Runs.{IsExecuted, run, run_stays}

module _ ⦃api : Std⦄ where
  again_fails :
      (env : Env) (id : ℕ) (p : Proposal) (s : State)
      → IsExecuted id p s
      → is_ok (execute env (ExecuteMsg.execute_proposal id) s) ≡ false
  unfolding execute execute_execute
  again_fails env id p s (found, done) = ground arith

  -- On a sound state, a successful message that sends messages executes a stored proposal: it sends
  -- exactly the messages of the proposal, the yes ballots cast on the proposal weigh at least what
  -- the configuration requires, the proposal is left as executed, and after any further messages of
  -- anybody, failed ones reverted, every message that executes it again fails.
  pub fixed_dispatch :
      (env : Env) (msg : ExecuteMsg) (cfg : Config) (s s' : State) (r : Response)
      → IsSound s
      → s.config ≡ some cfg
      → execute env msg s ≡ ok (s', r)
      → (r ≡ [])
        ⊎ ((id : ℕ) × (p : Proposal) × (msg ≡ ExecuteMsg.execute_proposal id)
            × (may_load id s.proposals ≡ some p)
            × (r ≡ p.msgs)
            × (cfg.required_weight ≤ cast id Vote.yes_vote s.ballots)
            × (may_load id s'.proposals ≡ some (record p { status = Status.executed }))
            × ((calls : List (Env × ExecuteMsg)) (later : Env)
                → is_ok (execute later (ExecuteMsg.execute_proposal id) (run calls s')) ≡ false))
  unfolding execute execute_execute
  fixed_dispatch env (ExecuteMsg.propose title description msgs latest) cfg s s' r i stored p =
      let (_, _, _, _, _, _, _, _, quiet) = propose_steps env title description msgs latest s p in
      inl quiet
  fixed_dispatch env (ExecuteMsg.vote id choice) cfg s s' r i stored p =
      let (_, _, _, _, _, _, _, _, _, _, quiet) = vote_steps env id choice s p in inl quiet
  fixed_dispatch env (ExecuteMsg.close id) cfg s s' r i stored p =
      let (_, _, _, _, _, quiet) = close_steps env id s p in inl quiet
  fixed_dispatch env (ExecuteMsg.execute_proposal id) cfg s s' r i stored p =
      let (prop, found, passed, made, sends) = execute_steps id s p in
      let c = i.proposals id prop found in
      let requires = c.requires cfg stored in
      let after : may_load id s'.proposals ≡ some (record prop { status = Status.executed }) =
        rw made (
          ground
            (arith, may_load-save id id (record prop { status = Status.executed }) s.proposals)) in
      let sound = execute-IsSound env (ExecuteMsg.execute_proposal id) s s' r i p in
      let again = λ (calls : List (Env × ExecuteMsg)) (later : Env).
        again_fails later id (record prop { status = Status.executed }) (run calls s')
          (run_stays calls s' id (record prop { status = Status.executed }) sound (after, refl)) in
      inr (id, prop, refl, found, sends, ground (arith, c.fits, c.counts), after, again)

-- the status that `current_status` gives
abbrev now : Status → Bool → Bool → Status
now status enough over =
    let first = if is_open status && enough then Status.passed else status in
    if is_open first && over then Status.rejected else first

now-passed :
    (status : Status) (enough over : Bool)
    → fits_status status enough ≡ true
    → (now status enough over ≡ Status.passed) ↔ (has_passed status ≡ true)
now-passed Status.open_status true over f = absurd (ground arith)
now-passed Status.open_status false true f = ((λ e. absurd cc), λ e. absurd cc)
now-passed Status.open_status false false f = ((λ e. absurd cc), λ e. absurd cc)
now-passed Status.passed enough over f = ((λ e. refl), λ e. refl)
now-passed Status.executed enough over f = ((λ e. absurd cc), λ e. absurd cc)
now-passed Status.rejected enough over f = ((λ e. absurd cc), λ e. absurd cc)
now-passed Status.pending enough over f = absurd (ground arith)

now-rejected :
    (status : Status) (enough over : Bool)
    → fits_status status enough ≡ true
    → (now status enough over ≡ Status.rejected)
      ↔ (status ≡ Status.rejected) ⊎ (status ≡ Status.open_status) × (over ≡ true)
now-rejected Status.open_status true over f = absurd (ground arith)
now-rejected Status.open_status false true f = ((λ e. inr (refl, refl)), λ e. refl)
now-rejected Status.open_status false false f = ((λ e. absurd cc), λ e. absurd (ground arith))
now-rejected Status.passed enough over f = ((λ e. absurd cc), λ e. absurd (ground arith))
now-rejected Status.executed enough over f = ((λ e. absurd cc), λ e. absurd (ground arith))
now-rejected Status.rejected enough over f = ((λ e. inl refl), λ e. refl)
now-rejected Status.pending enough over f = absurd (ground arith)

execute_execute-ok :
    (id : ℕ) (p : Proposal) (s : State)
    → may_load id s.proposals ≡ some p
    → is_ok (execute_execute id s) ≡ has_passed p.status
unfolding execute_execute
execute_execute-ok id p s found = ground arith

-- On a sound state with a configuration, `query_proposal` reports a stored proposal as passed in
-- a block exactly when executing it succeeds, and as rejected exactly when it has been rejected or
-- is open and has expired.
pub query_proposal_agrees :
    (block : BlockInfo) (id : ℕ) (p : Proposal) (cfg : Config) (s : State)
    → IsSound s
    → s.config ≡ some cfg
    → may_load id s.proposals ≡ some p
    → (status : Status) × (query_proposal block id s ≡ ok (id, record p { status = status }, cfg))
      × ((status ≡ Status.passed) ↔ (is_ok (execute_execute id s) ≡ true))
      × ((status ≡ Status.rejected)
          ↔ (p.status ≡ Status.rejected)
            ⊎ (p.status ≡ Status.open_status) × (is_expired p.expires block ≡ true))
unfolding query_proposal current_status
query_proposal_agrees block id p cfg s i stored found =
    let c = i.proposals id p found in
    let enough = leb p.required_weight p.yes_weight in
    let over = is_expired p.expires block in
    (
      current_status p block,
      ground arith,
      rw (execute_execute-ok id p s found) (now-passed p.status enough over c.fits),
      now-rejected p.status enough over c.fits,
    )
