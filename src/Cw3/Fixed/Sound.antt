-- ===== src/Cw3/Fixed/Sound.antt =====
-- The states of cw3-fixed-multisig: what is stored of a proposal agrees with its ballots.
use cosmwasm_plus.Prelude.{
  ℕ, ◌+◌, ◌≤◌, ◌<◌, ◌≡◌, refl, Bool, true, false, not, Option, none, some, List, ok, nat_eq,
  pair_eq, unwrap_or, arith, inl, inr, nat_beq_iff, leb, Option-cases,
}
use cosmwasm_plus.Std.{Std}
use cosmwasm_plus.Storage.{Map, may_load, save}
use cosmwasm_plus.Storage.Laws.{all-save}
use cosmwasm_plus.Expiration.{Expiration}
use cosmwasm_plus.Cw3.Defs.{Vote, Status}
use cosmwasm_plus.Cw3.Flex.{Ballot}
use cosmwasm_plus.Cw3.Flex.Tally.{same_vote, cast, cast-save, cast-none}
use cosmwasm_plus.Cw3.Fixed.{
  Config, Proposal, new_proposal, counted, is_yes, State, Env, Response, ExecuteMsg, next_id, tally,
  execute,
}
use cosmwasm_plus.Cw3.Fixed.Steps.{execute_steps, close_steps, vote_steps, propose_steps}

-- The statuses that a proposal can have, where its yes votes suffice or not.
abbrev pub fits_status : Status → Bool → Bool
fits_status Status.passed enough = enough
fits_status Status.executed enough = enough
fits_status Status.open_status enough = not enough
fits_status Status.rejected enough = not enough
fits_status Status.pending enough = false

-- A stored proposal: its number is at most the count, it requires what the configuration does, its
-- yes weight is the weight of its yes ballots, and it has passed or been executed exactly if that
-- suffices.
pub record IsCounted (s : State) (id : ℕ) (p : Proposal) : Type 0 where
  pub numbered : id ≤ unwrap_or 0 s.proposal_count
  pub requires : (cfg : Config) → s.config ≡ some cfg → p.required_weight ≡ cfg.required_weight
  pub counts : p.yes_weight ≡ cast id Vote.yes_vote s.ballots
  pub fits : fits_status p.status (leb p.required_weight p.yes_weight) ≡ true

-- A stored ballot is of a voter, with the weight of the voter, on a proposal up to the count.
pub record IsCast (s : State) (key : ℕ × ℕ) (b : Ballot) : Type 0 where
  pub numbered : key.0 ≤ unwrap_or 0 s.proposal_count
  pub weighs : may_load key.1 s.voters ≡ some b.weight

pub record IsSound (s : State) : Type 0 where
  pub proposals : (id : ℕ) (p : Proposal) → may_load id s.proposals ≡ some p → IsCounted s id p
  pub ballots : (key : ℕ × ℕ) (b : Ballot) → may_load key s.ballots ≡ some b → IsCast s key b

-- Nobody has voted on a proposal beyond the count.
unvoted :
    (s : State) (id voter : ℕ)
    → IsSound s
    → unwrap_or 0 s.proposal_count < id
    → may_load (id, voter) s.ballots ≡ none
unvoted s id voter i above = elim (Option-cases (may_load (id, voter) s.ballots)) [
  | inl nobody ↦ nobody
  | inr (b, found) ↦ absurd (omega (arith, (i.ballots (id, voter) b found).numbered))
]

pub next_id_lem : (count : Option ℕ) (id : ℕ) → next_id count ≡ some id → id ≡ unwrap_or 0 count + 1
unfolding next_id
next_id_lem count id p = ground arith

-- A proposal that is written again with another status that fits.
restated-IsSound :
    (s : State) (id : ℕ) (p : Proposal) (status : Status)
    → IsSound s
    → may_load id s.proposals ≡ some p
    → fits_status status (leb p.required_weight p.yes_weight) ≡ true
    → IsSound (record s { proposals = save id (record p { status = status }) s.proposals })
restated-IsSound s id p status i found fits =
    let t : State = record s { proposals = save id (record p { status = status }) s.proposals } in
    let old = i.proposals id p found in
    record {
      proposals =
          all-save (IsCounted t) id (record p { status = status }) s.proposals
            (record {
              numbered = old.numbered;
              requires = old.requires;
              counts = old.counts;
              fits = fits;
            })
            (λ j q _ stored.
              let c = i.proposals j q stored in
              record {
                numbered = c.numbered;
                requires = c.requires;
                counts = c.counts;
                fits = c.fits;
              });
      ballots = λ key b stored.
          let c = i.ballots key b stored in record { numbered = c.numbered; weighs = c.weighs };
    }

-- A first ballot, of a voter with the weight of the voter, keeps the ballots cast.
ballots-IsCast :
    (s t : State) (id voter power : ℕ) (choice : Vote)
    → IsSound s
    → id ≤ unwrap_or 0 t.proposal_count
    → unwrap_or 0 s.proposal_count ≤ unwrap_or 0 t.proposal_count
    → t.voters ≡ s.voters
    → may_load voter s.voters ≡ some power
    → (key : ℕ × ℕ) (b : Ballot)
    → may_load key (save (id, voter) (record { weight = power; vote = choice }) s.ballots) ≡ some b
    → IsCast t key b
ballots-IsCast s t id voter power choice i low more same is_voter =
    all-save (IsCast t) (id, voter) (record { weight = power; vote = choice }) s.ballots
      (record { numbered = low; weighs = rw same is_voter })
      (λ key b _ stored.
        let c = i.ballots key b stored in
        record { numbered = omega (arith, c.numbered); weighs = rw same c.weighs })

-- An open proposal with one more yes vote, and a ballot for it.
yes-IsSound :
    (s : State) (id voter power : ℕ) (p : Proposal)
    → IsSound s
    → may_load voter s.voters ≡ some power
    → may_load id s.proposals ≡ some p
    → p.status ≡ Status.open_status
    → may_load (id, voter) s.ballots ≡ none
    → IsSound (record s {
      ballots = save (id, voter) (record { weight = power; vote = Vote.yes_vote }) s.ballots;
      proposals = save id (counted p (p.yes_weight + power)) s.proposals;
    })
yes-IsSound s id voter power p i is_voter found opened first =
    let b : Ballot = record { weight = power; vote = Vote.yes_vote } in
    let q = counted p (p.yes_weight + power) in
    let t : State = record s {
      ballots = save (id, voter) b s.ballots;
      proposals = save id q s.proposals;
    } in
    let old = i.proposals id p found in
    record {
      proposals =
          all-save (IsCounted t) id q s.proposals
            (record {
              numbered = old.numbered;
              requires = old.requires;
              counts =
                  ground (arith, cast-save id voter id b Vote.yes_vote s.ballots first, old.counts);
              fits = ground (arith, old.fits);
            })
            (λ j r other stored.
              let c = i.proposals j r stored in
              record {
                numbered = c.numbered;
                requires = c.requires;
                counts = ground (
                  arith,
                  cast-save id voter j b Vote.yes_vote s.ballots first,
                  c.counts,
                  nat_beq_iff id j,
                  nat_beq_iff j id,
                );
                fits = c.fits;
              });
      ballots =
          ballots-IsCast s t id voter power Vote.yes_vote i old.numbered (omega arith) refl
            is_voter;
    }

not_yes : (choice : Vote) → is_yes choice ≡ false → same_vote Vote.yes_vote choice ≡ false
not_yes Vote.yes_vote h = cc
not_yes Vote.no_vote h = refl
not_yes Vote.abstain_vote h = refl
not_yes Vote.veto_vote h = refl

-- A ballot that is no yes.
other-IsSound :
    (s : State) (id voter power : ℕ) (choice : Vote) (p : Proposal)
    → IsSound s
    → is_yes choice ≡ false
    → may_load voter s.voters ≡ some power
    → may_load id s.proposals ≡ some p
    → may_load (id, voter) s.ballots ≡ none
    → IsSound (record s {
      ballots = save (id, voter) (record { weight = power; vote = choice }) s.ballots;
    })
other-IsSound s id voter power choice p i not_one is_voter found first =
    let b : Ballot = record { weight = power; vote = choice } in
    let t : State = record s { ballots = save (id, voter) b s.ballots } in
    let old = i.proposals id p found in
    record {
      proposals = λ j r stored.
          let c = i.proposals j r stored in
          record {
            numbered = c.numbered;
            requires = c.requires;
            counts = ground (
              arith,
              cast-save id voter j b Vote.yes_vote s.ballots first,
              c.counts,
              not_yes choice not_one,
            );
            fits = c.fits;
          };
      ballots = ballots-IsCast s t id voter power choice i old.numbered (omega arith) refl is_voter;
    }

tally-IsSound :
    (s : State) (id voter power : ℕ) (choice : Vote) (p : Proposal) (proposals : Map ℕ Proposal)
    → IsSound s
    → may_load voter s.voters ≡ some power
    → may_load id s.proposals ≡ some p
    → p.status ≡ Status.open_status
    → may_load (id, voter) s.ballots ≡ none
    → tally id p choice power s.proposals ≡ ok proposals
    → IsSound (record s {
      ballots = save (id, voter) (record { weight = power; vote = choice }) s.ballots;
      proposals = proposals;
    })
unfolding tally
tally-IsSound s id voter power Vote.yes_vote p proposals i is_voter found opened first t =
    let made : proposals ≡ save id (counted p (p.yes_weight + power)) s.proposals = ground arith in
    rw made (yes-IsSound s id voter power p i is_voter found opened first)
tally-IsSound s id voter power Vote.no_vote p proposals i is_voter found opened first t =
    let same : proposals ≡ s.proposals = ground arith in
    rw same (other-IsSound s id voter power Vote.no_vote p i refl is_voter found first)
tally-IsSound s id voter power Vote.abstain_vote p proposals i is_voter found opened first t =
    let same : proposals ≡ s.proposals = ground arith in
    rw same (other-IsSound s id voter power Vote.abstain_vote p i refl is_voter found first)
tally-IsSound s id voter power Vote.veto_vote p proposals i is_voter found opened first t =
    let same : proposals ≡ s.proposals = ground arith in
    rw same (other-IsSound s id voter power Vote.veto_vote p i refl is_voter found first)

-- A new proposal with the yes vote of its proposer.
proposed-IsSound :
    (s : State) (title description msgs : List ℕ) (expires : Expiration) (cfg : Config)
    (id voter power : ℕ)
    → IsSound s
    → s.config ≡ some cfg
    → may_load voter s.voters ≡ some power
    → id ≡ unwrap_or 0 s.proposal_count + 1
    → IsSound (record s {
      proposal_count = some id;
      proposals =
          save id
            (new_proposal title description msgs expires cfg.required_weight power)
            s.proposals;
      ballots = save (id, voter) (record { weight = power; vote = Vote.yes_vote }) s.ballots;
    })
proposed-IsSound s title description msgs expires cfg id voter power i stored is_voter next =
    let b : Ballot = record { weight = power; vote = Vote.yes_vote } in
    let q = new_proposal title description msgs expires cfg.required_weight power in
    let t : State = record s {
      proposal_count = some id;
      proposals = save id q s.proposals;
      ballots = save (id, voter) b s.ballots;
    } in
    let nobody : (v : ℕ) → may_load (id, v) s.ballots ≡ none =
      λ v. unvoted s id v i (omega arith) in
    record {
      proposals =
          all-save (IsCounted t) id q s.proposals
            (record {
              numbered = omega arith;
              requires = λ cfg' e. ground arith;
              counts = ground (
                arith,
                cast-save id voter id b Vote.yes_vote s.ballots (nobody voter),
                cast-none id Vote.yes_vote s.ballots nobody,
              );
              fits = ground arith;
            })
            (λ j r other found.
              let c = i.proposals j r found in
              record {
                numbered = omega (arith, c.numbered);
                requires = c.requires;
                counts = ground (
                  arith,
                  cast-save id voter j b Vote.yes_vote s.ballots (nobody voter),
                  c.counts,
                  nat_beq_iff id j,
                  nat_beq_iff j id,
                );
                fits = c.fits;
              });
      ballots =
          ballots-IsCast s t id voter power Vote.yes_vote i (omega arith) (omega arith) refl
            is_voter;
    }

module _ ⦃api : Std⦄ where
  -- Every successful message keeps the state sound: every stored proposal requires the weight of the
  -- configuration, counts as yes weight exactly the weight of its yes ballots, has passed or been
  -- executed if that suffices, and is open or rejected if not; every ballot is of a voter and has
  -- the weight of the voter.
  pub execute-IsSound :
      (env : Env) (msg : ExecuteMsg) (s s' : State) (r : Response)
      → IsSound s
      → execute env msg s ≡ ok (s', r)
      → IsSound s'
  unfolding execute
  execute-IsSound env (ExecuteMsg.propose title description msgs latest) s s' r i p =
      let (power, cfg, expires, id, is_voter, stored, next, made, _) =
        propose_steps env title description msgs latest s p in
      rw made (
        proposed-IsSound s title description msgs expires cfg id env.sender power i stored is_voter
          (next_id_lem s.proposal_count id next))
  execute-IsSound env (ExecuteMsg.vote id choice) s s' r i p =
      let (power, prop, proposals, is_voter, found, opened, _, first, counted_as, made, _) =
        vote_steps env id choice s p in
      rw made (
        tally-IsSound s id env.sender power choice prop proposals i is_voter found opened first
          counted_as)
  execute-IsSound env (ExecuteMsg.execute_proposal id) s s' r i p =
      let (prop, found, passed, made, _) = execute_steps id s p in
      let old = i.proposals id prop found in
      rw made (restated-IsSound s id prop Status.executed i found (ground (arith, old.fits)))
  execute-IsSound env (ExecuteMsg.close id) s s' r i p =
      let (prop, found, unsettled, _, made, _) = close_steps env id s p in
      let old = i.proposals id prop found in
      rw made (restated-IsSound s id prop Status.rejected i found (ground (arith, old.fits)))
